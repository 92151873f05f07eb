-- ===== src/Eval/Frames/Owned.antt =====
-- Each write handle that a frame took stands with an open frame or was closed, and the frames of the scope
-- and of the handles are as many.
use cgpipe.Prelude.{
  ℕ, zero, suc, ◌-◌, ◌<◌, List, [], ◌∷◌, ◌++◌, Bool, true, false, ◌||◌, Option, none, some, nat_eq,
  list_eq, if◌then◌else◌, ◌==◌, length, ◌≡◌, refl, ap, ◌∙◌, arith,
}
use cgpipe.Prelude.Assoc.{insert, remove}
use cgpipe.Text.{Str}
use cgpipe.Syntax.Token
use cgpipe.Eval.Scope
use cgpipe.Eval.Scope.{update, frame_of, frame_or, home, del_at}
use cgpipe.Eval.Scope.Laws.{not_yet}
use cgpipe.Eval.Value.{Value, file_val}
use cgpipe.Eval.Interp.{Interp}
use cgpipe.Eval.Frames.{
  has_number, give_handle, top_handles, parent, adopted, pushed, popped, bind, assigned,
  assign_owned, assign_by,
}

abbrev pub in_frames : ℕ → List (List ℕ) → Bool
in_frames w [] = false
in_frames w (ws ∷ fs) = has_number w ws || in_frames w fs

-- There are `n` frames around the one on top, and no handle that was taken is lost.
abbrev pub Sound : {F W : Type 0} → ℕ → Interp F W → Type 0
Sound n s =
    (length s.scope ≡ suc n)
    × (length s.handles ≡ suc n)
    × ((w : ℕ)
        → has_number w s.owned ≡ true
        → (has_number w s.closed || in_frames w s.handles) ≡ true)

has_number-append :
    (w : ℕ) (xs ys : List ℕ) → has_number w (xs ++ ys) ≡ has_number w xs || has_number w ys
has_number-append w [] ys = refl
has_number-append w (x ∷ xs) ys = ground (arith, has_number-append w xs ys)

length-update :
    {V : Type 0} (f : List (Str × V) → List (Str × V)) (i : ℕ) (s : List (List (Str × V)))
    → length (update f i s) ≡ length s
unfolding update
length-update f i [] = refl
length-update f zero (x ∷ s) = refl
length-update f (suc i) (x ∷ s) = ap suc (length-update f i s)

frame_of_bound :
    {V : Type 0} (name : Str) (s : List (List (Str × V))) (i : ℕ)
    → frame_of name s ≡ some i
    → i < length s
unfolding frame_of
frame_of_bound name [] i h = cc h
frame_of_bound name (f ∷ fs) zero h = omega arith
frame_of_bound name (f ∷ fs) (suc i) h =
    omega (arith, frame_of_bound name fs i (not_yet name f fs i h).1)

frame_or_bound :
    (x : Option ℕ) (d n : ℕ) → ((i : ℕ) → x ≡ some i → i < n) → d < n → frame_or x d < n
frame_or_bound none d n h k = k
frame_or_bound (some i) d n h k = h i refl

if_bound : (b : Bool) (x y n : ℕ) → x < n → y < n → (if b then x else y) < n
if_bound true x y n h k = h
if_bound false x y n h k = k

home_bound :
    {V : Type 0} (name : Str) (s : List (List (Str × V))) (n : ℕ)
    → length s ≡ suc n
    → home name s < suc n
unfolding home
home_bound name s n e =
    frame_or_bound (frame_of name s) _ (suc n) (λ i h. omega (arith, e, frame_of_bound name s i h))
      (if_bound _ (length s - 1) 0 (suc n) (omega (arith, e)) (omega arith))

length-give_handle : (i w : ℕ) (fs : List (List ℕ)) → length (give_handle i w fs) ≡ length fs
unfolding give_handle
length-give_handle i w [] = refl
length-give_handle zero w (ws ∷ fs) = refl
length-give_handle (suc i) w (ws ∷ fs) = ap suc (length-give_handle i w fs)

-- The handles of the frames behind one that is given.
in_frames-give_handle :
    (i w : ℕ) (fs : List (List ℕ)) (v : ℕ)
    → i < length fs
    → in_frames v (give_handle i w fs) ≡ (v == w || in_frames v fs)
unfolding give_handle
in_frames-give_handle i w [] v h = absurd (omega (arith, h))
in_frames-give_handle zero w (ws ∷ fs) v h = ground (arith, has_number-append v ws (w ∷ []))
in_frames-give_handle (suc i) w (ws ∷ fs) v h = ground (arith, in_frames-give_handle i w fs v)

length-del_at :
    {V : Type 0} (x : Option ℕ) (name : Str) (s : List (List (Str × V)))
    → length (del_at x name s) ≡ length s
length-del_at none name s = refl
length-del_at (some i) name s = length-update (remove name) i s

closed_top :
    (v : ℕ) (cs : List ℕ) (fs : List (List ℕ))
    → (has_number v cs || in_frames v fs) ≡ true
    → (has_number v (cs ++ top_handles fs) || in_frames v (parent fs)) ≡ true
closed_top v cs [] e = ground (arith, has_number-append v cs [], e)
closed_top v cs (ws ∷ fs) e = ground (arith, has_number-append v cs ws, e)

length-parent : {A : Type 0} (n : ℕ) (xs : List A) → length xs ≡ suc n → length (parent xs) ≡ n
length-parent n [] e = absurd (omega (arith, e))
length-parent n (x ∷ xs) e = omega (arith, e)

module _ {F W : Type 0} where
  pub bind-Sound :
      (n : ℕ) (name : Str) (v : Value F) (s : Interp F W) → Sound n s → Sound n (bind name v s)
  unfolding bind Scope.set
  bind-Sound n name v s h = (length-update (insert name v) 0 s.scope ∙ h.0, h.1, h.2)

  pub assigned-Sound :
      (n : ℕ) (name : Str) (v : Value F) (s : Interp F W) → Sound n s → Sound n (assigned name v s)
  unfolding assigned Scope.assign
  assigned-Sound n name v s h =
      (length-update (insert name v) (home name s.scope) s.scope ∙ h.0, h.1, h.2)

  pub del-Sound :
      (n : ℕ) (name : Str) (s : Interp F W)
      → Sound n s
      → Sound n (record s { scope = Scope.del name s.scope })
  unfolding Scope.del
  del-Sound n name s h = (length-del_at (frame_of name s.scope) name s.scope ∙ h.0, h.1, h.2)

  taken :
      (n i w : ℕ) (s : Interp F W)
      → i < suc n
      → Sound n s
      → Sound n (record s { owned = w ∷ s.owned; handles = give_handle i w s.handles })
  taken n i w s less (a, b, c) = (
    a,
    length-give_handle i w s.handles ∙ b,
    λ v e. ground (arith, c v, e, in_frames-give_handle i w s.handles v, b, less),
  )

  unless-Sound :
      (n : ℕ) (b : Bool) (x y : Interp F W) → Sound n x → Sound n y → Sound n (if b then x else y)
  unless-Sound n true x y h k = h
  unless-Sound n false x y h k = k

  pub adopted-Sound :
      (n i : ℕ) (v : Value F) (s : Interp F W) → i < suc n → Sound n s → Sound n (adopted i v s)
  unfolding adopted
  adopted-Sound n i (file_val path mode (some w)) s less h =
      unless-Sound n (has_number w s.owned) _ _ h (taken n i w s less h)
  adopted-Sound n i (file_val path mode none) s less h = h
  adopted-Sound n i _ s less h = h

  pub assign_owned-Sound :
      (n : ℕ) (name : Str) (v : Value F) (s : Interp F W)
      → Sound n s
      → Sound n (assign_owned name v s)
  unfolding assign_owned
  assign_owned-Sound n name v s h =
      adopted-Sound n (home name s.scope) v (assigned name v s) (home_bound name s.scope n h.0)
        (assigned-Sound n name v s h)

  pub assign_by-Sound :
      (n : ℕ) (op : Token.Kind) (name : Str) (v : Value F) (s : Interp F W)
      → Sound n s
      → Sound n (assign_by op name v s)
  unfolding assign_by
  assign_by-Sound n Token.assign name v s h = assign_owned-Sound n name v s h
  assign_by-Sound n Token.q_assign name v s h =
      unless-Sound n (Scope.has name s.scope) _ _ h (assign_owned-Sound n name v s h)
  assign_by-Sound n Token.plus_assign name v s h = assigned-Sound n name _ s h
  assign_by-Sound n _ name v s h = h

  pub pushed-Sound : (n : ℕ) (s : Interp F W) → Sound n s → Sound (suc n) (pushed s)
  unfolding pushed
  pushed-Sound n s (a, b, c) = (ap suc a, ap suc b, c)

  pub popped-Sound : (n : ℕ) (s : Interp F W) → Sound (suc n) s → Sound n (popped s)
  unfolding popped
  popped-Sound n s (a, b, c) = (
    length-parent (suc n) s.scope a,
    length-parent (suc n) s.handles b,
    λ v e. closed_top v s.closed s.handles (c v e),
  )
