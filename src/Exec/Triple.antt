-- ===== src/Exec/Triple.antt =====
-- Pre- and postconditions of methods, with a rule for each way to build a method.
use cgpipe.Prelude.{List, [], ◌∷◌, Bool, true, false, Option, none, some, ◌≡◌, refl, if◌then◌else◌}
use cgpipe.Exec.{
  Result, ok, err, Exec, pure, fail, gets, lift, modify, finally, continue, ◌>>=◌, all_of, any_of,
  first_of, for_each,
}

module _ {ℓ κ μ ν} {S : Type ℓ} {E : Type κ} {A : Type μ} where
  -- `Q` of a value and the state behind it, `R` of an error and the state behind it
  abbrev pub Post : (A → S → Type ν) → (E → S → Type ν) → Result E A × S → Type ν
  Post Q R (ok a, s) = Q a s
  Post Q R (err e, s) = R e s

  -- From a state with `P` the method ends in one with `Q`, or in an error with `R`.
  pub record Triple (P : S → Type ν) (m : Exec S E A) (Q : A → S → Type ν) (R : E → S → Type ν)
      : Type (ℓ ⊔ κ ⊔ μ ⊔ ν) where
    pub at : (s : S) → P s → Post Q R (m s)

module _ {ℓ κ μ ν} {S : Type ℓ} {E : Type κ} {A : Type μ} {Q : A → S → Type ν}
    {R : E → S → Type ν} where
  pub triple_pure : (a : A) → Triple (Q a) (pure a) Q R
  unfolding pure
  triple_pure a = record { at = λ s h. h }

  pub triple_fail : (e : E) → Triple (R e) (fail e) Q R
  unfolding fail
  triple_fail e = record { at = λ s h. h }

  -- The state may be read before the method is chosen, and nothing is changed by reading it.
  pub triple_gets :
      {P : S → Type ν} (f : S → A) → ((s : S) → P s → Q (f s) s) → Triple P (gets f) Q R
  unfolding gets
  triple_gets f h = record { at = h }

  pub triple_lift :
      {P : S → Type ν} (r : Result E A)
      → ((a : A) → r ≡ ok a → (s : S) → P s → Q a s)
      → ((e : E) → r ≡ err e → (s : S) → P s → R e s)
      → Triple P (lift r) Q R
  unfolding lift
  triple_lift (ok a) hq hr = record { at = hq a refl }
  triple_lift (err e) hq hr = record { at = hr e refl }

  pub triple_pre :
      {P P' : S → Type ν} {m : Exec S E A}
      → ((s : S) → P s → P' s)
      → Triple P' m Q R
      → Triple P m Q R
  triple_pre weaken t = record { at = λ s p. t.at s (weaken s p) }

  -- A fact that the precondition gives, and that no state is part of.
  pub triple_given {ρ} :
      {P : S → Type ν} {F : Type ρ} {m : Exec S E A}
      → ((s : S) → P s → F)
      → (F → Triple P m Q R)
      → Triple P m Q R
  triple_given fact t = record { at = λ s p. (t (fact s p)).at s p }

  pub triple_never : {P : S → Type ν} {m : Exec S E A} → ((s : S) → P s → ⊥) → Triple P m Q R
  triple_never none_such = record { at = λ s p. absurd (none_such s p) }

  pub triple_if :
      {P : S → Type ν} {m n : Exec S E A} (b : Bool)
      → (b ≡ true → Triple P m Q R)
      → (b ≡ false → Triple P n Q R)
      → Triple P (if b then m else n) Q R
  triple_if true hm hn = hm refl
  triple_if false hm hn = hn refl

  Post-map :
      {Q' : A → S → Type ν} {R' : E → S → Type ν}
      → ((a : A) (s : S) → Q a s → Q' a s)
      → ((e : E) (s : S) → R e s → R' e s)
      → (r : Result E A × S) → Post Q R r
      → Post Q' R' r
  Post-map f g (ok a, s) h = f a s h
  Post-map f g (err e, s) h = g e s h

  pub triple_post :
      {P : S → Type ν} {Q' : A → S → Type ν} {R' : E → S → Type ν} {m : Exec S E A}
      → ((a : A) (s : S) → Q a s → Q' a s)
      → ((e : E) (s : S) → R e s → R' e s)
      → Triple P m Q R
      → Triple P m Q' R'
  triple_post f g t = record { at = λ s p. Post-map f g _ (t.at s p) }

  Post-finally :
      (Q' : A → S → Type ν) (R' : E → S → Type ν) (f : S → S)
      → ((a : A) (s : S) → Q a s → Q' a (f s))
      → ((e : E) (s : S) → R e s → R' e (f s))
      → (r : Result E A × S) → Post Q R r
      → Post Q' R' (r.0, f r.1)
  Post-finally Q' R' f hq hr (ok a, s') h = hq a s' h
  Post-finally Q' R' f hq hr (err x, s') h = hr x s' h

  pub triple_finally :
      {P : S → Type ν} {Q' : A → S → Type ν} {R' : E → S → Type ν} {m : Exec S E A} (f : S → S)
      → ((a : A) (s : S) → Q a s → Q' a (f s))
      → ((e : E) (s : S) → R e s → R' e (f s))
      → Triple P m Q R
      → Triple P (finally f m) Q' R'
  unfolding finally
  triple_finally {Q'} {R'} {m} f hq hr t = record {
    at = λ s p. Post-finally Q' R' f hq hr (m s) (t.at s p);
  }

module _ {ℓ κ μ ν} {S : Type ℓ} {E : Type κ} {A : Type μ} where
  Post-and :
      (Q Q' : A → S → Type ν) (R R' : E → S → Type ν) (r : Result E A × S)
      → Post Q R r
      → Post Q' R' r
      → Post (λ a s. Q a s × Q' a s) (λ e s. R e s × R' e s) r
  Post-and Q Q' R R' (ok a, s) h h' = (h, h')
  Post-and Q Q' R R' (err e, s) h h' = (h, h')

  pub triple_and :
      {P P' : S → Type ν} {Q Q' : A → S → Type ν} {R R' : E → S → Type ν} {m : Exec S E A}
      → Triple P m Q R
      → Triple P' m Q' R'
      → Triple (λ s. P s × P' s) m (λ a s. Q a s × Q' a s) (λ e s. R e s × R' e s)
  triple_and {Q} {Q'} {R} {R'} t t' = record {
    at = λ s h. Post-and Q Q' R R' _ (t.at s h.0) (t'.at s h.1);
  }

-- A value that the precondition names by the state it holds of.
pub triple_from {ℓ κ μ} :
    {S : Type ℓ} {E : Type κ} {A : Type μ} {P : S → Type ℓ} {Q : A → S → Type ℓ}
    {R : E → S → Type ℓ} {m : Exec S E A}
    → ((now : S) → P now → Triple (λ s. s ≡ now) m Q R)
    → Triple P m Q R
triple_from t = record { at = λ s h. (t s h).at s refl }

module _ {ℓ κ μ ν ρ} {S : Type ℓ} {E : Type κ} {A : Type μ} {B : Type ρ} {Q : B → S → Type ν}
    {R : E → S → Type ν} where
  Post-continue :
      {M : A → S → Type ν} {f : A → Exec S E B}
      → ((a : A) → Triple (M a) (f a) Q R)
      → (r : Result E A × S) → Post M R r
      → Post Q R (continue f r)
  Post-continue hf (ok a, s) h = (hf a).at s h
  Post-continue hf (err e, s) h = h

  pub triple_bind :
      {P : S → Type ν} {M : A → S → Type ν} {m : Exec S E A} {f : A → Exec S E B}
      → Triple P m M R
      → ((a : A) → Triple (M a) (f a) Q R)
      → Triple P (m >>= f) Q R
  unfolding ◌>>=◌
  triple_bind hm hf = record { at = λ s p. Post-continue hf _ (hm.at s p) }

pub triple_modify {ℓ κ ν} :
    {S : Type ℓ} {E : Type κ} {P : S → Type ν} {R : E → S → Type ν} (Q : S → Type ν) (f : S → S)
    → ((s : S) → P s → Q (f s))
    → Triple P (modify f) (λ _. Q) R
unfolding modify
triple_modify Q f h = record { at = h }

-- A loop with an invariant over the items that are left.
pub triple_for_each {ℓ κ μ ν ρ} :
    {S : Type ℓ} {E : Type κ} {A : Type μ} {B : Type ρ} {R : E → S → Type ν}
    (I : List A → B → S → Type ν) (f : B → A → Exec S E B)
    → ((a : A) (rest : List A) (acc : B) → Triple (I (a ∷ rest) acc) (f acc a) (I rest) R)
    → (xs : List A) (acc : B) → Triple (I xs acc) (for_each f xs acc) (I []) R
unfolding for_each
triple_for_each I f step [] acc = triple_pure acc
triple_for_each I f step (x ∷ xs) acc =
    triple_bind (step x xs acc) (λ acc'. triple_for_each I f step xs acc')

abbrev pub pick {ℓ} : {A : Type ℓ} → Bool → A → A → A
pick true x y = x
pick false x y = y

abbrev pub Found {ℓ κ ν} :
    {S : Type ℓ} {A : Type κ} → (S → Type ν) → (A → S → Type ν) → Option A → S → Type ν
Found Out In none s = Out s
Found Out In (some a) s = In a s

-- `I` holds of the items that are still to be tried; a loop that leaves early ends in `Out`.
module _ {ℓ κ μ ν} {S : Type ℓ} {E : Type κ} {A : Type μ} {R : E → S → Type ν}
    (I : List A → S → Type ν) (f : A → Exec S E Bool) where
  module _ (Out : S → Type ν) where
    pub triple_all_of :
        ((a : A) (rest : List A) → Triple (I (a ∷ rest)) (f a) (λ b s. pick b (I rest s) (Out s)) R)
        → (xs : List A) → Triple (I xs) (all_of f xs) (λ b s. pick b (I [] s) (Out s)) R
    unfolding all_of
    triple_all_of step [] = triple_pure true
    triple_all_of step (x ∷ xs) =
        triple_bind (step x xs) (elim [ true ↦ triple_all_of step xs | false ↦ triple_pure false ])

    pub triple_any_of :
        ((a : A) (rest : List A) → Triple (I (a ∷ rest)) (f a) (λ b s. pick b (Out s) (I rest s)) R)
        → (xs : List A) → Triple (I xs) (any_of f xs) (λ b s. pick b (Out s) (I [] s)) R
    unfolding any_of
    triple_any_of step [] = triple_pure false
    triple_any_of step (x ∷ xs) =
        triple_bind (step x xs) (elim [ true ↦ triple_pure true | false ↦ triple_any_of step xs ])

  pub triple_first_of :
      (Out : A → S → Type ν)
      → ((a : A) (rest : List A)
          → Triple (I (a ∷ rest)) (f a) (λ b s. pick b (Out a s) (I rest s)) R)
      → (xs : List A) → Triple (I xs) (first_of f xs) (Found (I []) Out) R
  unfolding first_of
  triple_first_of Out step [] = triple_pure none
  triple_first_of Out step (x ∷ xs) =
      triple_bind (step x xs)
        (elim [ true ↦ triple_pure (some x) | false ↦ triple_first_of Out step xs ])
