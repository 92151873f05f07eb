-- ===== src/Command/Args/Walk.antt =====
-- What reading the value of a flag does to the cursor.
use cgpipe.Prelude.{
  suc, List, [], ◌∷◌, ◌++◌, true, false, none, some, ◌≡◌, inl, inr, refl, arith, Bool-cases, ltb,
  length, drop, length-append, lt→ltb, ltb→lt,
}
use cgpipe.Text.{Str}
use cgpipe.Command.Args.{first, cur, value}

first-drop :
    (front : List Str) (x : Str) (rest : List Str)
    → first (drop (length front) (front ++ (x ∷ rest))) ≡ some x
first-drop [] x rest = refl
first-drop (y ∷ front) x rest = first-drop front x rest

drop_flag :
    (front : List Str) (name v : Str) (rest : List Str)
    → first (drop (suc (length front)) (front ++ (name ∷ v ∷ rest))) ≡ some v
drop_flag [] name v rest = refl
drop_flag (y ∷ front) name v rest = drop_flag front name v rest

value_there :
    (front : List Str) (name v : Str) (rest : List Str)
    → ltb (suc (length front)) (length (front ++ (name ∷ v ∷ rest))) ≡ true
value_there front name v rest = lt→ltb _ _ (omega (arith, length-append front (name ∷ v ∷ rest)))

value_missing :
    (front : List Str) (name : Str)
    → ltb (suc (length front)) (length (front ++ (name ∷ []))) ≡ false
value_missing front name =
    elim (Bool-cases (ltb (suc (length front)) (length (front ++ (name ∷ []))))) [
      | inl e ↦ absurd (omega (arith, ltb→lt _ _ e, length-append front (name ∷ [])))
      | inr e ↦ e
    ]

-- At a flag, `value` returns what follows it and stands behind both, and `cur` reads the flag; at a
-- flag that is the last token, `value` returns nothing and the cursor stays.
pub value_lem :
    (front rest : List Str) (name v : Str)
    → (cur (record { args = front ++ (name ∷ v ∷ rest); i = length front }) ≡ some name)
      × (value (record { args = front ++ (name ∷ v ∷ rest); i = length front })
          ≡ (some v, record { args = front ++ (name ∷ v ∷ rest); i = suc (suc (length front)) }))
      × (value (record { args = front ++ (name ∷ []); i = length front })
          ≡ (none, record { args = front ++ (name ∷ []); i = length front }))
unfolding cur value
value_lem front rest name v = (
  first-drop front name (v ∷ rest),
  rw (value_there front name v rest, drop_flag front name v rest) refl,
  rw (value_missing front name) refl,
)
