-- ===== src/Exec.antt =====
-- Methods that change an object and may return an error. What was written before an error stays
-- written, so the state comes back beside the error too.
pub mod Triple
use cgpipe.Prelude.{List, [], ◌∷◌, Bool, true, false, Option, none, some}

pub data Result {ℓ κ} (E : Type ℓ) (A : Type κ) : Type (ℓ ⊔ κ) where
  ok : A → Result E A
  err : E → Result E A

abbrev pub Exec {ℓ κ μ} : Type ℓ → Type κ → Type μ → Type (ℓ ⊔ κ ⊔ μ)
Exec S E A = S → Result E A × S

module _ {ℓ κ μ} {S : Type ℓ} {E : Type κ} {A : Type μ} where
  unfoldable pub pure : A → Exec S E A
  pure a s = (ok a, s)

  unfoldable pub fail : E → Exec S E A
  fail e s = (err e, s)

  unfoldable pub gets : (S → A) → Exec S E A
  gets f s = (ok (f s), s)

  unfoldable pub lift : Result E A → Exec S E A
  lift r s = (r, s)

  -- `defer f()`: `f` runs on the way out, with an error or without
  unfoldable pub finally : (S → S) → Exec S E A → Exec S E A
  finally f m s = let (r, s') = m s in (r, f s')

unfoldable pub modify {ℓ κ} : {S : Type ℓ} {E : Type κ} → (S → S) → Exec S E (Unit {0})
modify f s = (ok tt, f s)

module _ {ℓ κ μ ν} {S : Type ℓ} {E : Type κ} {A : Type μ} {B : Type ν} where
  abbrev pub continue : (A → Exec S E B) → Result E A × S → Result E B × S
  continue f (ok a, s) = f a s
  continue f (err e, s) = (err e, s)

  infixl 5 ◌>>=◌
  unfoldable pub ◌>>=◌ : Exec S E A → (A → Exec S E B) → Exec S E B
  unfolding pure fail gets lift finally modify
  ◌>>=◌ m f s = continue f (m s)

infixl 5 ◌>>◌
abbrev pub ◌>>◌ {ℓ κ ν} :
    {S : Type ℓ} {E : Type κ} {B : Type ν} → Exec S E (Unit {0}) → Exec S E B → Exec S E B
m >> n = m >>= λ _. n

module _ {ℓ κ μ} {S : Type ℓ} {E : Type κ} {A : Type μ} where
  -- A loop that leaves at the first `false`.
  unfoldable pub all_of : (A → Exec S E Bool) → List A → Exec S E Bool
  unfolding ◌>>=◌
  all_of f [] = pure true
  all_of f (a ∷ as') = let rest = all_of f as' in f a >>= elim [ true ↦ rest | false ↦ pure false ]

  -- A loop that leaves at the first `true`.
  unfoldable pub any_of : (A → Exec S E Bool) → List A → Exec S E Bool
  unfolding ◌>>=◌
  any_of f [] = pure false
  any_of f (a ∷ as') = let rest = any_of f as' in f a >>= elim [ true ↦ pure true | false ↦ rest ]

  -- The first item that passes the test.
  unfoldable pub first_of : (A → Exec S E Bool) → List A → Exec S E (Option A)
  unfolding ◌>>=◌
  first_of f [] = pure none
  first_of f (a ∷ as') =
      let rest = first_of f as' in f a >>= elim [ true ↦ pure (some a) | false ↦ rest ]

-- `for _, a := range as { acc, err = f(acc, a) }`
unfoldable pub for_each {ℓ κ μ ν} :
    {S : Type ℓ} {E : Type κ} {A : Type μ} {B : Type ν}
    → (B → A → Exec S E B)
    → List A
    → B
    → Exec S E B
unfolding ◌>>=◌
for_each f [] acc = pure acc
for_each f (a ∷ as') acc = f acc a >>= λ acc'. for_each f as' acc'
