-- ===== src/Prelude/Assoc.antt =====
-- Go's `map` as an association list: one entry for each key, in the order of the first insertion.
use mathlib.Core.List.{Memᴰ}
use mathlib.Core.Path.{ap₂}
use cgpipe.Prelude.{
  ◌≡◌, refl, Bool, false, Option, none, some, List, [], ◌∷◌, arith, if◌then◌else◌, Eq, ◌==◌, eq_iff,
  eq_self, ◌⊎◌, Bool-cases, sym, inl, inr,
}

module _ {ℓ κ} {K : Type ℓ} {V : Type κ} ⦃e : Eq K⦄ where
  -- m[k]
  unfoldable pub lookup : K → List (K × V) → Option V
  lookup key [] = none
  lookup key ((other, there) ∷ rest) = if other == key then some there else lookup key rest

  -- m[k] = v
  unfoldable pub insert : K → V → List (K × V) → List (K × V)
  insert key new [] = (key, new) ∷ []
  insert key new ((other, there) ∷ rest) =
      if other == key then (key, new) ∷ rest else (other, there) ∷ insert key new rest

  -- delete(m, k)
  unfoldable pub remove : K → List (K × V) → List (K × V)
  remove k [] = []
  remove k ((j, w) ∷ m) = let rest = remove k m in if j == k then rest else (j, w) ∷ rest

  pub lookup-insert :
      (key asked : K) (new : V) (m : List (K × V))
      → lookup asked (insert key new m) ≡ (if key == asked then some new else lookup asked m)
  unfolding lookup insert
  lookup-insert key asked new [] = refl
  lookup-insert key asked new ((other, there) ∷ rest) = ground (
    arith,
    lookup-insert key asked new rest,
    eq_iff other key,
    eq_iff other asked,
    eq_iff key asked,
  )

  pub lookup-remove :
      (k j : K) (m : List (K × V)) → lookup j (remove k m) ≡ (if k == j then none else lookup j m)
  unfolding lookup remove
  lookup-remove k j [] = ground arith
  lookup-remove k j ((i, w) ∷ m) =
      ground (arith, eq_iff k j, eq_iff i k, eq_iff i j, lookup-remove k j m)

-- Where an entry of `insert k v m` comes from.
pub insert_cases {ℓ κ} :
    {K : Type ℓ} {V : Type κ} ⦃e : Eq K⦄ (k j : K) (v w : V) (m : List (K × V))
    → lookup j (insert k v m) ≡ some w
    → ((k ≡ j) × (v ≡ w)) ⊎ (lookup j m ≡ some w)
insert_cases k j v w m h = ground (arith, eq_iff k j, lookup-insert k j v m)

pub lookup-insert_self {ℓ κ} :
    {K : Type ℓ} {V : Type κ} ⦃e : Eq K⦄ (k : K) (v : V) (m : List (K × V))
    → lookup k (insert k v m) ≡ some v
lookup-insert_self k v m = simp (lookup-insert, eq_self)

pub lookup_mem {ℓ κ} :
    {K : Type ℓ} {V : Type κ} ⦃e : Eq K⦄ (k : K) (v : V) (m : List (K × V))
    → lookup k m ≡ some v
    → Memᴰ (k, v) m
unfolding lookup
lookup_mem k v [] h = cc
lookup_mem k v ((j, w) ∷ m) h = elim (Bool-cases (j == k)) [
  | inl same ↦
      let value : w ≡ v = ground arith in
      Memᴰ.head (ap₂ (λ a b. (a, b)) (sym ((eq_iff j k).0 same)) (sym value))
  | inr other ↦ Memᴰ.tail (lookup_mem k v m (ground arith))
]

pub lookup-nil {ℓ κ} : {K : Type ℓ} {V : Type κ} ⦃e : Eq K⦄ (k : K) → lookup {V = V} k [] ≡ none
unfolding lookup
lookup-nil k = refl

-- A flag read from a Go `map[K]bool`: false where the key is missing.
abbrev pub set_to : Option Bool → Bool
set_to none = false
set_to (some b) = b

abbrev pub flag {ℓ} : {K : Type ℓ} ⦃e : Eq K⦄ → K → List (K × Bool) → Bool
flag k m = set_to (lookup k m)

pub ruleset map_laws = (lookup-insert, lookup-remove, lookup-nil)

module _ {ℓ} {K : Type ℓ} ⦃e : Eq K⦄ where
  pub flag-insert :
      (k j : K) (b : Bool) (m : List (K × Bool))
      → flag j (insert k b m) ≡ (if k == j then b else flag j m)
  flag-insert k j b m = ground (arith, lookup-insert k j b m)

  pub flag-remove :
      (k j : K) (m : List (K × Bool)) → flag j (remove k m) ≡ (if k == j then false else flag j m)
  flag-remove k j m = ground (arith, lookup-remove k j m)
