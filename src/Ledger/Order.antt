-- ===== src/Ledger/Order.antt =====
-- The order `after` of ledger.go on the keys of records.
use cgpipe.Prelude.{
  [], ◌∷◌, true, false, ◌≡◌, ◌⊎◌, inl, inr, refl, list_eq, nat_eq, eq_iff, eq_self, arith,
}
use cgpipe.Text.{Str}
use cgpipe.Ledger.{OrdKey, text_gt, after}

pub text_gt_irrefl : (a : Str) → text_gt a a ≡ false
unfolding text_gt
text_gt_irrefl [] = refl
text_gt_irrefl (x ∷ a) = ground (arith, text_gt_irrefl a)

pub text_gt_trans : (a b c : Str) → text_gt a b ≡ true → text_gt b c ≡ true → text_gt a c ≡ true
unfolding text_gt
text_gt_trans [] b c h k = cc
text_gt_trans (x ∷ a) [] c h k = cc
text_gt_trans (x ∷ a) (y ∷ b) [] h k = refl
text_gt_trans (x ∷ a) (y ∷ b) (z ∷ c) h k = ground (arith, text_gt_trans a b c)

pub text_gt_total : (a b : Str) → (a ≡ b) ⊎ (text_gt a b ≡ true) ⊎ (text_gt b a ≡ true)
unfolding text_gt
text_gt_total [] [] = inl refl
text_gt_total [] (y ∷ b) = inr (inr refl)
text_gt_total (x ∷ a) [] = inr (inl refl)
text_gt_total (x ∷ a) (y ∷ b) = ground (arith, text_gt_total a b)

-- No key is after itself.
pub after_irrefl : (a : OrdKey) → after a a ≡ false
unfolding after
after_irrefl a = ground (arith, eq_self a.host, text_gt_irrefl a.host)

-- A key that is after a key that is after a third is after the third.
pub after_trans : (a b c : OrdKey) → after a b ≡ true → after b c ≡ true → after a c ≡ true
unfolding after
after_trans a b c h k = ground (
  arith,
  eq_iff a.host b.host,
  eq_iff b.host c.host,
  eq_iff a.host c.host,
  text_gt_trans a.host b.host c.host,
  text_gt_trans a.host b.host a.host,
  text_gt_irrefl a.host,
)

-- Of two keys one is after the other, or they are the same.
pub after_total : (a b : OrdKey) → (a ≡ b) ⊎ (after a b ≡ true) ⊎ (after b a ≡ true)
unfolding after
after_total a b =
    ground (arith, eq_iff a.host b.host, eq_iff b.host a.host, text_gt_total a.host b.host)
