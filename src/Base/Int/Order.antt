-- ===== src/Base/Int/Order.antt =====
-- The order of the signed integers, as the operators of src/meta/zp_meta_node_offset.h use it.
use zeppelin.Base.{◌≡◌, refl, ap, true, false, arith}
use zeppelin.Base.Int.{ℤ, pos, negsuc, int_eq, int_lt, int_ge}

pub int_eq_refl : (a : ℤ) → int_eq a a ≡ true
int_eq_refl (pos n) = ground arith
int_eq_refl (negsuc n) = ground arith

pub int_eq→≡ : (a b : ℤ) → int_eq a b ≡ true → a ≡ b
int_eq→≡ (pos n) (pos m) h = ap pos (ground (arith, h))
int_eq→≡ (pos n) (negsuc m) h = absurd (ground (arith, h))
int_eq→≡ (negsuc n) (pos m) h = absurd (ground (arith, h))
int_eq→≡ (negsuc n) (negsuc m) h = ap negsuc (ground (arith, h))

pub int_ge_refl : (a : ℤ) → int_ge a a ≡ true
int_ge_refl (pos n) = ground arith
int_ge_refl (negsuc n) = ground arith

pub int_ge_trans : (a b c : ℤ) → int_ge a b ≡ true → int_ge b c ≡ true → int_ge a c ≡ true
int_ge_trans (pos a) (pos b) (pos c) h k = ground arith
int_ge_trans (pos a) (pos b) (negsuc c) h k = refl
int_ge_trans (pos a) (negsuc b) (pos c) h k = absurd (ground (arith, k))
int_ge_trans (pos a) (negsuc b) (negsuc c) h k = refl
int_ge_trans (negsuc a) (pos b) c h k = absurd (ground (arith, h))
int_ge_trans (negsuc a) (negsuc b) (pos c) h k = absurd (ground (arith, k))
int_ge_trans (negsuc a) (negsuc b) (negsuc c) h k = ground arith

pub int_ge_total : (a b : ℤ) → int_ge a b ≡ false → int_ge b a ≡ true
int_ge_total (pos a) (pos b) h = ground arith
int_ge_total (pos a) (negsuc b) h = absurd (ground (arith, h))
int_ge_total (negsuc a) (pos b) h = refl
int_ge_total (negsuc a) (negsuc b) h = ground arith

pub int_lt_trans : (a b c : ℤ) → int_lt a b ≡ true → int_lt b c ≡ true → int_lt a c ≡ true
int_lt_trans (pos a) (pos b) (pos c) h k = ground arith
int_lt_trans (pos a) (pos b) (negsuc c) h k = absurd (ground (arith, k))
int_lt_trans (pos a) (negsuc b) c h k = absurd (ground (arith, h))
int_lt_trans (negsuc a) (pos b) (pos c) h k = refl
int_lt_trans (negsuc a) (pos b) (negsuc c) h k = absurd (ground (arith, k))
int_lt_trans (negsuc a) (negsuc b) (pos c) h k = refl
int_lt_trans (negsuc a) (negsuc b) (negsuc c) h k = ground arith

pub int_lt_total : (a b : ℤ) → int_eq a b ≡ false → int_lt b a ≡ false → int_lt a b ≡ true
int_lt_total (pos a) (pos b) h k = ground arith
int_lt_total (pos a) (negsuc b) h k = absurd (ground (arith, k))
int_lt_total (negsuc a) (pos b) h k = refl
int_lt_total (negsuc a) (negsuc b) h k = ground arith
