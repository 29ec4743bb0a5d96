-- ===== src/Prelude/Int.antt =====
-- Signed integers over the native numbers, under the library's names (its ℤ stands on the unary
-- ℕ), and the arithmetic of Go's int32 and int64, which wraps and divides towards zero.
use k8s_sustain.Prelude.{
  ℕ, suc, ◌+◌, ◌-◌, ◌*◌, ◌/◌, ◌%◌, ◌≤◌, ◌<◌, ◌≡◌, Bool, arith, ltb, leb, if◌then◌else◌,
}

-- `negsuc n` is -(n + 1).
pub data ℤ : Type 0 where
  pos : ℕ → ℤ
  negsuc : ℕ → ℤ

abbrev pub pos_part : ℤ → ℕ
pos_part (pos n) = n
pos_part (negsuc n) = 0

abbrev pub neg_part : ℤ → ℕ
neg_part (pos n) = 0
neg_part (negsuc n) = suc n

-- a - b, as an integer.
abbrev pub sub_ℕ : ℕ → ℕ → ℤ
sub_ℕ a b = if leb b a then pos (a - b) else negsuc (b - a - 1)

infixl 65 ◌+ℤ◌ ◌-ℤ◌
infixl 70 ◌*ℤ◌
unfoldable pub ◌+ℤ◌ : ℤ → ℤ → ℤ
a +ℤ b = sub_ℕ (pos_part a + pos_part b) (neg_part a + neg_part b)

unfoldable pub ◌-ℤ◌ : ℤ → ℤ → ℤ
a -ℤ b = sub_ℕ (pos_part a + neg_part b) (neg_part a + pos_part b)

unfoldable pub ◌*ℤ◌ : ℤ → ℤ → ℤ
a *ℤ b =
    sub_ℕ (pos_part a * pos_part b + neg_part a * neg_part b)
      (pos_part a * neg_part b + neg_part a * pos_part b)

abbrev pub ltb_ℤ : ℤ → ℤ → Bool
ltb_ℤ a b = ltb (pos_part a + neg_part b) (pos_part b + neg_part a)

abbrev pub leb_ℤ : ℤ → ℤ → Bool
leb_ℤ a b = leb (pos_part a + neg_part b) (pos_part b + neg_part a)

abbrev pub max_ℤ : ℤ → ℤ → ℤ
max_ℤ a b = if ltb_ℤ a b then b else a

abbrev pub min_ℤ : ℤ → ℤ → ℤ
min_ℤ a b = if ltb_ℤ b a then b else a

-- The value of width w that a is congruent to, for the modulus m = 2 ^ w and its half h.
abbrev wrap : (m h : ℕ) → ℤ → ℤ
wrap m h (pos n) = if ltb (n % m) h then pos (n % m) else negsuc (m - n % m - 1)
wrap m h (negsuc n) = if ltb (n % m) h then negsuc (n % m) else pos (m - n % m - 1)

unfoldable pub int64 : ℤ → ℤ
int64 = wrap 0x10000000000000000 0x8000000000000000

unfoldable pub int32 : ℤ → ℤ
int32 = wrap 0x100000000 0x80000000

-- Go's `/` truncates towards zero.
unfoldable pub quot : ℤ → ℕ → ℤ
quot (pos n) d = pos (n / d)
quot (negsuc n) d = sub_ℕ 0 (suc n / d)

abbrev pub max_int64 : ℕ
max_int64 = 0x7fffffffffffffff

-- Nothing wraps that fits.
pub int64_small : (n : ℕ) → n ≤ max_int64 → int64 (pos n) ≡ pos n
unfolding int64
int64_small n h = ground arith

pub int32_small : (n : ℕ) → n < 0x80000000 → int32 (pos n) ≡ pos n
unfolding int32
int32_small n h = ground arith
