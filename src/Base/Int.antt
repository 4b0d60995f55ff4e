-- ===== src/Base/Int.antt =====
-- The signed integers of the source (i32, i64) as integers over the native numbers: a value of the
-- type is within its range, which the operations that could leave it state where they are used.
use streamline_operator.Base.{
  ℕ, suc, ◌+◌, ◌-◌, ◌*◌, ◌/◌, ◌%◌, leb, Option, none, some, if◌then◌else◌, ◌≤◌, ◌<◌, ◌≡◌, Bool,
  arith, ltb, ◌==◌, ◌↔◌,
}
use mathlib.Core.Bool.{true}
use native.Mathlib.Decide.{ℕ_discrete}

-- `negsuc n` is -(n + 1).
pub data ℤ : Type 0 where
  pos : ℕ → ℤ
  negsuc : ℕ → ℤ

pub ℤ-discrete : Discrete ℤ
ℤ-discrete = hlevel ℕ_discrete

abbrev pub pos_part : ℤ → ℕ
pos_part (pos n) = n
pos_part (negsuc n) = 0

abbrev pub neg_part : ℤ → ℕ
neg_part (pos n) = 0
neg_part (negsuc n) = suc n

infix 50 ◌≤ℤ◌ ◌<ℤ◌
abbrev pub ◌≤ℤ◌ : ℤ → ℤ → Type 0
a ≤ℤ b = pos_part a + neg_part b ≤ pos_part b + neg_part a

abbrev pub ◌<ℤ◌ : ℤ → ℤ → Type 0
a <ℤ b = pos_part a + neg_part b < pos_part b + neg_part a

abbrev pub ltb_ℤ : ℤ → ℤ → Bool
ltb_ℤ a b = ltb (pos_part a + neg_part b) (pos_part b + neg_part a)

abbrev pub eqb_ℤ : ℤ → ℤ → Bool
eqb_ℤ a b = pos_part a + neg_part b == pos_part b + neg_part a

pub eqb_ℤ_iff : (a b : ℤ) → (eqb_ℤ a b ≡ true) ↔ (a ≡ b)
eqb_ℤ_iff a b = ground arith

-- `as i32` on an unsigned number.
unfoldable pub as_i32 : ℕ → ℤ
as_i32 n = let m = n % 0x100000000 in if ltb m 0x80000000 then pos m else negsuc (0xFFFFFFFF - m)

-- `as u64` on a signed number of 64 bits.
abbrev pub as_u64 : ℤ → ℕ
as_u64 (pos n) = n
as_u64 (negsuc n) = 0xFFFFFFFFFFFFFFFF - n

infixl 60 ◌-ℤ◌
-- The difference of two natural numbers.
abbrev pub minus : ℕ → ℕ → ℤ
minus m n = if leb n m then pos (m - n) else negsuc (n - m - 1)

abbrev pub ◌-ℤ◌ : ℤ → ℤ → ℤ
a -ℤ b = minus (pos_part a + neg_part b) (pos_part b + neg_part a)

-- The value with `half` added, modulo twice that: the way to and from a signed machine integer.
abbrev wrapped : ℕ → ℤ → ℤ
wrapped half (pos n) = minus ((n + half) % (2 * half)) half
wrapped half (negsuc n) =
    let m = suc n % (2 * half) in minus ((2 * half - m + half) % (2 * half)) half

-- A result that leaves the range of i64, or of i32, wraps, as a release build does.
abbrev pub as_i64 : ℤ → ℤ
as_i64 a = wrapped 0x8000000000000000 a

abbrev pub wrap_i32 : ℤ → ℤ
wrap_i32 a = wrapped 0x80000000 a

-- `.max(b)` and `.min(b)`
abbrev pub max_ℤ : ℤ → ℤ → ℤ
max_ℤ a b = if ltb_ℤ a b then b else a

abbrev pub min_ℤ : ℤ → ℤ → ℤ
min_ℤ a b = if ltb_ℤ b a then b else a

infixl 70 ◌*ℤ◌
abbrev pub ◌*ℤ◌ : ℤ → ℤ → ℤ
pos m *ℤ pos n = pos (m * n)
pos m *ℤ negsuc n = minus 0 (m * suc n)
negsuc m *ℤ pos n = minus 0 (suc m * n)
negsuc m *ℤ negsuc n = pos (suc m * suc n)

-- `/`, which rounds towards zero.
abbrev pub quot : ℤ → ℤ → ℤ
quot (pos m) (pos n) = pos (m / n)
quot (pos m) (negsuc n) = minus 0 (m / suc n)
quot (negsuc m) (pos n) = minus 0 (suc m / n)
quot (negsuc m) (negsuc n) = pos (suc m / suc n)

-- `/` on i32 and i64 where the dividend is not the least number: a divisor of zero panics, which is
-- `none`.
unfoldable pub divide : ℤ → ℤ → Option ℤ
divide a b = if eqb_ℤ b (pos 0) then none else some (quot a b)
