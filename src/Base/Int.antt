-- ===== src/Base/Int.antt =====
-- Signed integers over the native numbers, under the library's names (its ℤ stands on the unary ℕ).
-- Sums and orders go through the two parts of an integer, which are numbers that `omega` reads.
use Prim.Native.Nat.{ℕ, suc, ◌+◌, ◌-◌, ◌*◌, ◌%◌, ◌≤◌, ◌<◌}
use mathlib.Core.Path.{◌≡◌}
use mathlib.Core.Logic.{◌⊎◌, ◌↔◌}
use mathlib.Core.Bool.{Bool, true}
use native.Mathlib.Omega.{arith}
use kafscale.Base.Tests.{ltb, leb, ◌==◌ as nat_eq, if◌then◌else◌}
use kafscale.Base.Maps.{Key}

-- `negsuc n` is -(n + 1).
pub data ℤ : Type 0 where
  pos : ℕ → ℤ
  negsuc : ℕ → ℤ

abbrev pub pos_part : ℤ → ℕ
pos_part (pos n) = n
pos_part (negsuc n) = 0

abbrev pub neg_part : ℤ → ℕ
neg_part (pos n) = 0
neg_part (negsuc n) = suc n

-- a - b, as an integer.
abbrev pub sub_ℕ : ℕ → ℕ → ℤ
sub_ℕ a b = if leb b a then pos (a - b) else negsuc (b - a - 1)

infixl 65 ◌+ℤ◌ ◌-ℤ◌
infixl 70 ◌*ℤ◌
infix 50 ◌≤ℤ◌ ◌<ℤ◌
unfoldable pub ◌+ℤ◌ : ℤ → ℤ → ℤ
a +ℤ b = sub_ℕ (pos_part a + pos_part b) (neg_part a + neg_part b)

unfoldable pub ◌-ℤ◌ : ℤ → ℤ → ℤ
a -ℤ b = sub_ℕ (pos_part a + neg_part b) (neg_part a + pos_part b)

unfoldable pub ◌*ℤ◌ : ℤ → ℤ → ℤ
a *ℤ b =
    sub_ℕ (pos_part a * pos_part b + neg_part a * neg_part b)
      (pos_part a * neg_part b + neg_part a * pos_part b)

abbrev pub ◌≤ℤ◌ : ℤ → ℤ → Type 0
a ≤ℤ b = pos_part a + neg_part b ≤ pos_part b + neg_part a

abbrev pub ◌<ℤ◌ : ℤ → ℤ → Type 0
a <ℤ b = pos_part a + neg_part b < pos_part b + neg_part a

abbrev pub leb_ℤ : ℤ → ℤ → Bool
leb_ℤ a b = leb (pos_part a + neg_part b) (pos_part b + neg_part a)

abbrev pub ltb_ℤ : ℤ → ℤ → Bool
ltb_ℤ a b = ltb (pos_part a + neg_part b) (pos_part b + neg_part a)

-- With the operations unfolded `ground` splits on the signs.
pub +ℤ_comm : (a b : ℤ) → a +ℤ b ≡ b +ℤ a
unfolding ◌+ℤ◌
+ℤ_comm a b = ground arith

pub +ℤ_assoc : (a b c : ℤ) → a +ℤ b +ℤ c ≡ a +ℤ (b +ℤ c)
unfolding ◌+ℤ◌
+ℤ_assoc a b c = ground arith

pub +ℤ_cancel : (a b : ℤ) → a +ℤ b -ℤ b ≡ a
unfolding ◌+ℤ◌ ◌-ℤ◌
+ℤ_cancel a b = ground arith

pub ≤ℤ_total : (a b : ℤ) → (a ≤ℤ b) ⊎ (b ≤ℤ a)
≤ℤ_total a b = omega arith

-- One lemma for each operation lets `omega` work with the operations shut, at any depth.
pub +ℤ_parts :
    (a b : ℤ)
    → pos_part (a +ℤ b) + neg_part a + neg_part b ≡ neg_part (a +ℤ b) + pos_part a + pos_part b
unfolding ◌+ℤ◌
+ℤ_parts a b = ground arith

pub -ℤ_parts :
    (a b : ℤ)
    → pos_part (a -ℤ b) + neg_part a + pos_part b ≡ neg_part (a -ℤ b) + pos_part a + neg_part b
unfolding ◌-ℤ◌
-ℤ_parts a b = ground arith

pub eq_of_parts : (a b : ℤ) → pos_part a + neg_part b ≡ pos_part b + neg_part a → a ≡ b
eq_of_parts a b h = ground arith

pub ruleset int_laws = (arith, +ℤ_parts, -ℤ_parts, eq_of_parts)

pub +ℤ_mono : (a b c d : ℤ) → a ≤ℤ b → c ≤ℤ d → a +ℤ c ≤ℤ b +ℤ d
+ℤ_mono a b c d h k = omega int_laws

abbrev pub eqb_ℤ : ℤ → ℤ → Bool
eqb_ℤ a b = nat_eq (pos_part a + neg_part b) (pos_part b + neg_part a)

pub eqb_ℤ_iff : (a b : ℤ) → (eqb_ℤ a b ≡ true) ↔ (a ≡ b)
eqb_ℤ_iff a b = (λ h. ground arith, λ h. ground arith)

instance abbrev pub ℤ_Key : Key ℤ
ℤ_Key = record { same = eqb_ℤ; same_iff = eqb_ℤ_iff }

-- The two's complement pattern of an int32 or int64, and the integer that a pattern stands for.
abbrev pub u32_mod : ℕ
u32_mod = 4294967296

abbrev pub u64_mod : ℕ
u64_mod = 18446744073709551616

unfoldable pub bits32 : ℤ → ℕ
bits32 (pos n) = n % u32_mod
bits32 (negsuc n) = u32_mod - 1 - n % u32_mod

unfoldable pub bits64 : ℤ → ℕ
bits64 (pos n) = n % u64_mod
bits64 (negsuc n) = u64_mod - 1 - n % u64_mod

unfoldable pub signed32 : ℕ → ℤ
signed32 w = if ltb w 2147483648 then pos w else negsuc (u32_mod - 1 - w)

unfoldable pub signed64 : ℕ → ℤ
signed64 w = if ltb w 9223372036854775808 then pos w else negsuc (u64_mod - 1 - w)

-- The ranges of int32 and int64.
abbrev pub IsI32 : ℤ → Type 0
IsI32 a = (pos_part a < 2147483648) × (neg_part a ≤ 2147483648)

abbrev pub IsI64 : ℤ → Type 0
IsI64 a = (pos_part a < 9223372036854775808) × (neg_part a ≤ 9223372036854775808)

-- The result of an int64 or int32 operation whose exact value is the argument.
unfoldable pub wrap64 : ℤ → ℤ
unfolding bits64 signed64
wrap64 a = signed64 (bits64 a)

unfoldable pub wrap32 : ℤ → ℤ
unfolding bits32 signed32
wrap32 a = signed32 (bits32 a)

pub wrap64-id : (a : ℤ) → IsI64 a → wrap64 a ≡ a
unfolding wrap64
wrap64-id (pos n) h = ground arith
wrap64-id (negsuc n) h = ground arith

pub wrap32-id : (a : ℤ) → IsI32 a → wrap32 a ≡ a
unfolding wrap32
wrap32-id (pos n) h = ground arith
wrap32-id (negsuc n) h = ground arith

pub bits32-lt : (a : ℤ) → bits32 a < u32_mod
unfolding bits32
bits32-lt (pos n) = omega arith
bits32-lt (negsuc n) = omega arith

pub bits64-lt : (a : ℤ) → bits64 a < u64_mod
unfolding bits64
bits64-lt (pos n) = omega arith
bits64-lt (negsuc n) = omega arith

pub signed32-IsI32 : (w : ℕ) → w < u32_mod → IsI32 (signed32 w)
unfolding signed32
signed32-IsI32 w h = ground arith

pub signed64-IsI64 : (w : ℕ) → w < u64_mod → IsI64 (signed64 w)
unfolding signed64
signed64-IsI64 w h = ground arith

pub wrap64-IsI64 : (a : ℤ) → IsI64 (wrap64 a)
unfolding wrap64
wrap64-IsI64 a = signed64-IsI64 (bits64 a) (bits64-lt a)

pub wrap32-IsI32 : (a : ℤ) → IsI32 (wrap32 a)
unfolding wrap32
wrap32-IsI32 a = signed32-IsI32 (bits32 a) (bits32-lt a)

pub signed64-bits64 : (a : ℤ) → IsI64 a → signed64 (bits64 a) ≡ a
unfolding wrap64
signed64-bits64 a h = wrap64-id a h

pub signed32-bits32 : (a : ℤ) → IsI32 a → signed32 (bits32 a) ≡ a
unfolding wrap32
signed32-bits32 a h = wrap32-id a h

pub wrap64_pos : (n : ℕ) → n < 9223372036854775808 → wrap64 (pos n) ≡ pos n
wrap64_pos n h = wrap64-id (pos n) (h, omega arith)

pub -ℤ_pos : (a b : ℕ) → b ≤ a → pos a -ℤ pos b ≡ pos (a - b)
unfolding ◌-ℤ◌
-ℤ_pos a b h = ground arith

pub +ℤ_pos : (a b : ℕ) → pos a +ℤ pos b ≡ pos (a + b)
unfolding ◌+ℤ◌
+ℤ_pos a b = ground arith
