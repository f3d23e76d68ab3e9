-- ===== src/Base/Bytes.antt =====
-- Byte slices as lists of numbers, and encoding/binary's big-endian integers.
use Prim.Native.Nat.{ℕ, zero, suc, ◌+◌, ◌-◌, ◌*◌, ◌/◌, ◌%◌, ◌≤◌, ◌<◌}
use mathlib.Core.Path.{◌≡◌, refl, ap}
use mathlib.Core.List.{List, [], ◌∷◌, ◌++◌}
use mathlib.Core.Option.{Option, none, some}
use native.Mathlib.Omega.{arith}
use kafscale.Base.Lists.{length, take, drop}

abbrev pub Bytes : Type 0
Bytes = List ℕ

abbrev pub IsByte : ℕ → Type 0
IsByte b = b < 256

abbrev pub All {ℓ κ} : {A : Type ℓ} → (A → Type κ) → List A → Type κ
All P [] = Unit
All P (x ∷ xs) = P x × All P xs

pub All-append_one {ℓ κ} :
    {A : Type ℓ} (P : A → Type κ) (xs : List A) (x : A) → All P xs → P x → All P (xs ++ x ∷ [])
All-append_one P [] x h p = (p, tt)
All-append_one P (y ∷ ys) x h p = (h.0, All-append_one P ys x h.1 p)

-- `binary.BigEndian.PutUint16`, `PutUint32` and `PutUint64`
unfoldable pub be16 : ℕ → Bytes
be16 n = (n / 256 % 256) ∷ (n % 256) ∷ []

unfoldable pub be32 : ℕ → Bytes
be32 n = (n / 16777216 % 256) ∷ (n / 65536 % 256) ∷ (n / 256 % 256) ∷ (n % 256) ∷ []

unfoldable pub be64 : ℕ → Bytes
unfolding be32
be64 n = be32 (n / 4294967296) ++ be32 (n % 4294967296)

from_be : ℕ → Bytes → ℕ
from_be acc [] = acc
from_be acc (b ∷ bs) = from_be (acc * 256 + b) bs

-- The value of the big-endian bytes of a slice.
unfoldable pub uint : Bytes → ℕ
unfolding from_be
uint bs = from_be 0 bs

-- `data[a:b]`, for a ≤ b ≤ len(data)
unfoldable pub slice : ℕ → ℕ → Bytes → Bytes
slice a b bs = take (b - a) (drop a bs)

pub uint-be16 : (n : ℕ) → n < 65536 → uint (be16 n) ≡ n
unfolding uint be16
uint-be16 n h = omega arith

pub uint-be32 : (n : ℕ) → n < 4294967296 → uint (be32 n) ≡ n
unfolding uint be32
uint-be32 n h = omega arith

pub uint-be64 : (n : ℕ) → n < 18446744073709551616 → uint (be64 n) ≡ n
unfolding uint be64
uint-be64 n h = omega arith

pub be32-IsByte : (n : ℕ) → All IsByte (be32 n)
unfolding be32
be32-IsByte n = omega arith

-- A `bytes.Reader`: the next n bytes and what follows them, or an error at the end of the input.
unfoldable pub read : ℕ → Bytes → Option (Bytes × Bytes)
read zero bs = some ([], bs)
read (suc n) [] = none
read (suc n) (b ∷ bs) = elim (read n bs) [ none ↦ none | some (x, rest) ↦ some (b ∷ x, rest) ]

pub read-append : (x rest : Bytes) → read (length x) (x ++ rest) ≡ some (x, rest)
unfolding read
read-append [] rest = refl
read-append (b ∷ x) rest = rw (read-append x rest, read)

pub read-be16 : (n : ℕ) (rest : Bytes) → read 2 (be16 n ++ rest) ≡ some (be16 n, rest)
unfolding read be16
read-be16 n rest = refl

pub read-be32 : (n : ℕ) (rest : Bytes) → read 4 (be32 n ++ rest) ≡ some (be32 n, rest)
unfolding read be32
read-be32 n rest = refl

pub read-be64 : (n : ℕ) (rest : Bytes) → read 8 (be64 n ++ rest) ≡ some (be64 n, rest)
unfolding read be64
read-be64 n rest = refl

pub read_short : (n : ℕ) (bs : Bytes) → length bs < n → read n bs ≡ none
unfolding read
read_short zero bs h = absurd (omega arith)
read_short (suc n) [] h = refl
read_short (suc n) (b ∷ bs) h = rw (read_short n bs (omega arith), read)

pub read_enough :
    (n : ℕ) (bs : Bytes)
    → n ≤ length bs
    → (x : Bytes) × (rest : Bytes) × (read n bs ≡ some (x, rest))
      × (x ++ rest ≡ bs)
      × (length x ≡ n)
      × (length rest + n ≡ length bs)
unfolding read
read_enough zero bs h = ([], bs, refl, refl, refl, omega arith)
read_enough (suc n) [] h = absurd (omega arith)
read_enough (suc n) (b ∷ bs) h =
    let (x, rest, e, a, l, m) = read_enough n bs (omega arith) in
    (b ∷ x, rest, rw (e, read), ap (◌∷◌ b) a, ap suc l, omega arith)
