-- ===== src/Base/Decimal.antt =====
-- Decimal numbers as `fmt.Sprintf` writes them and `strconv.ParseInt` reads them.
use Prim.Native.Nat.{◌-◌, ◌*◌, ◌≤◌, ◌<◌}
use mathlib.Core.Path.{◌≡◌, refl, ap, ◌∙◌}
use mathlib.Core.Bool.{true, false, ◌&&◌}
use mathlib.Core.Option.{Option, none, some}
use mathlib.Core.List.{append_assoc, append-nil}
use native.Mathlib.Omega.{arith}
use kafscale.Base.Tests.{ltb, leb}
use Prim.Native.Nat.{ℕ, zero, suc, ◌+◌, ◌/◌, ◌%◌}
use mathlib.Core.List.{[], ◌∷◌, ◌++◌}
use kafscale.Base.Tests.{if◌then◌else◌, ◌==◌}
use kafscale.Base.Maps.{Str}
use kafscale.Base.Bytes.{All, All-append_one}
use kafscale.Base.Int.{ℤ, pos, negsuc}

-- The last k digits, leading zeros included: `%0kd` of a number below 10 ^ k.
unfoldable pub padded : ℕ → ℕ → Str
padded zero n = []
padded (suc k) n = padded k (n / 10) ++ (48 + n % 10) ∷ []

strip_zeros : Str → Str
strip_zeros [] = []
strip_zeros (d ∷ []) = d ∷ []
strip_zeros (d ∷ e ∷ ds) = if d == 48 then strip_zeros (e ∷ ds) else d ∷ e ∷ ds

-- `%d` of an int64, which has 19 digits at most.
unfoldable pub decimal : ℤ → Str
unfolding padded strip_zeros
decimal (pos n) = strip_zeros (padded 19 n)
decimal (negsuc n) = 45 ∷ strip_zeros (padded 19 (suc n))

-- `%020d`: the sign counts as one of the 20 places.
unfoldable pub decimal20 : ℤ → Str
unfolding padded
decimal20 (pos n) = padded 20 n
decimal20 (negsuc n) = 45 ∷ padded 19 (suc n)

unfoldable pub parse_digits : ℕ → Str → Option ℕ
parse_digits n [] = some n
parse_digits n (d ∷ ds) =
    let more = parse_digits (10 * n + (d - 48)) ds in if leb 48 d && leb d 57 then more else none

-- At least one digit, and a value within the limit.
unfoldable pub parse_magnitude : ℕ → Str → Option ℕ
parse_magnitude limit [] = none
parse_magnitude limit (d ∷ ds) = elim (parse_digits 0 (d ∷ ds)) [
  | none ↦ none
  | some n ↦ if ltb limit n then none else some n
]

-- `strconv.ParseInt(s, 10, 64)`, an error being `none`.
unfoldable pub parse_int64 : Str → Option ℤ
parse_int64 [] = none
parse_int64 (c ∷ cs) =
    let positive : Option ℤ = elim (parse_magnitude 9223372036854775807 cs) [
      | none ↦ none
      | some n ↦ some (pos n)
    ] in
    let negative : Option ℤ = elim (parse_magnitude 9223372036854775808 cs) [
      | none ↦ none
      | some zero ↦ some (pos 0)
      | some (suc n) ↦ some (negsuc n)
    ] in
    let unsigned : Option ℤ = elim (parse_magnitude 9223372036854775807 (c ∷ cs)) [
      | none ↦ none
      | some n ↦ some (pos n)
    ] in
    if c == 43 then positive else (if c == 45 then negative else unsigned)

abbrev pub power10 : ℕ → ℕ
power10 zero = 1
power10 (suc k) = 10 * power10 k

digit_range : (n : ℕ) → leb 48 (48 + n % 10) && leb (48 + n % 10) 57 ≡ true
digit_range n = ground arith

digits_back : (n : ℕ) → 10 * (n / 10) + (48 + n % 10 - 48) ≡ n
digits_back n = omega arith

parse_digits-padded :
    (k n : ℕ) (rest : Str)
    → n < power10 k
    → parse_digits 0 (padded k n ++ rest) ≡ parse_digits n rest
unfolding parse_digits padded
parse_digits-padded zero n rest h = ap (λ m. parse_digits m rest) (omega arith)
parse_digits-padded (suc k) n rest h =
    rw
      (
        append_assoc (padded k (n / 10)) ((48 + n % 10) ∷ []) rest,
        parse_digits-padded k (n / 10) ((48 + n % 10) ∷ rest) (omega arith),
      )
      (ground (arith, digit_range n, digits_back n))

padded_head : (k n : ℕ) → (d : ℕ) × (ds : Str) × (padded (suc k) n ≡ d ∷ ds) × (48 ≤ d)
unfolding padded
padded_head zero n = (48 + n % 10, [], refl, omega arith)
padded_head (suc k) n =
    let (d, ds, e, le) = padded_head k (n / 10) in
    (d, ds ++ (48 + n % 10) ∷ [], ap (λ xs. xs ++ (48 + n % 10) ∷ []) e, le)

parse_int64-digits :
    (n d : ℕ) (ds : Str)
    → 48 ≤ d
    → parse_digits 0 (d ∷ ds) ≡ some n
    → n < 9223372036854775808
    → parse_int64 (d ∷ ds) ≡ some (pos n)
unfolding parse_int64 parse_magnitude
parse_int64-digits n d ds le e h = rw e (ground arith)

parse_digits-nil : (n : ℕ) → parse_digits n [] ≡ some n
unfolding parse_digits
parse_digits-nil n = refl

-- An offset written with 20 digits is read back.
pub parse_int64-decimal20 :
    (n : ℕ) → n < 9223372036854775808 → parse_int64 (decimal20 (pos n)) ≡ some (pos n)
unfolding decimal20
parse_int64-decimal20 n h =
    let (d, ds, e, le) = padded_head 19 n in
    rw e (
      parse_int64-digits n d ds le
        (rw (← e, ← append-nil (padded 20 n))
          (parse_digits-padded 20 n [] (omega arith) ∙ parse_digits-nil n))
        h)

abbrev pub NotSlash : ℕ → Type 0
NotSlash c = (c == 47) ≡ false

padded-NotSlash : (k n : ℕ) → All NotSlash (padded k n)
unfolding padded
padded-NotSlash zero n = tt
padded-NotSlash (suc k) n =
    All-append_one NotSlash (padded k (n / 10)) (48 + n % 10) (padded-NotSlash k (n / 10))
      (ground arith)

pub decimal20-NotSlash : (n : ℕ) → All NotSlash (decimal20 (pos n))
unfolding decimal20
decimal20-NotSlash n = padded-NotSlash 20 n
