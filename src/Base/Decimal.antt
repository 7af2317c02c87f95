-- ===== src/Base/Decimal.antt =====
-- Unsigned 64-bit numbers in decimal, as Go's `fmt` prints them (`%d`) and `strconv.ParseUint` reads
-- them in base 10.
use Prim.Native.Nat.{ℕ, zero, suc, ◌+◌, ◌-◌, ◌*◌, ◌/◌, ◌%◌, ◌≤◌, ◌<◌}
use mathlib.Core.Path.{◌≡◌, refl}
use mathlib.Core.Logic.{inl, inr}
use mathlib.Core.Bool.{◌||◌}
use mathlib.Core.List.{List, [], ◌∷◌}
use mathlib.Core.Option.{Option, none, some}
use native.Mathlib.Omega.{arith}
use functions_invoker.Base.Tests.{ltb, leb, if◌then◌else◌, Bool-cases}
use functions_invoker.Base.Lists.{All}
use functions_invoker.Base.Words.{u64_mod}

-- The digits of a number, in front of `out`, with that many divisions by ten at most.
unfoldable pub digits : (rounds n : ℕ) → List ℕ → List ℕ
digits zero n out = (b'0' + n) ∷ out
digits (suc rounds) n out =
    let more = digits rounds (n / 10) ((b'0' + n % 10) ∷ out) in
    if ltb n 10 then (b'0' + n) ∷ out else more

-- A number below 2^64 has at most 20 digits.
unfoldable pub decimal : ℕ → List ℕ
unfolding digits
decimal n = digits 19 n []

-- From this number on, ten times it is above 2^64 - 1.
abbrev pub cutoff : ℕ
cutoff = 1844674407370955162

unfoldable pub scan_digits : List ℕ → ℕ → Option ℕ
scan_digits [] n = some n
scan_digits (c ∷ s) n =
    let shifted = n * 10 in
    let next = (shifted + (c - b'0')) % u64_mod in
    let rest = scan_digits s next in
    if ltb c b'0' || ltb b'9' c
    then none
    else if leb cutoff n
    then none
    else if ltb next shifted
    then none
    else rest

unfoldable pub parse_uint : List ℕ → Option ℕ
unfolding scan_digits
parse_uint [] = none
parse_uint (c ∷ s) = scan_digits (c ∷ s) 0

abbrev pub IsDigit : ℕ → Type 0
IsDigit c = (b'0' ≤ c) × (c ≤ b'9')

-- Ten to a power.
abbrev power : ℕ → ℕ
power zero = 1
power (suc n) = 10 * power n

scan_last :
    (n : ℕ) (out : List ℕ)
    → n < u64_mod
    → scan_digits ((b'0' + n % 10) ∷ out) (n / 10) ≡ scan_digits out n
unfolding scan_digits
scan_last n out h = ground arith

scan_first : (n : ℕ) (out : List ℕ) → n < 10 → scan_digits ((b'0' + n) ∷ out) 0 ≡ scan_digits out n
unfolding scan_digits
scan_first n out h = ground arith

-- Reading the digits of a number leaves that number.
scan_digits-digits :
    (rounds n : ℕ) (out : List ℕ)
    → n < power (suc rounds)
    → n < u64_mod
    → scan_digits (digits rounds n out) 0 ≡ scan_digits out n
unfolding digits
scan_digits-digits zero n out fits h = scan_first n out (omega arith)
scan_digits-digits (suc rounds) n out fits h = elim (Bool-cases (ltb n 10)) [
  | inl y ↦ rw y (scan_first n out (ground arith))
  | inr large ↦
      rw
        (
          large,
          scan_digits-digits rounds (n / 10) ((b'0' + n % 10) ∷ out) (omega arith) (omega arith),
        )
        (scan_last n out h)
]

digits-All :
    (rounds n : ℕ) (out : List ℕ)
    → n < power (suc rounds)
    → All IsDigit out
    → All IsDigit (digits rounds n out)
unfolding digits
digits-All zero n out fits all = (omega arith, all)
digits-All (suc rounds) n out fits all = elim (Bool-cases (ltb n 10)) [
  | inl y ↦ rw y (ground arith, all)
  | inr large ↦
      rw large (digits-All rounds (n / 10) ((b'0' + n % 10) ∷ out) (omega arith) (omega arith, all))
]

digits-cons : (rounds n : ℕ) (out : List ℕ) → (c : ℕ) × (s : List ℕ) × (digits rounds n out ≡ c ∷ s)
unfolding digits
digits-cons zero n out = (b'0' + n, out, refl)
digits-cons (suc rounds) n out = elim (Bool-cases (ltb n 10)) [
  | inl y ↦ rw y (b'0' + n, out, refl)
  | inr large ↦ rw large (digits-cons rounds (n / 10) ((b'0' + n % 10) ∷ out))
]

pub decimal-All : (n : ℕ) → n < u64_mod → All IsDigit (decimal n)
unfolding decimal
decimal-All n h = digits-All 19 n [] (omega arith) tt

pub decimal-cons : (n : ℕ) → (c : ℕ) × (s : List ℕ) × (decimal n ≡ c ∷ s)
unfolding decimal
decimal-cons n = digits-cons 19 n []

-- Every unsigned 64-bit number is read back from its decimal print.
pub parse_uint-decimal : (n : ℕ) → n < u64_mod → parse_uint (decimal n) ≡ some n
unfolding parse_uint decimal
parse_uint-decimal n h =
    let (c, s, e) = digits-cons 19 n [] in
    let back : scan_digits (digits 19 n []) 0 ≡ scan_digits [] n =
      scan_digits-digits 19 n [] (omega arith) h in
    rw e (unfold scan_digits in rw e at back)
