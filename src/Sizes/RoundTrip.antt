-- ===== src/Sizes/RoundTrip.antt =====
-- Sizes are read back from their print (pkg/units/units.go).
use functions_invoker.Base.{
  codes_eq, ap, ◌∙◌, ℕ, ◌*◌, ◌/◌, ◌%◌, ◌<◌, ◌≡◌, refl, true, false, [], ◌∷◌, ◌++◌, some, codes, All,
  arith, u64_mod, decimal, parse_uint, IsDigit, decimal-All, decimal-cons, parse_uint-decimal,
  Bool-cases, inl, inr, ◌==◌, map,
}
use functions_invoker.Entities.{Text}
use functions_invoker.Sizes.{
  Unicode, is_letter, is_space, to_upper, cut_at_letter, trim_left, trim_right, trim_space, unit_of,
  scale, parse_cut, parse_byte_size, print_byte_size, size, cons_unless, kilobyte, megabyte,
  gigabyte,
}

module _ (u : Unicode) where
  -- A digit is no letter and no space.
  digit_plain : (c : ℕ) → IsDigit c → (is_letter u c ≡ false) × (is_space u c ≡ false)
  unfolding is_letter is_space
  digit_plain c (low, high) = ground arith

  -- The text is cut behind the digits and the space.
  cut-digits :
      (ds unit : Text) (c : ℕ)
      → All IsDigit ds
      → is_letter u c ≡ true
      → cut_at_letter u (ds ++ 32 ∷ c ∷ unit) ≡ some (ds ++ 32 ∷ [], c ∷ unit)
  unfolding cut_at_letter
  cut-digits [] unit c all h = rw h (unfold is_letter in refl)
  cut-digits (d ∷ ds) unit c (here, all) h =
      rw ((digit_plain d here).0, cut-digits ds unit c all h) refl

  trim_right-digits : (ds : Text) → All IsDigit ds → trim_right u (ds ++ 32 ∷ []) ≡ ds
  unfolding trim_right
  trim_right-digits [] all = unfold is_space in refl
  trim_right-digits (d ∷ ds) (here, all) =
      rw (trim_right-digits ds all, (digit_plain d here).1) (kept ds)
    where
      kept : (ds : Text) → cons_unless false d ds ≡ d ∷ ds
      kept [] = refl
      kept (x ∷ xs) = refl

  trim_space-digits :
      (d : ℕ) (ds : Text) → All IsDigit (d ∷ ds) → trim_space u ((d ∷ ds) ++ 32 ∷ []) ≡ d ∷ ds
  unfolding trim_left
  trim_space-digits d ds all = rw (digit_plain d all.0).1 (trim_right-digits (d ∷ ds) all)

  -- A printed number with a unit behind it is read as that many times the unit.
  parse-unit :
      (n : ℕ) (c : ℕ) (unit : Text) (bytes : ℕ)
      → n < u64_mod
      → is_letter u c ≡ true
      → trim_space u (c ∷ unit) ≡ c ∷ unit
      → unit_of (map (to_upper u) (c ∷ unit)) ≡ some bytes
      → parse_byte_size u (decimal n ++ 32 ∷ c ∷ unit) ≡ size ((n * bytes) % u64_mod)
  unfolding parse_byte_size parse_cut scale
  parse-unit n c unit bytes fits letter trimmed known =
      let (d, ds, e) = decimal-cons n in
      let all : All IsDigit (d ∷ ds) = rw e at (decimal-All n fits) in
      let back : parse_uint (d ∷ ds) ≡ some n = rw e at (parse_uint-decimal n fits) in
      rw
        (e, cut-digits (d ∷ ds) unit c all letter, trim_space-digits d ds all, trimmed, known, back)
        refl

  parse-gigabytes :
      (n : ℕ)
      → n < u64_mod
      → parse_byte_size u (decimal n ++ codes " GB") ≡ size ((n * gigabyte) % u64_mod)
  unfolding is_letter is_space trim_left trim_right unit_of to_upper codes_eq
  parse-gigabytes n h = parse-unit n b'G' (codes "B") gigabyte h refl refl refl

  parse-megabytes :
      (n : ℕ)
      → n < u64_mod
      → parse_byte_size u (decimal n ++ codes " MB") ≡ size ((n * megabyte) % u64_mod)
  unfolding is_letter is_space trim_left trim_right unit_of to_upper codes_eq
  parse-megabytes n h = parse-unit n b'M' (codes "B") megabyte h refl refl refl

  parse-kilobytes :
      (n : ℕ)
      → n < u64_mod
      → parse_byte_size u (decimal n ++ codes " KB") ≡ size ((n * kilobyte) % u64_mod)
  unfolding is_letter is_space trim_left trim_right unit_of to_upper codes_eq
  parse-kilobytes n h = parse-unit n b'K' (codes "B") kilobyte h refl refl refl

  parse-bytes :
      (n : ℕ) → n < u64_mod → parse_byte_size u (decimal n ++ codes " B") ≡ size ((n * 1) % u64_mod)
  unfolding is_letter is_space trim_left trim_right unit_of to_upper codes_eq
  parse-bytes n h = parse-unit n b'B' [] 1 h refl refl refl

  -- Every size below 2^64 bytes is read back from its print.
  pub parse_byte_size-print : (n : ℕ) → n < u64_mod → parse_byte_size u (print_byte_size n) ≡ size n
  unfolding print_byte_size
  parse_byte_size-print n h = elim (Bool-cases ((n % gigabyte) == 0)) [
    | inl y ↦ rw y (parse-gigabytes (n / gigabyte) (omega arith) ∙ ap size (ground arith))
    | inr g ↦ elim (Bool-cases ((n % megabyte) == 0)) [
      | inl y ↦ rw (g, y) (parse-megabytes (n / megabyte) (omega arith) ∙ ap size (ground arith))
      | inr m ↦ elim (Bool-cases ((n % kilobyte) == 0)) [
        | inl y ↦
            rw (g, m, y) (parse-kilobytes (n / kilobyte) (omega arith) ∙ ap size (ground arith))
        | inr k ↦ rw (g, m, k) (parse-bytes n h ∙ ap size (omega arith))
      ]
    ]
  ]
