-- ===== src/Sizes/Tests.antt =====
-- The theorems of sizes at concrete inputs.
use functions_invoker.Base.{arith, ◌≡◌, refl, false, codes}
use functions_invoker.Sizes.{
  Unicode, parse_byte_size, print_byte_size, size, unit_missing, parse_cut,
}
use functions_invoker.Sizes.RoundTrip.{parse_byte_size-print}

-- Nothing beyond ASCII is a letter or a space.
abbrev ascii : Unicode
ascii = record { letter = λ c. false; space = λ c. false; upper = λ c. c }

in_megabytes : parse_byte_size ascii (codes "256 m") ≡ size 268435456
unfolding parse_byte_size parse_cut
in_megabytes = refl

without_unit : parse_byte_size ascii (codes "256") ≡ unit_missing
unfolding parse_byte_size
without_unit = refl

-- A size of 2^64 bytes is read as 0.
too_large : parse_byte_size ascii (codes "17179869184 GB") ≡ size 0
unfolding parse_byte_size
too_large = refl

parse_byte_size-print_example : parse_byte_size ascii (print_byte_size 268435456) ≡ size 268435456
parse_byte_size-print_example = parse_byte_size-print ascii 268435456 (omega arith)
