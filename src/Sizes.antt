-- ===== src/Sizes.antt =====
-- Sizes in bytes (pkg/units/units.go). Texts are lists of characters; what Unicode says of a character
-- beyond ASCII is the argument `Unicode`.
use functions_invoker.Base.{
  ℕ, ◌+◌, ◌-◌, ◌*◌, ◌/◌, ◌%◌, Bool, true, false, ◌&&◌, ◌||◌, List, [], ◌∷◌, ◌++◌, Option, none,
  some, if◌then◌else◌, ltb, leb, ◌==◌, codes, codes_eq, u64_mod, decimal, parse_uint, map,
}
use functions_invoker.Entities.{Text}
pub mod RoundTrip
mod Tests

pub record Unicode : Type 0 where
  pub letter : ℕ → Bool
  pub space : ℕ → Bool
  pub upper : ℕ → ℕ

-- `unicode.IsLetter`.
unfoldable pub is_letter : Unicode → ℕ → Bool
is_letter u c =
    if ltb c 128 then (leb b'A' c && leb c b'Z') || (leb b'a' c && leb c b'z') else u.letter c

-- `unicode.IsSpace`.
unfoldable pub is_space : Unicode → ℕ → Bool
is_space u c = if ltb c 128 then (leb 9 c && leb c 13) || (c == 32) else u.space c

-- `unicode.ToUpper`.
unfoldable pub to_upper : Unicode → ℕ → ℕ
to_upper u c = if ltb c 128 then (if leb b'a' c && leb c b'z' then c - 32 else c) else u.upper c

-- `strings.IndexFunc` with `unicode.IsLetter`, and the two slices at the index.
abbrev cons_front : ℕ → Option (Text × Text) → Option (Text × Text)
cons_front c none = none
cons_front c (some (front, back)) = some (c ∷ front, back)

unfoldable pub cut_at_letter : Unicode → Text → Option (Text × Text)
unfolding is_letter
cut_at_letter u [] = none
cut_at_letter u (c ∷ s) =
    let rest = cons_front c (cut_at_letter u s) in if is_letter u c then some ([], c ∷ s) else rest

-- `strings.TrimSpace`.
unfoldable pub trim_left : Unicode → Text → Text
unfolding is_space
trim_left u [] = []
trim_left u (c ∷ s) = let rest = trim_left u s in if is_space u c then rest else c ∷ s

abbrev pub cons_unless : Bool → ℕ → Text → Text
cons_unless is_blank c [] = if is_blank then [] else c ∷ []
cons_unless is_blank c (d ∷ s) = c ∷ d ∷ s

unfoldable pub trim_right : Unicode → Text → Text
unfolding is_space
trim_right u [] = []
trim_right u (c ∷ s) = cons_unless (is_space u c) c (trim_right u s)

abbrev pub trim_space : Unicode → Text → Text
trim_space u s = trim_right u (trim_left u s)

abbrev pub kilobyte : ℕ
kilobyte = 1024

abbrev pub megabyte : ℕ
megabyte = 1024 * 1024

abbrev pub gigabyte : ℕ
gigabyte = 1024 * 1024 * 1024

-- The unit that a text in capitals names.
unfoldable pub unit_of : Text → Option ℕ
unfolding codes_eq
unit_of t =
    if codes_eq t (codes "G") || codes_eq t (codes "GB") || codes_eq t (codes "GIB")
    then some gigabyte
    else if codes_eq t (codes "M") || codes_eq t (codes "MB") || codes_eq t (codes "MIB")
    then some megabyte
    else if codes_eq t (codes "K") || codes_eq t (codes "KB") || codes_eq t (codes "KIB")
    then some kilobyte
    else if codes_eq t (codes "B")
    then some 1
    else none

pub data Parsed : Type 0 where
  size : ℕ → Parsed
  unit_missing : Parsed
  number_invalid : Parsed
  unit_invalid : Text → Parsed

-- The product of a uint64.
unfoldable pub scale : Text → Option ℕ → Option ℕ → Parsed
scale unit none unit_size = number_invalid
scale unit (some bytes) none = unit_invalid unit
scale unit (some bytes) (some unit_size) = size ((bytes * unit_size) % u64_mod)

unfoldable pub parse_cut : Unicode → Option (Text × Text) → Parsed
unfolding scale trim_left trim_right to_upper unit_of parse_uint
parse_cut u none = unit_missing
parse_cut u (some (front, back)) =
    scale (trim_space u back) (parse_uint (trim_space u front))
      (unit_of (map (to_upper u) (trim_space u back)))

unfoldable pub parse_byte_size : Unicode → Text → Parsed
unfolding cut_at_letter parse_cut
parse_byte_size u s = parse_cut u (cut_at_letter u s)

-- `String`.
unfoldable pub print_byte_size : ℕ → Text
unfolding decimal
print_byte_size bs =
    if (bs % gigabyte) == 0
    then decimal (bs / gigabyte) ++ codes " GB"
    else if (bs % megabyte) == 0
    then decimal (bs / megabyte) ++ codes " MB"
    else if (bs % kilobyte) == 0
    then decimal (bs / kilobyte) ++ codes " KB"
    else decimal bs ++ codes " B"

-- `Decode`, and `UnmarshalJSON` after the string was read: the size afterwards, and the result.
unfoldable pub decode_byte_size : Unicode → ℕ → Text → ℕ × Parsed
unfolding parse_byte_size
decode_byte_size u before s = elim (parse_byte_size u s) [
  | size bs ↦ (bs, size bs)
  | unit_missing ↦ (before, unit_missing)
  | number_invalid ↦ (before, number_invalid)
  | unit_invalid t ↦ (before, unit_invalid t)
]
