-- ===== src/Parameters/Tests.antt =====
-- The theorems on parameters at concrete inputs.
use functions_invoker.Base.{
  is_member, ◌≡◌, ◌↔◌, refl, String, some, List, [], ◌∷◌, codes, lookup, insert, replicate,
  string_eq,
}
use functions_invoker.Parameters.Decryption.{Aead, decrypt, sealed_as, Opens, decrypt_iff}
use functions_invoker.Parameters.Division.{
  JsonValue, Locks, Divided, divide, empty, Splits, divide-Splits, unlock_value, add_parameter,
}

abbrev plain_aead : Aead
plain_aead nonce cipher = some cipher

abbrev keys : List (String × Aead)
keys = ("k", plain_aead) ∷ []

decrypt_iff_example :
    (decrypt keys "k" (sealed_as (replicate 128 7) (codes "x")) ≡ some (codes "x"))
    ↔ Opens keys "k" (sealed_as (replicate 128 7) (codes "x")) (codes "x")
decrypt_iff_example = decrypt_iff keys "k" (sealed_as (replicate 128 7) (codes "x")) (codes "x")

-- One locked parameter of the run, and one of the initialization.
abbrev locks : Locks
locks = record {
  locked = ("secret", "k") ∷ [];
  init_keys = "level" ∷ [];
  decode = λ t. some t;
  decrypt_with = λ k t. some (codes "open");
}

abbrev parameters : List (String × JsonValue)
parameters =
    ("secret", record { encoded = codes "\"c2Vj\""; string = codes "c2Vj" })
    ∷ ("level", record { encoded = codes "3"; string = [] })
    ∷ []

abbrev divided : Divided
divided = record {
  init_parameters = ("level", codes "3") ∷ [];
  run_parameters = ("secret", codes "open") ∷ [];
}

divided_parameters : divide locks parameters empty ≡ some divided
unfolding divide unlock_value add_parameter lookup insert is_member
divided_parameters = refl

divide-Splits_example : Splits locks parameters (divide locks parameters empty)
divide-Splits_example = divide-Splits locks parameters (unfold lookup in (refl, (refl, tt)))
