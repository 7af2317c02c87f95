-- ===== src/Entities/Tests.antt =====
-- The theorem about a function's code at a concrete input, and what becomes of a wrong length.
use functions_invoker.Base.{◌≡◌, ◌∷◌, ◌++◌, [], false, some, refl, codes, codes_eq, has_prefix}
use functions_invoker.Entities.Code.{
  Base64, object, resolved, unmarshal_code, marshal_code, inlined, stored_as, trim_prefix,
  resolve_inlined, resolve_decoded, unmarshal_code-marshal,
}

-- An encoding that is only marked.
abbrev marked : Base64
marked = record { decode_url = λ t. some t; encode_standard = λ t. t }

unmarshal_code-marshal_example :
    unmarshal_code marked (some (marshal_code (λ t. t) (inlined false (codes "code"))))
    ≡ stored_as marked (inlined false (codes "code"))
unmarshal_code-marshal_example =
    unmarshal_code-marshal marked (λ t. t) (inlined false (codes "code")) (λ t. refl) refl

-- If the announced length is too large by one, plain text gets a byte 0 at its end.
padded :
    unmarshal_code marked (
      some (
        object (record {
          attachment_name = codes "mem:x";
          attachment_type = codes "text/plain";
          length = 2;
        })))
    ≡ resolved (codes "x" ++ 0 ∷ [])
unfolding unmarshal_code resolve_inlined resolve_decoded trim_prefix has_prefix codes_eq
padded = refl
