-- ===== src/Entities/Code.antt =====
-- How a function's code is read from its document (`FunctionCode` of pkg/entities/function.go). JSON and
-- base64 are arguments.
use mathlib.Core.List.{append-nil}
use functions_invoker.Base.{
  ap, refl, suc, arith, ◌∷◌, ◌≡◌, ℕ, ◌-◌, Bool, true, false, Option, none, some, [], ◌++◌, codes,
  codes_eq, ltb, ◌==◌, if◌then◌else◌, replicate, drop, length as list_length, has_prefix,
}
use functions_invoker.Entities.{Text}

-- The JSON value of the code: a string, or an object with the fields of an attachment; a missing text is
-- empty, and a missing length is 0.
pub record Attachment : Type 0 where
  pub attachment_name : Text
  pub attachment_type : Text
  pub length : ℕ

pub data CodeJson : Type 0 where
  text : Text → CodeJson
  object : Attachment → CodeJson

-- The decoding of the URL alphabet, and the encoding in the standard one.
pub record Base64 : Type 0 where
  pub decode_url : Text → Option Text
  pub encode_standard : Text → Text

abbrev pub mem_prefix : Text
mem_prefix = codes "mem:"

abbrev pub couch_prefix : Text
couch_prefix = codes "couch:"

abbrev pub binary_type : Text
binary_type = codes "application/octet-stream"

-- The code, the attachment that is to be read for it, or what goes wrong: the JSON or the base64 is
-- invalid, or the buffer of the announced length is too short, which panics.
pub data FunctionCode : Type 0 where
  resolved : Text → FunctionCode
  attachment : (id : Text) (is_binary : Bool) → FunctionCode
  unparsable : FunctionCode
  undecodable : FunctionCode
  too_long : FunctionCode

-- `bytes.TrimPrefix`.
unfoldable pub trim_prefix : Text → Text → Text
unfolding has_prefix
trim_prefix t prefix = if has_prefix t prefix then drop (list_length prefix) t else t

-- A buffer of the announced length, with the decoded bytes at its front.
abbrev pub buffer : ℕ → Text → Text
buffer announced bytes = bytes ++ replicate (announced - list_length bytes) 0

unfoldable pub resolve_decoded : Base64 → ℕ → Bool → Option Text → FunctionCode
resolve_decoded b announced is_binary none = undecodable
resolve_decoded b announced is_binary (some bytes) =
    if ltb announced (list_length bytes)
    then too_long
    else if is_binary
    then resolved (b.encode_standard bytes)
    else resolved (buffer announced bytes)

unfoldable pub resolve_inlined : Base64 → ℕ → Bool → Text → FunctionCode
unfolding resolve_decoded
resolve_inlined b announced is_binary inlined =
    if announced == 0
    then resolved []
    else resolve_decoded b announced is_binary (b.decode_url inlined)

unfoldable pub unmarshal_code : Base64 → Option CodeJson → FunctionCode
unfolding resolve_inlined trim_prefix has_prefix codes_eq
unmarshal_code b none = unparsable
unmarshal_code b (some (text t)) = resolved t
unmarshal_code b (some (object a)) =
    let is_binary = codes_eq a.attachment_type binary_type in
    if has_prefix a.attachment_name mem_prefix
    then resolve_inlined b a.length is_binary (trim_prefix a.attachment_name mem_prefix)
    else attachment (trim_prefix a.attachment_name couch_prefix) is_binary

-- Code as the controller stores it: plain text in the document; a small attachment that is inlined, as
-- plain text or binary; and an attachment beside the document.
pub data StoredCode : Type 0 where
  plain : Text → StoredCode
  inlined : (is_binary : Bool) (code : Text) → StoredCode
  external : (is_binary : Bool) (id : Text) → StoredCode

abbrev pub type_of : Bool → Text
type_of true = binary_type
type_of false = codes "text/plain"

module _ (encode_url : Text → Text) where
  -- The document that the controller writes.
  abbrev pub marshal_code : StoredCode → CodeJson
  marshal_code (plain code) = text code
  marshal_code (inlined is_binary code) = object (record {
    attachment_name = mem_prefix ++ encode_url code;
    attachment_type = type_of is_binary;
    length = list_length code;
  })
  marshal_code (external is_binary id) = object (record {
    attachment_name = couch_prefix ++ id;
    attachment_type = type_of is_binary;
    length = 0;
  })

-- What a container needs: plain text, or binary code in standard base64; or where to find it.
abbrev pub stored_as : Base64 → StoredCode → FunctionCode
stored_as b (plain code) = resolved code
stored_as b (inlined true code) = resolved (b.encode_standard code)
stored_as b (inlined false code) = resolved code
stored_as b (external is_binary id) = attachment id is_binary

replicate-none : (n : ℕ) → ◌≡◌ {A = Text} (replicate (n - n) 0) []
replicate-none n = let e : n - n ≡ 0 = omega arith in rw e refl

-- A buffer of exactly the length of the bytes is these bytes.
buffer-full : (bytes : Text) → buffer (list_length bytes) bytes ≡ bytes
buffer-full bytes = rw (replicate-none (list_length bytes)) (append-nil bytes)

not_empty : (n : ℕ) → (suc n == 0) ≡ false
not_empty n = ground arith

not_long : (n : ℕ) → ltb n n ≡ false
not_long n = ground arith

module _ (b : Base64) (encode_url : Text → Text) where
  resolve_inlined-marshal :
      (is_binary : Bool) (code : Text)
      → b.decode_url (encode_url code) ≡ some code
      → b.encode_standard [] ≡ []
      → resolve_inlined b (list_length code) is_binary (encode_url code)
        ≡ stored_as b (inlined is_binary code)
  unfolding resolve_inlined resolve_decoded
  resolve_inlined-marshal true [] back empty = rw empty refl
  resolve_inlined-marshal false [] back empty = refl
  resolve_inlined-marshal true (c ∷ code) back empty =
      rw (back, not_empty (list_length code), not_long (suc (list_length code))) refl
  resolve_inlined-marshal false (c ∷ code) back empty =
      rw (back, not_empty (list_length code), not_long (suc (list_length code)))
        (ap resolved (buffer-full (c ∷ code)))

  -- Code that the controller stores is read back: plain text as it is, binary code in standard base64,
  -- and an external attachment as its id; if the URL alphabet's decoding undoes its encoding, and the
  -- encoding of nothing is nothing.
  pub unmarshal_code-marshal :
      (s : StoredCode)
      → ((t : Text) → b.decode_url (encode_url t) ≡ some t)
      → b.encode_standard [] ≡ []
      → unmarshal_code b (some (marshal_code encode_url s)) ≡ stored_as b s
  unfolding unmarshal_code trim_prefix has_prefix codes_eq
  unmarshal_code-marshal (plain code) back empty = refl
  unmarshal_code-marshal (inlined true code) back empty =
      resolve_inlined-marshal true code (back code) empty
  unmarshal_code-marshal (inlined false code) back empty =
      resolve_inlined-marshal false code (back code) empty
  unmarshal_code-marshal (external true id) back empty = refl
  unmarshal_code-marshal (external false id) back empty = refl
