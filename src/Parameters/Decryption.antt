-- ===== src/Parameters/Decryption.antt =====
-- `Decrypt` (pkg/encryption/decryptor.go). The AES-GCM of each key is an argument: what it opens a
-- sealed text with a nonce to, if that is authentic.
use functions_invoker.Base.{
  subst, ℕ, zero, suc, ◌+◌, ◌*◌, ◌≤◌, ◌≡◌, ◌↔◌, ◌==◌, refl, sym, ap, ◌∙◌, Bool-cases, String,
  string_eq, Option, none, some, List, [], ◌∷◌, ◌++◌, length, length-append, ◌<◌, inl, inr, lookup,
  leb, leb→le, arith, if◌then◌else◌,
}
use functions_invoker.Entities.{Text}

abbrev pub nonce_size : ℕ
nonce_size = 128

abbrev pub nonce_size_length : ℕ
nonce_size_length = 4

abbrev pub Aead : Type 0
Aead = Text → Text → Option Text

-- `binary.BigEndian.Uint32`; shorter texts do not get here.
unfoldable pub big_endian : Text → ℕ
big_endian (a ∷ b ∷ c ∷ d ∷ rest) = a * 16777216 + b * 65536 + c * 256 + d
big_endian t = 0

unfoldable pub first_bytes : ℕ → Text → Text
first_bytes zero t = []
first_bytes (suc n) [] = []
first_bytes (suc n) (x ∷ xs) = x ∷ first_bytes n xs

unfoldable pub after_bytes : ℕ → Text → Text
after_bytes zero t = t
after_bytes (suc n) [] = []
after_bytes (suc n) (x ∷ xs) = after_bytes n xs

unfoldable pub open_checked : Aead → Text → Option Text
open_checked open_with encrypted =
    let opened =
      open_with (first_bytes nonce_size (after_bytes nonce_size_length encrypted))
        (after_bytes (nonce_size_length + nonce_size) encrypted) in
    if leb (length encrypted) (nonce_size_length + nonce_size)
    then none
    else (if big_endian encrypted == nonce_size then opened else none)

unfoldable pub decrypt : List (String × Aead) → String → Text → Option Text
decrypt keys key encrypted = elim (lookup key keys) [
  | none ↦ none
  | some open_with ↦ open_checked open_with encrypted
]

-- What the controller sends: the nonce's size in four bytes, the nonce, and the sealed text.
abbrev pub sealed_as : Text → Text → Text
sealed_as nonce cipher = 0 ∷ 0 ∷ 0 ∷ 128 ∷ (nonce ++ cipher)

first_bytes-append : (n : ℕ) (s t : Text) → length s ≡ n → first_bytes n (s ++ t) ≡ s
unfolding first_bytes
first_bytes-append zero [] t h = refl
first_bytes-append zero (x ∷ xs) t h = absurd (omega (arith, h))
first_bytes-append (suc n) [] t h = absurd (omega (arith, h))
first_bytes-append (suc n) (x ∷ xs) t h =
    ap (λ (l : Text). x ∷ l) (first_bytes-append n xs t (omega (arith, h)))

after_bytes-append : (n : ℕ) (s t : Text) → length s ≡ n → after_bytes n (s ++ t) ≡ t
unfolding after_bytes
after_bytes-append zero [] t h = refl
after_bytes-append zero (x ∷ xs) t h = absurd (omega (arith, h))
after_bytes-append (suc n) [] t h = absurd (omega (arith, h))
after_bytes-append (suc n) (x ∷ xs) t h = after_bytes-append n xs t (omega (arith, h))

bytes-split : (n : ℕ) (t : Text) → t ≡ first_bytes n t ++ after_bytes n t
unfolding first_bytes after_bytes
bytes-split zero t = refl
bytes-split (suc n) [] = refl
bytes-split (suc n) (x ∷ xs) = ap (λ (l : Text). x ∷ l) (bytes-split n xs)

length-first_bytes : (n : ℕ) (t : Text) → n ≤ length t → length (first_bytes n t) ≡ n
unfolding first_bytes
length-first_bytes zero t h = refl
length-first_bytes (suc n) [] h = absurd (omega (arith, h))
length-first_bytes (suc n) (x ∷ xs) h = omega (arith, length-first_bytes n xs (omega (arith, h)))

length-after_bytes : (n : ℕ) (t : Text) → n ≤ length t → length (after_bytes n t) + n ≡ length t
unfolding after_bytes
length-after_bytes zero t h = omega arith
length-after_bytes (suc n) [] h = absurd (omega (arith, h))
length-after_bytes (suc n) (x ∷ xs) h = omega (arith, length-after_bytes n xs (omega (arith, h)))

-- The key is known, and the text is a nonce and something sealed with it.
abbrev pub Opens : List (String × Aead) → String → Text → Text → Type 0
Opens keys key encrypted v =
    (open_with : Aead) × (nonce : Text) × (cipher : Text) × (lookup key keys ≡ some open_with)
    × (encrypted ≡ sealed_as nonce cipher)
    × (length nonce ≡ nonce_size)
    × (1 ≤ length cipher)
    × (open_with nonce cipher ≡ some v)

after-header : (t : Text) → after_bytes 4 (0 ∷ 0 ∷ 0 ∷ 128 ∷ t) ≡ t
unfolding after_bytes
after-header t = refl

after-header_nonce : (t : Text) → after_bytes 132 (0 ∷ 0 ∷ 0 ∷ 128 ∷ t) ≡ after_bytes 128 t
unfolding after_bytes
after-header_nonce t = refl

open_checked-sealed :
    (open_with : Aead) (nonce cipher : Text)
    → length nonce ≡ nonce_size
    → 1 ≤ length cipher
    → open_checked open_with (sealed_as nonce cipher) ≡ open_with nonce cipher
unfolding open_checked big_endian
open_checked-sealed open_with nonce cipher n c =
    elim (Bool-cases (leb (length (sealed_as nonce cipher)) 132)) [
      | inl y ↦ absurd (omega (arith, n, c, leb→le _ _ y, length-append nonce cipher))
      | inr long ↦
          rw
            (
              long,
              after-header (nonce ++ cipher),
              after-header_nonce (nonce ++ cipher),
              first_bytes-append 128 nonce cipher n,
              after_bytes-append 128 nonce cipher n,
            )
            refl
    ]

-- The four bytes that say 128.
header :
    (e : Text)
    → 132 < length e
    → big_endian e ≡ 128
    → (t : Text) × (e ≡ 0 ∷ 0 ∷ 0 ∷ 128 ∷ t) × (128 < length t)
unfolding big_endian
header [] l h = absurd (omega (arith, l))
header (a ∷ []) l h = absurd (omega (arith, l))
header (a ∷ b ∷ []) l h = absurd (omega (arith, l))
header (a ∷ b ∷ c ∷ []) l h = absurd (omega (arith, l))
header (a ∷ b ∷ c ∷ d ∷ t) l h =
    let za : a ≡ 0 = omega (arith, h) in
    let zb : b ≡ 0 = omega (arith, h) in
    let zc : c ≡ 0 = omega (arith, h) in
    let zd : d ≡ 128 = omega (arith, h) in (t, cc, omega (arith, l))

open_checked-guards :
    (open_with : Aead) (e v : Text)
    → open_checked open_with e ≡ some v
    → (132 < length e)
      × (big_endian e ≡ 128)
      × (open_with (first_bytes 128 (after_bytes 4 e)) (after_bytes 132 e) ≡ some v)
unfolding open_checked
open_checked-guards open_with e v h = ground arith

decrypt-known :
    (keys : List (String × Aead)) (key : String) (open_with : Aead) (e : Text)
    → lookup key keys ≡ some open_with
    → decrypt keys key e ≡ open_checked open_with e
unfolding decrypt
decrypt-known keys key open_with e q = rw (decrypt, q) refl

decrypt-unknown :
    (keys : List (String × Aead)) (key : String) (e : Text)
    → lookup key keys ≡ none
    → decrypt keys key e ≡ none
unfolding decrypt
decrypt-unknown keys key e q = rw (decrypt, q) refl

open_checked-some :
    (open_with : Aead) (encrypted v : Text)
    → open_checked open_with encrypted ≡ some v
    → (nonce : Text) × (cipher : Text) × (encrypted ≡ sealed_as nonce cipher)
      × (length nonce ≡ nonce_size)
      × (1 ≤ length cipher)
      × (open_with nonce cipher ≡ some v)
open_checked-some open_with encrypted v h =
    let (long, size, opened) = open_checked-guards open_with encrypted v h in
    let (t, shape, more) = header encrypted long size in
    let four : after_bytes 4 encrypted ≡ t = ap (λ e. after_bytes 4 e) shape ∙ after-header t in
    let all : after_bytes 132 encrypted ≡ after_bytes 128 t =
      ap (λ e. after_bytes 132 e) shape ∙ after-header_nonce t in
    (
      first_bytes 128 t,
      after_bytes 128 t,
      shape ∙ ap (λ (l : Text). 0 ∷ 0 ∷ 0 ∷ 128 ∷ l) (bytes-split 128 t),
      length-first_bytes 128 t (omega (arith, more)),
      omega (arith, more, length-after_bytes 128 t (omega (arith, more))),
      subst (λ q. open_with (first_bytes 128 t) q ≡ some v) all
          (subst (λ q. open_with (first_bytes 128 q) (after_bytes 132 encrypted) ≡ some v) four
            opened),
    )

-- `Decrypt` succeeds exactly if the key is known and the value is the nonce's size 128 in four
-- bytes, a nonce of 128 bytes, and at least one byte that AES-GCM opens with this key and nonce; and
-- its result is what it opens to.
pub decrypt_iff :
    (keys : List (String × Aead)) (key : String) (encrypted v : Text)
    → (decrypt keys key encrypted ≡ some v) ↔ Opens keys key encrypted v
decrypt_iff keys key encrypted v = (there, back)
  where
    found :
        (o : Option Aead)
        → lookup key keys ≡ o
        → decrypt keys key encrypted ≡ some v
        → Opens keys key encrypted v
    found none e h = let n = decrypt-unknown keys key encrypted e in cc
    found (some open_with) e h =
        let (nonce, cipher, shape, n, c, opened) =
          open_checked-some open_with encrypted v
            (sym (decrypt-known keys key open_with encrypted e) ∙ h) in
        (open_with, nonce, cipher, e, shape, n, c, opened)

    there : decrypt keys key encrypted ≡ some v → Opens keys key encrypted v
    there h = found (lookup key keys) refl h

    back : Opens keys key encrypted v → decrypt keys key encrypted ≡ some v
    back (open_with, nonce, cipher, e, shape, n, c, h) =
        decrypt-known keys key open_with encrypted e
        ∙ (ap (λ (t : Text). open_checked open_with t) shape
            ∙ (open_checked-sealed open_with nonce cipher n c ∙ h))
