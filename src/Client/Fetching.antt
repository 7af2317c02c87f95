-- ===== src/Client/Fetching.antt =====
-- When a function counts as missing (`GetFunction` of pkg/couchdb/client.go).
use functions_invoker.Base.{
  ℕ, ◌≡◌, ◌≢◌, ◌∙◌, ◌↔◌, arith, refl, sym, subst, Option, none, some, [], ◌∷◌,
}
use functions_invoker.Entities.{Text}
use functions_invoker.Runner.Invoke.{not_found, found, fetch_failed}
use functions_invoker.Client.{
  Document, document, missing, broken, Stored, get_function, get_attachment,
}

-- The document is missing, or it names an attachment that is missing.
abbrev pub IsMissing : (Text → Option Stored) → (Text → Document) → Document → Type 0
IsMissing parse attachment missing = Unit
IsMissing parse attachment broken = ⊥
IsMissing parse attachment (document bytes) =
    (s : Stored) × (parse bytes ≡ some s)
    × (s.attachment_id ≢ [])
    × (attachment s.attachment_id ≡ missing)

get_attachment_missing :
    (encode : Text → Text) (s : Stored) (d : Document)
    → (get_attachment encode s d ≡ not_found) ↔ (d ≡ missing)
unfolding get_attachment
get_attachment_missing encode s d = ground arith

-- `GetFunction` after the document has been read.
get_function-inlined :
    (parse : Text → Option Stored) (encode : Text → Text) (bytes : Text)
    (attachment : Text → Document) (s : Stored)
    → parse bytes ≡ some s
    → s.attachment_id ≡ []
    → get_function parse encode (document bytes) attachment ≡ found s.function
unfolding get_function
get_function-inlined parse encode bytes attachment s p e = rw (get_function, p, e) refl

get_function-attached :
    (parse : Text → Option Stored) (encode : Text → Text) (bytes : Text)
    (attachment : Text → Document) (s : Stored) (x : ℕ) (xs : Text)
    → parse bytes ≡ some s
    → s.attachment_id ≡ x ∷ xs
    → get_function parse encode (document bytes) attachment
      ≡ get_attachment encode s (attachment (x ∷ xs))
unfolding get_function
get_function-attached parse encode bytes attachment s x xs p e = rw (get_function, p, e) refl

get_function-unparsable :
    (parse : Text → Option Stored) (encode : Text → Text) (bytes : Text)
    (attachment : Text → Document)
    → parse bytes ≡ none
    → get_function parse encode (document bytes) attachment ≡ fetch_failed
unfolding get_function
get_function-unparsable parse encode bytes attachment p = rw (get_function, p) refl

-- `GetFunction` reports that a function does not exist exactly if the database says so of its
-- document, or of the attachment that the document names as its code; whatever else goes wrong is
-- another error.
pub get_function-IsMissing :
    (parse : Text → Option Stored) (encode : Text → Text) (d : Document)
    (attachment : Text → Document)
    → (get_function parse encode d attachment ≡ not_found) ↔ IsMissing parse attachment d
get_function-IsMissing parse encode missing attachment =
    unfold get_function in ((λ h. tt), (λ h. refl))
get_function-IsMissing parse encode broken attachment =
    unfold get_function in ((λ h. cc), (λ h. absurd h))
get_function-IsMissing parse encode (document bytes) attachment = go (parse bytes) refl
  where
    stored :
        (s : Stored) (id : Text)
        → parse bytes ≡ some s
        → s.attachment_id ≡ id
        → (get_function parse encode (document bytes) attachment ≡ not_found)
          ↔ ((id ≢ []) × (attachment id ≡ missing))
    stored s [] p e =
        let same = get_function-inlined parse encode bytes attachment s p e in
        ((λ h. cc), (λ (n, m). absurd (n refl)))
    stored s (x ∷ xs) p e =
        let same = get_function-attached parse encode bytes attachment s x xs p e in
        let inner = get_attachment_missing encode s (attachment (x ∷ xs)) in
        ((λ h. ((λ q. cc), inner.0 (sym same ∙ h))), (λ (n, m). same ∙ inner.1 m))

    go :
        (o : Option Stored)
        → parse bytes ≡ o
        → (get_function parse encode (document bytes) attachment ≡ not_found)
          ↔ IsMissing parse attachment (document bytes)
    go none p =
        let same = get_function-unparsable parse encode bytes attachment p in
        ((λ h. cc), (λ (s, q, n, m). cc))
    go (some s) p =
        let known = stored s s.attachment_id p refl in
        (
          (λ h. let (n, m) = known.0 h in (s, p, n, m)),
          (λ (u, q, n, m).
              let same : s ≡ u = cc in
              known.1 (
                subst (λ v. (v.attachment_id ≢ []) × (attachment v.attachment_id ≡ missing))
                  (sym same) (n, m))),
        )
