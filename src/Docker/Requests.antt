-- ===== src/Docker/Requests.antt =====
-- A request to a container's HTTP server (`request`, `Initialize` and `Run` of
-- pkg/exec/docker/container.go). What the HTTP client answers is an argument.
use functions_invoker.Base.{
  sym, ap, ==_iff, ◌∙◌, zero, suc, ℕ, ◌≤◌, ◌<◌, ◌≡◌, ◌⊎◌, inl, inr, refl, Bool, true, false,
  Bool-cases, Option, none, some, [], ◌∷◌, ◌++◌, length, arith, ltb, ltb→lt, ltb-false, ◌==◌,
  if◌then◌else◌,
}
use functions_invoker.Entities.{Text}
use functions_invoker.Runner.Invoke.{Reply, RequestError, limit_exceeded, deadline_exceeded, other}

-- 1 MB.
abbrev pub response_limit : ℕ
response_limit = 1048576

-- A response: the length it announces, unless it is not known, the bytes that come, and how reading
-- and discarding fail, where the flag says whether the deadline is the reason.
pub record HttpResponse : Type 0 where
  pub content_length : Option ℕ
  pub content : Text
  pub read_timeout : Bool
  pub discard_error : Option Bool
  pub status : ℕ

pub data HttpAnswer : Type 0 where
  refused : (timeout : Bool) → HttpAnswer
  responded : HttpResponse → HttpAnswer

abbrev pub transport_error : Bool → RequestError
transport_error true = deadline_exceeded
transport_error false = other

-- The first bytes, in a buffer of the given size that holds zeros.
unfoldable pub filled : ℕ → Text → Text
filled zero content = []
filled (suc n) [] = 0 ∷ filled n []
filled (suc n) (x ∷ xs) = x ∷ filled n xs

unfoldable pub check_status : ℕ → Text → Reply
check_status status body = record {
  response = body;
  error = if status == 200 then none else some other;
}

unfoldable pub read_known : HttpResponse → ℕ → Reply
unfolding check_status
read_known r n =
    let to_read = if ltb response_limit n then response_limit else n in
    let body = filled to_read r.content in
    if ltb (length r.content) to_read
    then record { response = body; error = some (transport_error r.read_timeout) }
    else (if ltb to_read n
        then record {
          response = body;
          error = elim r.discard_error [
            | none ↦ some (limit_exceeded n)
            | some timeout ↦ some (transport_error timeout)
          ];
        }
        else check_status r.status body)

unfoldable pub request : HttpAnswer → Reply
unfolding read_known check_status
request (refused timeout) = record { response = []; error = some (transport_error timeout) }
request (responded r) = elim r.content_length [
  | none ↦ elim r.discard_error [
    | none ↦ check_status r.status []
    | some timeout ↦ record { response = []; error = some (transport_error timeout) }
  ]
  | some n ↦ read_known r n
]

-- `Initialize` and `Run`, whose payload may fail to be encoded.
abbrev pub post : Option Text → (Text → HttpAnswer) → Reply
post none client = record { response = []; error = some other }
post (some body) client = request (client body)

length-filled : (n : ℕ) (t : Text) → length (filled n t) ≡ n
unfolding filled
length-filled zero t = refl
length-filled (suc n) [] = omega (arith, length-filled n [])
length-filled (suc n) (x ∷ xs) = omega (arith, length-filled n xs)

-- The body starts with the whole buffer, if that many bytes came.
pub Prefix : Text → Text → Type 0
Prefix body content = (rest : Text) × (content ≡ body ++ rest)

filled-Prefix : (n : ℕ) (t : Text) → n ≤ length t → Prefix (filled n t) t
unfolding filled Prefix
filled-Prefix zero t h = (t, refl)
filled-Prefix (suc n) [] h = absurd (omega (arith, h))
filled-Prefix (suc n) (x ∷ xs) h =
    let (rest, e) = filled-Prefix n xs (omega (arith, h)) in (rest, cc)

-- What a reply says of the response.
abbrev pub Tells : HttpResponse → Option RequestError → Text → Type 0
Tells r none body =
    (r.status ≡ 200)
    × (((r.content_length ≡ none) × (body ≡ []))
        ⊎ ((r.content_length ≡ some (length body)) × Prefix body r.content))
Tells r (some (limit_exceeded n)) body =
    (r.content_length ≡ some n)
    × (response_limit < n)
    × (length body ≡ response_limit)
    × Prefix body r.content
Tells r (some deadline_exceeded) body = Unit
Tells r (some other) body = Unit

check_status-Tells :
    (r : HttpResponse) (body : Text)
    → length body ≤ response_limit
    → ((r.content_length ≡ none) × (body ≡ []))
      ⊎ ((r.content_length ≡ some (length body)) × Prefix body r.content)
    → Tells r (check_status r.status body).error (check_status r.status body).response
      × (length (check_status r.status body).response ≤ response_limit)
unfolding check_status
check_status-Tells r body l h = elim (Bool-cases (r.status == 200)) [
  | inl y ↦ rw y (((==_iff r.status 200).0 y, h), l)
  | inr n ↦ rw n (tt, l)
]

ltb-same : (n : ℕ) → ltb n n ≡ false
ltb-same n = ground arith

-- The three ends of a read of a known length, for a buffer of at most 1 MB.
transport-Tells :
    (r : HttpResponse) (timeout : Bool) (body : Text)
    → Tells r (some (transport_error timeout)) body
transport-Tells r true body = tt
transport-Tells r false body = tt

cut-Tells :
    (r : HttpResponse) (n : ℕ) (d : Option Bool)
    → r.content_length ≡ some n
    → response_limit < n
    → response_limit ≤ length r.content
    → Tells r
        (elim d as (λ q. Option RequestError) [
          | none ↦ some (limit_exceeded n)
          | some timeout ↦ some (transport_error timeout)
        ])
        (filled response_limit r.content)
cut-Tells r n none e l h =
    (e, l, length-filled response_limit r.content, filled-Prefix response_limit r.content h)
cut-Tells r n (some timeout) e l h = transport-Tells r timeout (filled response_limit r.content)

read_known-Tells :
    (r : HttpResponse) (n : ℕ)
    → r.content_length ≡ some n
    → Tells r (read_known r n).error (read_known r n).response
      × (length (read_known r n).response ≤ response_limit)
read_known-Tells r n e = elim (Bool-cases (ltb response_limit n)) [
  | inl big ↦ over (ltb→lt _ _ big) big (Bool-cases (ltb (length r.content) response_limit))
  | inr fits ↦ within (ltb-false _ _ fits) fits (Bool-cases (ltb (length r.content) n))
]
  where
    over :
        response_limit < n
        → ltb response_limit n ≡ true
        → (ltb (length r.content) response_limit ≡ true)
          ⊎ (ltb (length r.content) response_limit ≡ false)
        → Tells r (read_known r n).error (read_known r n).response
          × (length (read_known r n).response ≤ response_limit)
    over l big (inl short) =
        unfold read_known in
        rw (big, short)
          (
            transport-Tells r r.read_timeout (filled response_limit r.content),
            omega (arith, length-filled response_limit r.content),
          )
    over l big (inr enough) =
        unfold read_known in
        rw (big, enough, big)
          (
            cut-Tells r n r.discard_error e l (ltb-false _ _ enough),
            omega (arith, length-filled response_limit r.content),
          )

    within :
        n ≤ response_limit
        → ltb response_limit n ≡ false
        → (ltb (length r.content) n ≡ true) ⊎ (ltb (length r.content) n ≡ false)
        → Tells r (read_known r n).error (read_known r n).response
          × (length (read_known r n).response ≤ response_limit)
    within l fits (inl short) =
        unfold read_known in
        rw (fits, short)
          (
            transport-Tells r r.read_timeout (filled n r.content),
            omega (arith, length-filled n r.content),
          )
    within l fits (inr enough) =
        unfold read_known in
        rw (fits, enough, ltb-same n)
          (check_status-Tells r (filled n r.content) (omega (arith, length-filled n r.content)) (
            inr (
              e ∙ ap some (sym (length-filled n r.content)),
              filled-Prefix n r.content (ltb-false _ _ enough),
            )))

request-discarded :
    (r : HttpResponse)
    → r.content_length ≡ none
    → r.discard_error ≡ none
    → request (responded r) ≡ check_status r.status []
unfolding request
request-discarded r e q = rw (e, q) refl

request-failed :
    (r : HttpResponse) (timeout : Bool)
    → r.content_length ≡ none
    → r.discard_error ≡ some timeout
    → request (responded r) ≡ record { response = []; error = some (transport_error timeout) }
unfolding request
request-failed r timeout e q = rw (e, q) refl

request-known :
    (r : HttpResponse) (n : ℕ) → r.content_length ≡ some n → request (responded r) ≡ read_known r n
unfolding request
request-known r n e = rw e refl

-- A successful request has status 200, and its body is the whole announced body, or nothing if no
-- length is announced. A request that fails by an exceeded limit announces more than the limit, and
-- its body is the first 1 MB of it. In no case is the body longer than 1 MB.
pub request-Tells :
    (r : HttpResponse)
    → Tells r (request (responded r)).error (request (responded r)).response
      × (length (request (responded r)).response ≤ response_limit)
request-Tells r = go r.content_length refl
  where
    no_length :
        r.content_length ≡ none
        → (d : Option Bool) → r.discard_error ≡ d
        → Tells r (request (responded r)).error (request (responded r)).response
          × (length (request (responded r)).response ≤ response_limit)
    no_length e none q =
        rw (request-discarded r e q) (check_status-Tells r [] (omega arith) (inl (e, refl)))
    no_length e (some timeout) q =
        rw (request-failed r timeout e q) (transport-Tells r timeout [], omega arith)

    go :
        (o : Option ℕ)
        → r.content_length ≡ o
        → Tells r (request (responded r)).error (request (responded r)).response
          × (length (request (responded r)).response ≤ response_limit)
    go none e = no_length e r.discard_error refl
    go (some n) e = rw (request-known r n e) (read_known-Tells r n e)
