-- ===== src/Client/Documents.antt =====
-- The other operations of the CouchDB client (pkg/couchdb/client.go): the HTTP client and its renewal,
-- the writing of documents in bulk, and the blocked namespaces. JSON and the replies are arguments.
use functions_invoker.Base.{
  ℕ, ◌-◌, not, ◌&&◌, String, Option, none, some, List, ◌++◌, codes, ltb, ◌==◌, if◌then◌else◌,
  Fallible, fine, erred, Done, context, and_then,
}
use functions_invoker.Entities.{Text}

-- The lifetime of a connection, 15 seconds, in milliseconds.
abbrev pub max_connection_lifetime : ℕ
max_connection_lifetime = 15000

-- The HTTP client, by a number, with the time of its creation.
abbrev pub Connection : Type 0
Connection = Option (ℕ × ℕ)

-- The test that `getClient` makes under the read lock, and again under the write lock.
unfoldable pub usable_client : (now : ℕ) → Connection → Option ℕ
usable_client now none = none
usable_client now (some (client, created_at)) =
    if ltb (now - created_at) max_connection_lifetime then some client else none

-- Under the write lock, at the second reading of the clock; the factory makes `client`, at the third.
unfoldable pub renew_client : (second third client : ℕ) → Connection → ℕ × Connection
unfolding usable_client
renew_client second third client connection = elim (usable_client second connection) [
  | some old ↦ (old, connection)
  | none ↦ (client, some (client, third))
]

-- `getClient`, where other calls leave `later` between the two locks.
unfoldable pub get_client :
    (first second third client : ℕ) (connection later : Connection) → ℕ × Connection
unfolding usable_client renew_client
get_client first second third client connection later = elim (usable_client first connection) [
  | some old ↦ (old, connection)
  | none ↦ renew_client second third client later
]

-- The reply to a bulk request: its status, and its body, which may fail to be read.
pub record BulkReply : Type 0 where
  pub status : ℕ
  pub body : Fallible Text

unfoldable pub check_bulk_reply : (ℕ → Text) → (Text → Text) → BulkReply → Fallible Done
check_bulk_reply decimal quote r =
    if not (r.status == 201) && not (r.status == 202)
    then (and_then (context (codes "failed to read body from bulk activation request: ") r.body)
        λ body. erred (
          codes "unexpected status code for bulk activation: "
          ++ (decimal r.status ++ (codes ", body " ++ quote body))))
    else and_then (context (codes "failed to read body from bulk activation: ") r.body)
        λ body. fine tt

-- `WriteDocuments`, with the JSON encoding of the request, and what `request` returns for it.
unfoldable pub write_documents :
    (ℕ → Text)
    → (Text → Text)
    → (List Text → Fallible Text)
    → (Text → Fallible BulkReply)
    → List Text
    → Fallible Done
unfolding check_bulk_reply
write_documents decimal quote marshal request docs =
    and_then (context (codes "failed to marshal bulk request: ") (marshal docs)) λ bytes.
      and_then (context (codes "failed to execute bulk activation request: ") (request bytes))
        λ r. check_bulk_reply decimal quote r

-- `GetBlockedNamespaces`, of the result of the request, with the keys of the rows that are parsed from it.
unfoldable pub get_blocked_namespaces :
    (Text → Fallible (List String)) → Fallible Text → Fallible (List String)
get_blocked_namespaces parse response =
    and_then (context (codes "failed to execute request to get blocked namespaces: ") response)
      λ bytes. context (codes "failed to parse blocked namespaces request: ") (parse bytes)
