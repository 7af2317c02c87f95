-- ===== src/Invoker/Blocking.antt =====
-- The blocked namespaces, from the database to the skipped messages (`GetBlockedNamespaces` of
-- pkg/couchdb/client.go, the periodic update of cmd/invoker/main.go, and `Invoke` of
-- pkg/kafka/runner.go).
use functions_invoker.Base.{true, ◌≡◌, String, List, is_member, Fallible, fine, erred}

-- A namespace is among those that were fetched.
abbrev pub IsFetched : String → Fallible (List String) → Type 0
IsFetched namespace (fine blocked) = is_member namespace blocked ≡ true
IsFetched namespace (erred error) = ⊥
