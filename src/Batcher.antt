-- ===== src/Batcher.antt =====
-- The batcher of activations (pkg/couchdb/batcher.go): `WriteActivation`, and one worker, whose
-- mutex makes it take a document or be flushed by the ticker one at a time. What goes to the client
-- in bulk is a list of documents; the client's errors are logged there and change nothing.
use functions_invoker.Base.{
  ℕ, ◌+◌, ◌*◌, Bool, true, false, String, Option, none, some, List, [], ◌∷◌, ◌++◌, codes, length,
  add64, ltb, if◌then◌else◌,
}
use functions_invoker.Entities.{Text, Activation}
pub mod Kept
pub mod Ids
mod Tests

-- 5 MB.
abbrev pub flush_bytes : ℕ
flush_bytes = 5242880

unfoldable pub without_last : Text → Text
without_last [] = []
without_last (x ∷ []) = []
without_last (x ∷ y ∷ ys) = x ∷ without_last (y ∷ ys)

-- The document that is sent to a worker, unless the activation could not be encoded: the JSON
-- object's closing bracket is dropped, the id added, and the bracket put back.
unfoldable pub write_activation : (Activation → Option Text) → Activation → Option Text
write_activation marshal a = elim (marshal a) [
  | none ↦ none
  | some bs ↦ some (
      without_last bs
      ++ (codes ",\"_id\":\""
          ++ (codes a.namespace ++ (codes "/" ++ (codes a.activation_id ++ codes "\"}")))))
]

pub record Worker : Type 0 where
  pub batch : List Text
  pub batch_size : ℕ

abbrev pub new_worker : Worker
new_worker = record { batch = []; batch_size = 0 }

-- The worker afterwards, and the batch that is written, if it holds anything.
unfoldable pub flush : Worker → Worker × List (List Text)
flush w = elim w.batch [
  | [] ↦ (w, [])
  | x ∷ xs ↦ (record { batch = []; batch_size = 0 }, (x ∷ xs) ∷ [])
]

-- The body of the loop over the channel: a flush if the document would exceed the limit.
unfoldable pub take_document : Text → Worker → Worker × List (List Text)
unfolding flush
take_document bs w =
    let flushed = if ltb flush_bytes (add64 w.batch_size (length bs)) then flush w else (w, []) in
    (
      record {
        batch = flushed.0.batch ++ bs ∷ [];
        batch_size = add64 flushed.0.batch_size (length bs);
      },
      flushed.1,
    )

-- A document from the channel, or the ticker.
pub data WorkerEvent : Type 0 where
  taken : Text → WorkerEvent
  ticked : WorkerEvent

unfoldable pub on_event : WorkerEvent → Worker → Worker × List (List Text)
on_event (taken bs) w = take_document bs w
on_event ticked w = flush w

-- The loop, and the last flush after the channel is closed.
unfoldable pub run : List WorkerEvent → Worker → List (List Text)
run [] w = (flush w).1
run (e ∷ es) w = (on_event e w).1 ++ run es (on_event e w).0
