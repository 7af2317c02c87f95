-- ===== src/Batcher/Tests.antt =====
-- The batcher's theorems at concrete inputs.
use functions_invoker.Base.{◌≡◌, refl, some, Option, List, [], ◌∷◌, ◌++◌, codes, add64, All, arith}
use functions_invoker.Entities.{Text, Activation}
use functions_invoker.Runner.Invoke.{new_activation}
use functions_invoker.Runner.Examples.{hello_message}
use functions_invoker.Batcher.{
  WorkerEvent, taken, ticked, on_event, take_document, run, new_worker, write_activation,
}
use functions_invoker.Batcher.Kept.{IsBatch, joined, documents, run-keeps}
use functions_invoker.Batcher.Ids.{id_field, write_activation-id}

abbrev events : List WorkerEvent
events = taken (codes "a") ∷ taken (codes "b") ∷ ticked ∷ taken (codes "c") ∷ []

events_batches : run events new_worker ≡ (codes "a" ∷ codes "b" ∷ []) ∷ (codes "c" ∷ []) ∷ []
unfolding run on_event take_document add64
events_batches = refl

run-keeps_example :
    (joined (run events new_worker) ≡ documents events) × All IsBatch (run events new_worker)
run-keeps_example = run-keeps events (omega arith, (omega arith, (tt, (omega arith, tt))))

abbrev marshal : Activation → Option Text
marshal a = some (codes "{\"x\":1}")

abbrev begun : Activation
begun = new_activation hello_message 7

write_activation-id_example :
    write_activation marshal begun
    ≡ some (codes "{" ++ (codes "\"x\":1" ++ (id_field begun ++ codes "}")))
write_activation-id_example = write_activation-id marshal begun (codes "\"x\":1") refl
