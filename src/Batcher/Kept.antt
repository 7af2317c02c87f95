-- ===== src/Batcher/Kept.antt =====
-- The batches hold what the worker took (pkg/couchdb/batcher.go).
use mathlib.Core.List.{append_assoc, append-nil}
use functions_invoker.Base.{
  ◌+◌, ◌≤◌, ◌<◌, ◌≡◌, ◌≢◌, ◌⊎◌, inl, inr, refl, sym, ap, subst, ◌∙◌, Bool-cases, List, [], ◌∷◌,
  ◌++◌, arith, length, sum_by, sum_by-append, add64, add64_exact, u64_mod, All, ltb, ltb-false,
}
use functions_invoker.Entities.{Text}
use functions_invoker.Batcher.{
  Worker, new_worker, flush, take_document, WorkerEvent, taken, ticked, on_event, run, flush_bytes,
}

unfoldable pub documents : List WorkerEvent → List Text
documents [] = []
documents (taken bs ∷ es) = bs ∷ documents es
documents (ticked ∷ es) = documents es

unfoldable pub joined : List (List Text) → List Text
joined [] = []
joined (b ∷ bs) = b ++ joined bs

-- A batch is not empty, and its bytes are within the limit unless it is one document.
abbrev pub IsBatch : List Text → Type 0
IsBatch b = (b ≢ []) × ((sum_by length b ≤ flush_bytes) ⊎ (length b ≡ 1))

-- No document comes near the machine word.
abbrev pub IsSmall : WorkerEvent → Type 0
IsSmall (taken bs) = length bs + length bs + flush_bytes < u64_mod
IsSmall ticked = Unit

-- The batch that grows: its size is right, and it is within the limit unless it is one document.
record Grows (w : Worker) : Type 0 where
  size : w.batch_size ≡ sum_by length w.batch
  small : (w.batch_size ≤ flush_bytes) ⊎ (length w.batch ≡ 1)
  word : w.batch_size + w.batch_size + flush_bytes < u64_mod

joined-append : (bs cs : List (List Text)) → joined (bs ++ cs) ≡ joined bs ++ joined cs
unfolding joined
joined-append [] cs = refl
joined-append (b ∷ bs) cs =
    ap (λ (l : List Text). b ++ l) (joined-append bs cs)
    ∙ sym (append_assoc b (joined bs) (joined cs))

All-append : (bs cs : List (List Text)) → All IsBatch bs → All IsBatch cs → All IsBatch (bs ++ cs)
All-append [] cs h k = k
All-append (b ∷ bs) cs h k = (h.0, All-append bs cs h.1 k)

flush-joined : (w : Worker) → joined (flush w).1 ++ (flush w).0.batch ≡ w.batch
unfolding flush joined
flush-joined w = go w.batch refl
  where
    go : (b : List Text) → w.batch ≡ b → joined (flush w).1 ++ (flush w).0.batch ≡ w.batch
    go [] e = rw (e, flush) e
    go (x ∷ xs) e = rw (e, flush, joined) (append-nil _ ∙ append-nil _)

flush-Grows : (w : Worker) → Grows w → Grows (flush w).0
unfolding flush
flush-Grows w g = go w.batch refl
  where
    go : (b : List Text) → w.batch ≡ b → Grows (flush w).0
    go [] e = rw (e, flush) g
    go (x ∷ xs) e =
        rw (e, flush) (record { size = refl; small = inl (omega arith); word = omega arith })

flush-empty : (w : Worker) → Grows w → ((flush w).0.batch ≡ []) × ((flush w).0.batch_size ≡ 0)
unfolding flush
flush-empty w g = go w.batch refl
  where
    go : (b : List Text) → w.batch ≡ b → ((flush w).0.batch ≡ []) × ((flush w).0.batch_size ≡ 0)
    go [] e = rw (flush, e) (e, g.size ∙ ap (λ b. sum_by length b) e)
    go (x ∷ xs) e = rw (flush, e) (refl, refl)

flush-IsBatch : (w : Worker) → Grows w → All IsBatch (flush w).1
unfolding flush
flush-IsBatch w g = go w.batch refl
  where
    small : (sum_by length w.batch ≤ flush_bytes) ⊎ (length w.batch ≡ 1)
    small = elim g.small [ inl h ↦ inl (omega (arith, g.size, h)) | inr h ↦ inr h ]

    go : (b : List Text) → w.batch ≡ b → All IsBatch (flush w).1
    go [] e = rw (e, flush) tt
    go (x ∷ xs) e =
        rw (e, flush)
          (((λ q. cc), subst (λ b. (sum_by length b ≤ flush_bytes) ⊎ (length b ≡ 1)) e small), tt)

-- One document: the size before it is appended leaves room, or the batch is empty.
take_document-Grows :
    (bs : Text) (w : Worker) → IsSmall (taken bs) → Grows w → Grows (take_document bs w).0
unfolding take_document
take_document-Grows bs w s g =
    elim (Bool-cases (ltb flush_bytes (add64 w.batch_size (length bs)))) [
      | inl y ↦
          rw (y, (flush-empty w g).0, (flush-empty w g).1)
            (record {
              size = rw (add64_exact 0 (length bs) (omega (arith, s))) (omega arith);
              small = inr refl;
              word = rw (add64_exact 0 (length bs) (omega (arith, s))) (omega (arith, s));
            })
      | inr n ↦ rw n (record {
        size = rw total (omega (arith, g.size, sum_by-append length w.batch (bs ∷ [])));
        small = inl (ltb-false _ _ n);
        word = omega (arith, ltb-false _ _ n);
      })
    ]
  where
    total : add64 w.batch_size (length bs) ≡ w.batch_size + length bs
    total = add64_exact w.batch_size (length bs) (omega (arith, s, g.word))

on_event-Grows : (e : WorkerEvent) (w : Worker) → IsSmall e → Grows w → Grows (on_event e w).0
unfolding on_event
on_event-Grows (taken bs) w s g = take_document-Grows bs w s g
on_event-Grows ticked w s g = flush-Grows w g

on_event-IsBatch : (e : WorkerEvent) (w : Worker) → Grows w → All IsBatch (on_event e w).1
unfolding on_event take_document
on_event-IsBatch (taken bs) w g =
    elim (Bool-cases (ltb flush_bytes (add64 w.batch_size (length bs)))) [
      | inl y ↦ rw y (flush-IsBatch w g)
      | inr n ↦ rw n tt
    ]
on_event-IsBatch ticked w g = flush-IsBatch w g

take_document-joined :
    (bs : Text) (w : Worker)
    → joined (take_document bs w).1 ++ (take_document bs w).0.batch ≡ w.batch ++ bs ∷ []
unfolding take_document
take_document-joined bs w = elim (Bool-cases (ltb flush_bytes (add64 w.batch_size (length bs)))) [
  | inl y ↦ rw y (
      sym (append_assoc (joined (flush w).1) (flush w).0.batch (bs ∷ []))
      ∙ ap (λ (l : List Text). l ++ bs ∷ []) (flush-joined w))
  | inr n ↦ rw n (unfold joined in refl)
]

-- The batches together are what was in the batch, then what is taken.
run-joined : (es : List WorkerEvent) (w : Worker) → joined (run es w) ≡ w.batch ++ documents es
unfolding run documents on_event flush joined
run-joined [] w = go w.batch refl
  where
    go : (b : List Text) → w.batch ≡ b → joined (run [] w) ≡ w.batch ++ []
    go [] e = rw (run, flush, e, joined) refl
    go (x ∷ xs) e = rw (run, flush, e, joined) refl
run-joined (taken bs ∷ es) w =
    joined-append (take_document bs w).1 (run es (take_document bs w).0)
    ∙ (ap (λ (l : List Text). joined (take_document bs w).1 ++ l)
          (run-joined es (take_document bs w).0)
        ∙ (sym (
              append_assoc (joined (take_document bs w).1) (take_document bs w).0.batch
                (documents es))
            ∙ (ap (λ (l : List Text). l ++ documents es) (take_document-joined bs w)
                ∙ append_assoc w.batch (bs ∷ []) (documents es))))
run-joined (ticked ∷ es) w =
    joined-append (flush w).1 (run es (flush w).0)
    ∙ (ap (λ (l : List Text). joined (flush w).1 ++ l) (run-joined es (flush w).0)
        ∙ (sym (append_assoc (joined (flush w).1) (flush w).0.batch (documents es))
            ∙ ap (λ (l : List Text). l ++ documents es) (flush-joined w)))

run-IsBatch :
    (es : List WorkerEvent) (w : Worker) → All IsSmall es → Grows w → All IsBatch (run es w)
unfolding run
run-IsBatch [] w s g = flush-IsBatch w g
run-IsBatch (e ∷ es) w s g =
    All-append (on_event e w).1 (run es (on_event e w).0) (on_event-IsBatch e w g)
      (run-IsBatch es (on_event e w).0 s.1 (on_event-Grows e w s.0 g))

-- Whenever the ticker fires between the documents that a worker takes, by the end of its run it has
-- handed every document to the client exactly once and in order; no batch is empty, and none is
-- over 5 MB unless it is a single document. Documents are far shorter than a machine word counts.
pub run-keeps :
    (es : List WorkerEvent)
    → All IsSmall es
    → (joined (run es new_worker) ≡ documents es) × All IsBatch (run es new_worker)
run-keeps es s = (
  run-joined es new_worker,
  run-IsBatch es new_worker s
      (record { size = refl; small = inl (omega arith); word = omega arith }),
)
