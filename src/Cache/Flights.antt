-- ===== src/Cache/Flights.antt =====
-- One read at a time (pkg/entities/function_cache.go): as long as nothing is evicted, there is one entry
-- for a key until its read fails.
use mathlib.Core.Logic.{◌≢◌}
use mathlib.Core.Option.{some-injective}
use functions_invoker.Base.{
  ℕ, Bool, true, false, Option, none, some, ◌≡◌, inl, inr, refl, sym, ◌∙◌, ap, Bool-cases, Fallible,
  fine, erred,
}
use functions_invoker.Entities.{Function}
use functions_invoker.Cache.{
  CacheKey, same_key, Entry, unused, fresh, running, over, Call, idle, missed, locked, adding,
  attached, returned, Cached, set, add_entry, remove_entry, after_read, first_look, second_look,
  CacheStep, looks, locks, looks_again, adds, runs, reads_over, returns, Caching, opens, next,
}
use functions_invoker.Cache.Entries.{same_key-same, same_key_refl, set-cases, key_of, is_failed}

-- Nothing is evicted.
abbrev pub KeepsAll : (CacheKey → Bool) → Type 0
KeepsAll is_kept = (k : CacheKey) → is_kept k ≡ true

-- A call that looks again or adds holds the mutex, and one that adds has found nothing.
abbrev Guarded : (CacheKey → Option ℕ) → Option ℕ → (c : ℕ) → Call → Type 0
Guarded cache mux c idle = Unit
Guarded cache mux c (missed k) = Unit
Guarded cache mux c (locked k) = mux ≡ some c
Guarded cache mux c (adding k) = (mux ≡ some c) × (cache k ≡ none)
Guarded cache mux c (attached id k) = Unit
Guarded cache mux c (returned k result) = Unit

-- The cache has every entry that has not failed.
abbrev Listed : (CacheKey → Option ℕ) → ℕ → Entry → Type 0
Listed cache id unused = Unit
Listed cache id (fresh k) = cache k ≡ some id
Listed cache id (running k) = cache k ≡ some id
Listed cache id (over k (fine f)) = cache k ≡ some id
Listed cache id (over k (erred error)) = Unit

abbrev Single : Cached → Type 0
Single s =
    ((c : ℕ) → Guarded s.cache s.mux c (s.calls c)) × ((id : ℕ) → Listed s.cache id (s.entries id))

set-Each {ℓ κ} :
    {A : Type ℓ} (P : ℕ → A → Type κ) (i : ℕ) (a : A) (f : ℕ → A)
    → P i a
    → ((j : ℕ) → j ≢ i → P j (f j))
    → (j : ℕ) → P j (set i a f j)
set-Each P i a f pa pf j = elim (set-cases i a f j) [
  | inl here ↦ rw (here.1, here.0) pa
  | inr there ↦ rw there.1 (pf j there.0)
]

-- Nobody but its holder has the mutex.
Guarded-other :
    (cache cache' : CacheKey → Option ℕ) (mux mux' : Option ℕ) (c j : ℕ) (call : Call)
    → mux ≡ some c
    → j ≢ c
    → Guarded cache mux j call
    → Guarded cache' mux' j call
Guarded-other cache cache' mux mux' c j idle h other g = tt
Guarded-other cache cache' mux mux' c j (missed k) h other g = tt
Guarded-other cache cache' mux mux' c j (locked k) h other g =
    absurd (other (some-injective _ _ (sym g ∙ h)))
Guarded-other cache cache' mux mux' c j (adding k) h other g =
    absurd (other (some-injective _ _ (sym g.0 ∙ h)))
Guarded-other cache cache' mux mux' c j (attached id k) h other g = tt
Guarded-other cache cache' mux mux' c j (returned k result) h other g = tt

-- Nobody is guarded by a free mutex.
Guarded-free :
    (cache : CacheKey → Option ℕ) (mux mux' : Option ℕ) (j : ℕ) (call : Call)
    → mux ≡ none
    → Guarded cache mux j call
    → Guarded cache mux' j call
Guarded-free cache mux mux' j idle h g = tt
Guarded-free cache mux mux' j (missed k) h g = tt
Guarded-free cache mux mux' j (locked k) h g = cc
Guarded-free cache mux mux' j (adding k) h g = cc
Guarded-free cache mux mux' j (attached id k) h g = tt
Guarded-free cache mux mux' j (returned k result) h g = tt

Guarded-remove :
    (cache : CacheKey → Option ℕ) (mux : Option ℕ) (k : CacheKey) (j : ℕ) (call : Call)
    → Guarded cache mux j call
    → Guarded (remove_entry k cache) mux j call
unfolding remove_entry
Guarded-remove cache mux k j idle g = tt
Guarded-remove cache mux k j (missed i) g = tt
Guarded-remove cache mux k j (locked i) g = g
Guarded-remove cache mux k j (adding i) g =
    (g.0, elim (Bool-cases (same_key i k)) [ inl y ↦ rw y refl | inr n ↦ rw n g.1 ])
Guarded-remove cache mux k j (attached id i) g = tt
Guarded-remove cache mux k j (returned i result) g = tt

-- An entry is listed if the cache has its number for its key.
Listed-slot :
    (cache cache' : CacheKey → Option ℕ) (id : ℕ) (e : Entry)
    → ((k : CacheKey) → cache k ≡ some id → cache' k ≡ some id)
    → Listed cache id e
    → Listed cache' id e
Listed-slot cache cache' id unused keep h = tt
Listed-slot cache cache' id (fresh k) keep h = keep k h
Listed-slot cache cache' id (running k) keep h = keep k h
Listed-slot cache cache' id (over k (fine f)) keep h = keep k h
Listed-slot cache cache' id (over k (erred error)) keep h = tt

Listed-unfailed :
    (cache : CacheKey → Option ℕ) (id : ℕ) (e : Entry) (k : CacheKey)
    → Listed cache id e
    → key_of e ≡ some k
    → is_failed e ≡ false
    → cache k ≡ some id
Listed-unfailed cache id unused k h key live = cc
Listed-unfailed cache id (fresh j) k h key live = ap cache (some-injective _ _ (sym key)) ∙ h
Listed-unfailed cache id (running j) k h key live = ap cache (some-injective _ _ (sym key)) ∙ h
Listed-unfailed cache id (over j (fine f)) k h key live =
    ap cache (some-injective _ _ (sym key)) ∙ h
Listed-unfailed cache id (over j (erred error)) k h key live = cc

module _ (Answers : CacheKey → Fallible Function → Type 0) (is_kept : CacheKey → Bool)
    (keeps : KeepsAll is_kept) where
  kept_slot :
      (cache : CacheKey → Option ℕ) (k j : CacheKey) (id i : ℕ)
      → cache k ≡ none
      → cache j ≡ some i
      → add_entry k id is_kept cache j ≡ some i
  unfolding add_entry
  kept_slot cache k j id i empty h = elim (Bool-cases (same_key j k)) [
    | inl y ↦ absurd (let e : j ≡ k = same_key-same j k y in let same = ap cache e in cc)
    | inr n ↦ rw (n, keeps j) h
  ]

  second_look-Single :
      (s : Cached) (c : ℕ) (k : CacheKey) (slot : Option ℕ)
      → s.cache k ≡ slot
      → s.mux ≡ some c
      → ((j : ℕ) → Guarded s.cache s.mux j (s.calls j))
      → (j : ℕ)
      → Guarded s.cache (second_look c k slot).1 j (set c (second_look c k slot).0 s.calls j)
  unfolding second_look
  second_look-Single s c k none e mine g =
      set-Each (λ j call. Guarded s.cache (some c) j call) c (adding k) s.calls (refl, e)
        (λ j other. Guarded-other s.cache s.cache s.mux (some c) c j (s.calls j) mine other (g j))
  second_look-Single s c k (some id) e mine g =
      set-Each (λ j call. Guarded s.cache none j call) c (attached id k) s.calls tt
        (λ j other. Guarded-other s.cache s.cache s.mux none c j (s.calls j) mine other (g j))

  first_look-Guarded :
      (cache : CacheKey → Option ℕ) (mux : Option ℕ) (c : ℕ) (k : CacheKey) (slot : Option ℕ)
      → Guarded cache mux c (first_look k slot)
  unfolding first_look
  first_look-Guarded cache mux c k none = tt
  first_look-Guarded cache mux c k (some id) = tt

  added_slot :
      (cache : CacheKey → Option ℕ) (k : CacheKey) (id : ℕ)
      → add_entry k id is_kept cache k ≡ some id
  unfolding add_entry
  added_slot cache k id = rw (same_key_refl k) refl

  removed_slot :
      (s : Cached) (k : CacheKey) (id i : ℕ) (j : CacheKey)
      → s.cache k ≡ some id
      → i ≢ id
      → s.cache j ≡ some i
      → remove_entry k s.cache j ≡ some i
  unfolding remove_entry
  removed_slot s k id i j mine other h = elim (Bool-cases (same_key j k)) [
    | inl y ↦
        absurd (other (some-injective _ _ (sym h ∙ (ap s.cache (same_key-same j k y) ∙ mine))))
    | inr n ↦ rw n h
  ]

  after_read-Single :
      (s : Cached) (id : ℕ) (k : CacheKey) (result : Fallible Function)
      → s.entries id ≡ running k
      → Single s
      → Single (record s {
        cache = after_read k result s.cache;
        entries = set id (over k result) s.entries;
      })
  unfolding after_read
  after_read-Single s id k (fine f) h (calls, entries) =
      let mine : s.cache k ≡ some id = rw h at (entries id) in
      (calls, set-Each (Listed s.cache) id (over k (fine f)) s.entries mine (λ j other. entries j))
  after_read-Single s id k (erred error) h (calls, entries) =
      let mine : s.cache k ≡ some id = rw h at (entries id) in
      (
        λ c. Guarded-remove s.cache s.mux k c (s.calls c) (calls c),
        set-Each (Listed (remove_entry k s.cache)) id (over k (erred error)) s.entries tt
            (λ i other.
              Listed-slot s.cache (remove_entry k s.cache) i (s.entries i)
                (λ j at_j. removed_slot s k id i j mine other at_j) (entries i)),
      )

  step-Single : (s t : Cached) → Single s → CacheStep Answers is_kept s t → Single t
  step-Single _ _ (calls, entries) (looks s c k h) = (
    set-Each (Guarded s.cache s.mux) c _ s.calls (first_look-Guarded s.cache s.mux c k (s.cache k))
        (λ j other. calls j),
    entries,
  )
  step-Single _ _ (calls, entries) (locks s c k h free) = (
    set-Each (Guarded s.cache (some c)) c (locked k) s.calls refl
        (λ j other. Guarded-free s.cache s.mux (some c) j (s.calls j) free (calls j)),
    entries,
  )
  step-Single _ _ (calls, entries) (looks_again s c k h) =
      let mine : s.mux ≡ some c = rw h at (calls c) in
      (second_look-Single s c k (s.cache k) refl mine calls, entries)
  step-Single _ _ (calls, entries) (adds s c id k h unused_id) =
      let (mine, empty) : (s.mux ≡ some c) × (s.cache k ≡ none) = rw h at (calls c) in
      let cache : CacheKey → Option ℕ = add_entry k id is_kept s.cache in
      (
        set-Each (Guarded cache none) c (attached id k) s.calls tt (λ j other.
            Guarded-other s.cache cache s.mux none c j (s.calls j) mine other (calls j)),
        set-Each (Listed cache) id (fresh k) s.entries (added_slot s.cache k id) (λ i other.
            Listed-slot s.cache cache i (s.entries i)
              (λ j at_j. kept_slot s.cache k j id i empty at_j) (entries i)),
      )
  step-Single _ _ (calls, entries) (runs s c id k h at_id) =
      let mine : s.cache k ≡ some id = rw at_id at (entries id) in
      (calls, set-Each (Listed s.cache) id (running k) s.entries mine (λ j other. entries j))
  step-Single _ _ single (reads_over s id k result at_id answer) =
      after_read-Single s id k result at_id single
  step-Single _ _ (calls, entries) (returns s c id j k result h at_id) = (
    set-Each (Guarded s.cache s.mux) c (returned j result) s.calls tt (λ i other. calls i),
    entries,
  )

module _ (Answers : CacheKey → Fallible Function → Type 0) where
  Caching-Single : (s : Cached) → Caching Answers KeepsAll s → Single s
  Caching-Single _ opens = (λ c. tt, λ id. tt)
  Caching-Single _ (next s t is_kept run keeps step) =
      step-Single Answers is_kept keeps s t (Caching-Single s run) step

  -- As long as nothing is evicted, there are never two entries for a key that have not failed, however the
  -- calls interleave: the reader is not asked again for a key before it has failed for it.
  pub Caching-single :
      (s : Cached) (i j : ℕ) (k : CacheKey)
      → Caching Answers KeepsAll s
      → key_of (s.entries i) ≡ some k
      → key_of (s.entries j) ≡ some k
      → is_failed (s.entries i) ≡ false
      → is_failed (s.entries j) ≡ false
      → i ≡ j
  Caching-single s i j k run at_i at_j live_i live_j =
      let entries = (Caching-Single s run).1 in
      some-injective _ _ (
        sym (Listed-unfailed s.cache i (s.entries i) k (entries i) at_i live_i)
        ∙ Listed-unfailed s.cache j (s.entries j) k (entries j) at_j live_j)
