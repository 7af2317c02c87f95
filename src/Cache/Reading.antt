-- ===== src/Cache/Reading.antt =====
-- What the calls of the cache return, and which entries it has (pkg/entities/function_cache.go).
use mathlib.Core.Logic.{◌≢◌}
use mathlib.Core.Option.{some-injective}
use functions_invoker.Base.{
  subst, ap, sym, ◌∙◌, refl, ℕ, Bool, true, false, Option, none, some, ◌≡◌, ◌⊎◌, inl, inr, refl,
  Bool-cases, Fallible, fine, erred,
}
use functions_invoker.Entities.{Function}
use functions_invoker.Cache.{
  CacheKey, same_key, Entry, unused, fresh, running, over, Call, idle, missed, locked, adding,
  attached, returned, Cached, set, add_entry, remove_entry, after_read, first_look, second_look,
  CacheStep, looks, locks, looks_again, adds, runs, reads_over, returns, new_cache, Caching, opens,
  next,
}
use functions_invoker.Cache.Entries.{
  same_key-same, same_key_refl, set-cases, set-same, key_of, is_failed,
}

module _ (Answers : CacheKey → Fallible Function → Type 0) where
  -- A call has an entry for its key, or has returned an answer for its key.
  abbrev CallFits : (ℕ → Entry) → Call → Type 0
  CallFits entries idle = Unit
  CallFits entries (missed k) = Unit
  CallFits entries (locked k) = Unit
  CallFits entries (adding k) = Unit
  CallFits entries (attached id k) = key_of (entries id) ≡ some k
  CallFits entries (returned k result) = Answers k result

  abbrev EntryFits : Entry → Type 0
  EntryFits unused = Unit
  EntryFits (fresh k) = Unit
  EntryFits (running k) = Unit
  EntryFits (over k result) = Answers k result

  -- The cache has for a key nothing, or an entry for that key that has not failed.
  abbrev SlotFits : (ℕ → Entry) → CacheKey → Option ℕ → Type 0
  SlotFits entries k none = Unit
  SlotFits entries k (some id) = (key_of (entries id) ≡ some k) × (is_failed (entries id) ≡ false)

  abbrev Fits : Cached → Type 0
  Fits s =
      ((c : ℕ) → CallFits s.entries (s.calls c))
      × ((id : ℕ) → EntryFits (s.entries id))
      × ((k : CacheKey) → SlotFits s.entries k (s.cache k))

  set-All {ℓ κ} :
      {A : Type ℓ} (P : A → Type κ) (i : ℕ) (a : A) (f : ℕ → A)
      → P a
      → ((j : ℕ) → P (f j))
      → (j : ℕ) → P (set i a f j)
  set-All P i a f pa pf j = elim (set-cases i a f j) [
    | inl here ↦ rw here.1 pa
    | inr there ↦ rw there.1 (pf j)
  ]

  -- An entry keeps its key when it changes.
  key_of-set :
      (entries : ℕ → Entry) (id j : ℕ) (e : Entry) (k : CacheKey)
      → (key_of (entries id) ≡ none) ⊎ (key_of (entries id) ≡ key_of e)
      → key_of (entries j) ≡ some k
      → key_of (set id e entries j) ≡ some k
  key_of-set entries id j e k old h = elim (set-cases id e entries j) [
    | inr there ↦ rw there.1 h
    | inl here ↦ rw here.1 (
        let at_id : key_of (entries id) ≡ some k = rw here.0 at h in
        elim old [ inl none_there ↦ cc | inr same ↦ cc ])
  ]

  module _ (entries : ℕ → Entry) (id : ℕ) (e : Entry)
      (old : (key_of (entries id) ≡ none) ⊎ (key_of (entries id) ≡ key_of e)) where
    CallFits-set : (call : Call) → CallFits entries call → CallFits (set id e entries) call
    CallFits-set idle h = tt
    CallFits-set (missed k) h = tt
    CallFits-set (locked k) h = tt
    CallFits-set (adding k) h = tt
    CallFits-set (attached j k) h = key_of-set entries id j e k old h
    CallFits-set (returned k result) h = h

    SlotFits-set :
        (k : CacheKey) (slot : Option ℕ)
        → is_failed e ≡ false
        → SlotFits entries k slot
        → SlotFits (set id e entries) k slot
    SlotFits-set k none fine_entry h = tt
    SlotFits-set k (some j) fine_entry h = (
      key_of-set entries id j e k old h.0,
      elim (set-cases id e entries j) [
        | inl here ↦ rw here.1 fine_entry
        | inr there ↦ rw there.1 h.1
      ],
    )

    -- After a failure, the other keys have other entries.
    SlotFits-other :
        (j k : CacheKey) (slot : Option ℕ)
        → key_of (entries id) ≡ some j
        → j ≢ k
        → SlotFits entries k slot
        → SlotFits (set id e entries) k slot
    SlotFits-other j k none h other fits = tt
    SlotFits-other j k (some i) h other fits = (
      key_of-set entries id i e k old fits.0,
      elim (set-cases id e entries i) [
        | inl here ↦ absurd (other (some-injective _ _ (sym h ∙ (rw here.0 at fits.0))))
        | inr there ↦ rw there.1 fits.1
      ],
    )

  first_look-Fits :
      (entries : ℕ → Entry) (k : CacheKey) (slot : Option ℕ)
      → SlotFits entries k slot
      → CallFits entries (first_look k slot)
  unfolding first_look
  first_look-Fits entries k none h = tt
  first_look-Fits entries k (some id) h = h.0

  second_look-Fits :
      (entries : ℕ → Entry) (c : ℕ) (k : CacheKey) (slot : Option ℕ)
      → SlotFits entries k slot
      → CallFits entries (second_look c k slot).0
  unfolding second_look
  second_look-Fits entries c k none h = tt
  second_look-Fits entries c k (some id) h = h.0

  add_entry-Fits :
      (entries : ℕ → Entry) (cache : CacheKey → Option ℕ) (is_kept : CacheKey → Bool) (id : ℕ)
      (j k : CacheKey)
      → (key_of (entries id) ≡ some j) × (is_failed (entries id) ≡ false)
      → SlotFits entries k (cache k)
      → SlotFits entries k (add_entry j id is_kept cache k)
  unfolding add_entry
  add_entry-Fits entries cache is_kept id j k here fits = elim (Bool-cases (same_key k j)) [
    | inl y ↦ rw y (here.0 ∙ ap some (sym (same_key-same k j y)), here.1)
    | inr n ↦ elim (Bool-cases (is_kept k)) [
      | inl kept ↦ rw (n, kept) fits
      | inr evicted ↦ rw (n, evicted) tt
    ]
  ]

  after_read-Fits :
      (s : Cached) (id : ℕ) (j k : CacheKey) (result : Fallible Function)
      → s.entries id ≡ running j
      → SlotFits s.entries k (s.cache k)
      → SlotFits (set id (over j result) s.entries) k (after_read j result s.cache k)
  unfolding after_read remove_entry
  after_read-Fits s id j k (fine f) h fits =
      SlotFits-set s.entries id (over j (fine f)) (inr (ap key_of h)) k (s.cache k) refl fits
  after_read-Fits s id j k (erred error) h fits = elim (Bool-cases (same_key k j)) [
    | inl y ↦ rw y tt
    | inr n ↦ rw n (
        SlotFits-other s.entries id (over j (erred error)) (inr (ap key_of h)) j k (s.cache k)
          (ap key_of h)
          (λ e. let same : same_key k j ≡ true = ap (λ x. same_key k x) e ∙ same_key_refl k in cc)
          fits)
  ]

  step-Fits :
      (is_kept : CacheKey → Bool) (s t : Cached) → Fits s → CacheStep Answers is_kept s t → Fits t
  step-Fits is_kept _ _ (calls, entries, slots) (looks s c k h) = (
    set-All (CallFits s.entries) c _ s.calls (first_look-Fits s.entries k (s.cache k) (slots k))
        calls,
    entries,
    slots,
  )
  step-Fits is_kept _ _ (calls, entries, slots) (locks s c k h free) =
      (set-All (CallFits s.entries) c (locked k) s.calls tt calls, entries, slots)
  step-Fits is_kept _ _ (calls, entries, slots) (looks_again s c k h) = (
    set-All (CallFits s.entries) c _ s.calls (second_look-Fits s.entries c k (s.cache k) (slots k))
        calls,
    entries,
    slots,
  )
  step-Fits is_kept _ _ (calls, entries, slots) (adds s c id k h unused_id) =
      let old : (key_of (s.entries id) ≡ none) ⊎ (key_of (s.entries id) ≡ some k) =
        inl (ap key_of unused_id) in
      let here : set id (fresh k) s.entries id ≡ fresh k = set-same id (fresh k) s.entries in
      (
        set-All (CallFits (set id (fresh k) s.entries)) c (attached id k) s.calls (ap key_of here)
            (λ j. CallFits-set s.entries id (fresh k) old (s.calls j) (calls j)),
        set-All EntryFits id (fresh k) s.entries tt entries,
        λ j.
            add_entry-Fits (set id (fresh k) s.entries) s.cache is_kept id k j
              (ap key_of here, ap (λ x. is_failed x) here)
              (SlotFits-set s.entries id (fresh k) old j (s.cache j) refl (slots j)),
      )
  step-Fits is_kept _ _ (calls, entries, slots) (runs s c id k h at_id) = (
    λ j. CallFits-set s.entries id (running k) (inr (ap key_of at_id)) (s.calls j) (calls j),
    set-All EntryFits id (running k) s.entries tt entries,
    λ j. SlotFits-set s.entries id (running k) (inr (ap key_of at_id)) j (s.cache j) refl (slots j),
  )
  step-Fits is_kept _ _ (calls, entries, slots) (reads_over s id k result at_id answer) = (
    λ j. CallFits-set s.entries id (over k result) (inr (ap key_of at_id)) (s.calls j) (calls j),
    set-All EntryFits id (over k result) s.entries answer entries,
    λ j. after_read-Fits s id k j result at_id (slots j),
  )
  step-Fits is_kept _ _ (calls, entries, slots) (returns s c id j k result h at_id) =
      let key : key_of (s.entries id) ≡ some j = rw h at (calls c) in
      let same : k ≡ j = some-injective _ _ (sym (ap key_of at_id) ∙ key) in
      let answer : Answers k result = rw at_id at (entries id) in
      (
        set-All (CallFits s.entries) c (returned j result) s.calls
            (subst (λ x. Answers x result) same answer) calls,
        entries,
        slots,
      )

  new_cache-Fits : Fits new_cache
  new_cache-Fits = (λ c. tt, λ id. tt, λ k. tt)

  module _ (MayKeep : (CacheKey → Bool) → Type 0) where
    Caching-Fits : (s : Cached) → Caching Answers MayKeep s → Fits s
    Caching-Fits _ opens = new_cache-Fits
    Caching-Fits _ (next s t is_kept run may step) = step-Fits is_kept s t (Caching-Fits s run) step

    -- However the calls interleave, and whatever the cache evicts: a call that has returned has a result
    -- that the reader gave for the name and the revision of the call.
    pub Caching-returns :
        (s : Cached) (c : ℕ) (k : CacheKey) (result : Fallible Function)
        → Caching Answers MayKeep s
        → s.calls c ≡ returned k result
        → Answers k result
    Caching-returns s c k result run h = rw h at ((Caching-Fits s run).0 c)

    -- However the calls interleave, and whatever the cache evicts: the cache has for a key only an entry
    -- of that key that has not failed, so that no error is kept.
    pub Caching-keeps :
        (s : Cached) (k : CacheKey) (id : ℕ)
        → Caching Answers MayKeep s
        → s.cache k ≡ some id
        → (key_of (s.entries id) ≡ some k) × (is_failed (s.entries id) ≡ false)
    Caching-keeps s k id run h = rw h at ((Caching-Fits s run).2 k)
