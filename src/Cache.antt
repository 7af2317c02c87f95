-- ===== src/Cache.antt =====
-- The cache of functions (pkg/entities/function_cache.go). Calls of GetFunction interleave; each step of
-- a call is one of its accesses to the cache, the mutex or its entry. The LRU cache is another library:
-- an addition to it may evict any other entries.
use functions_invoker.Base.{
  ℕ, Bool, true, false, ◌&&◌, String, str_eq, str_eq_iff, Option, none, some, ◌≡◌, ◌↔◌, refl, ◌==◌,
  if◌then◌else◌, Fallible, fine, erred, arith,
}
use functions_invoker.Entities.{Function}
pub mod Entries
pub mod Reading
pub mod Flights
mod Tests

pub record CacheKey : Type 0 where
  pub name : String
  pub revision : String

unfoldable pub same_key : CacheKey → CacheKey → Bool
same_key j k = str_eq j.name k.name && str_eq j.revision k.revision

-- An entry, `sync.OnceValues` of the read: nobody has called it, its first caller reads, or the read is
-- over. The numbers of entries stand for their addresses.
pub data Entry : Type 0 where
  unused : Entry
  fresh : CacheKey → Entry
  running : CacheKey → Entry
  over : CacheKey → Fallible Function → Entry

-- A call: not begun; has missed, and waits for the mutex; holds it, before the second look; holds it,
-- before the addition; has an entry; has returned.
pub data Call : Type 0 where
  idle : Call
  missed : CacheKey → Call
  locked : CacheKey → Call
  adding : CacheKey → Call
  attached : (id : ℕ) → CacheKey → Call
  returned : CacheKey → Fallible Function → Call

-- `mux` has the number of the call that holds it.
pub record Cached : Type 0 where
  pub cache : CacheKey → Option ℕ
  pub mux : Option ℕ
  pub entries : ℕ → Entry
  pub calls : ℕ → Call

unfoldable pub set {ℓ} : {A : Type ℓ} → ℕ → A → (ℕ → A) → ℕ → A
set i a f j = if j == i then a else f j

-- `cache.Add`, with the keys that are not evicted.
unfoldable pub add_entry :
    CacheKey → ℕ → (is_kept : CacheKey → Bool) → (CacheKey → Option ℕ) → CacheKey → Option ℕ
unfolding same_key
add_entry k id is_kept cache j =
    if same_key j k then some id else if is_kept j then cache j else none

-- `cache.Remove`.
unfoldable pub remove_entry : CacheKey → (CacheKey → Option ℕ) → CacheKey → Option ℕ
unfolding same_key
remove_entry k cache j = if same_key j k then none else cache j

-- The entry's function after the read: an error removes what the cache has for the key.
unfoldable pub after_read :
    CacheKey → Fallible Function → (CacheKey → Option ℕ) → CacheKey → Option ℕ
unfolding remove_entry
after_read k (fine f) cache = cache
after_read k (erred error) cache = remove_entry k cache

-- A call after its first look into the cache.
unfoldable pub first_look : CacheKey → Option ℕ → Call
first_look k none = missed k
first_look k (some id) = attached id k

-- A call after its second look, and the mutex.
unfoldable pub second_look : (call : ℕ) → CacheKey → Option ℕ → Call × Option ℕ
second_look c k none = (adding k, some c)
second_look c k (some id) = (attached id k, none)

-- The steps of the calls. `Answers` is what the reader may return for a key.
pub data CacheStep (Answers : CacheKey → Fallible Function → Type 0) (is_kept : CacheKey → Bool)
    : Cached → Cached → Type 0 where
  looks :
      (s : Cached) (c : ℕ) (k : CacheKey)
      → s.calls c ≡ idle
      → CacheStep Answers is_kept s (record s { calls = set c (first_look k (s.cache k)) s.calls })
  locks :
      (s : Cached) (c : ℕ) (k : CacheKey)
      → s.calls c ≡ missed k
      → s.mux ≡ none
      → CacheStep Answers is_kept s (record s { mux = some c; calls = set c (locked k) s.calls })
  looks_again :
      (s : Cached) (c : ℕ) (k : CacheKey)
      → s.calls c ≡ locked k
      → CacheStep Answers is_kept s (record s {
        mux = (second_look c k (s.cache k)).1;
        calls = set c (second_look c k (s.cache k)).0 s.calls;
      })
  adds :
      (s : Cached) (c id : ℕ) (k : CacheKey)
      → s.calls c ≡ adding k
      → s.entries id ≡ unused
      → CacheStep Answers is_kept s (record {
        cache = add_entry k id is_kept s.cache;
        mux = none;
        entries = set id (fresh k) s.entries;
        calls = set c (attached id k) s.calls;
      })
  runs :
      (s : Cached) (c id : ℕ) (k : CacheKey)
      → s.calls c ≡ attached id k
      → s.entries id ≡ fresh k
      → CacheStep Answers is_kept s (record s { entries = set id (running k) s.entries })
  reads_over :
      (s : Cached) (id : ℕ) (k : CacheKey) (result : Fallible Function)
      → s.entries id ≡ running k
      → Answers k result
      → CacheStep Answers is_kept s (record s {
        cache = after_read k result s.cache;
        entries = set id (over k result) s.entries;
      })
  returns :
      (s : Cached) (c id : ℕ) (j k : CacheKey) (result : Fallible Function)
      → s.calls c ≡ attached id j
      → s.entries id ≡ over k result
      → CacheStep Answers is_kept s (record s { calls = set c (returned j result) s.calls })

abbrev pub new_cache : Cached
new_cache = record { cache = λ k. none; mux = none; entries = λ id. unused; calls = λ c. idle }

-- What can become of a new cache. `MayKeep` is what is known of the keys that an addition keeps.
pub data Caching (Answers : CacheKey → Fallible Function → Type 0)
    (MayKeep : (CacheKey → Bool) → Type 0) : Cached → Type 0 where
  opens : Caching Answers MayKeep new_cache
  next :
      (s t : Cached) (is_kept : CacheKey → Bool)
      → Caching Answers MayKeep s
      → MayKeep is_kept
      → CacheStep Answers is_kept s t
      → Caching Answers MayKeep t
