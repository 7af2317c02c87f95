-- ===== src/Cache/Tests.antt =====
-- The theorems of the cache at concrete inputs.
use functions_invoker.Base.{Bool, true, false, ℕ, some, [], codes, ◌≡◌, refl, Fallible, fine}
use functions_invoker.Entities.{Function}
use functions_invoker.Cache.{
  CacheKey, same_key, Cached, set, add_entry, after_read, first_look, second_look, CacheStep, looks,
  locks, looks_again, adds, runs, reads_over, returns, new_cache, returned, Caching, opens, next,
}
use functions_invoker.Cache.Entries.{key_of, is_failed}
use functions_invoker.Cache.Reading.{Caching-returns, Caching-keeps}
use functions_invoker.Cache.Flights.{KeepsAll, Caching-single}

abbrev hello : CacheKey
hello = record { name = "hello"; revision = "1" }

abbrev function : Function
function = record {
  name = "hello";
  namespace = "guest";
  exec = record { kind = "nodejs:18"; code = codes "x"; main = "main"; binary = false };
  annotations = [];
  limits = record { timeout = 1; memory = 1; logs = 1 };
}

-- The reader finds the function.
abbrev Finds : CacheKey → Fallible Function → Type 0
Finds k result = result ≡ fine function

abbrev all : CacheKey → Bool
all k = true

abbrev keeps_all : KeepsAll all
keeps_all k = refl

-- Two calls miss at the same time; the first adds the entry, reads and returns, and the second finds it.
abbrev after :
    (s t : Cached) → Caching Finds KeepsAll s → CacheStep Finds all s t → Caching Finds KeepsAll t
after s t run step = next s t all run keeps_all step

two_calls :
    (s : Cached) × Caching Finds KeepsAll s
    × (s.calls 0 ≡ returned hello (fine function))
    × (s.cache hello ≡ some 7)
unfolding set first_look second_look add_entry after_read same_key
two_calls = (
  _,
  after _ _
      (after _ _
        (after _ _
          (after _ _
            (after _ _
              (after _ _
                (after _ _
                  (after _ _
                    (after _ _ (after _ _ opens (looks new_cache 0 hello refl))
                      (looks _ 1 hello refl))
                    (locks _ 0 hello refl refl))
                  (looks_again _ 0 hello refl))
                (adds _ 0 7 hello refl refl))
              (locks _ 1 hello refl refl))
            (looks_again _ 1 hello refl))
          (runs _ 1 7 hello refl refl))
        (reads_over _ 7 hello (fine function) refl refl))
      (returns _ 0 7 hello hello (fine function) refl refl),
  refl,
  refl,
)

Caching-returns_example : Finds hello (fine function)
Caching-returns_example =
    Caching-returns Finds KeepsAll two_calls.0 0 hello (fine function) two_calls.1 two_calls.2

seven_live :
    (key_of (two_calls.0.entries 7) ≡ some hello) × (is_failed (two_calls.0.entries 7) ≡ false)
seven_live = Caching-keeps Finds KeepsAll two_calls.0 hello 7 two_calls.1 two_calls.3

Caching-keeps_example :
    (key_of (two_calls.0.entries 7) ≡ some hello) × (is_failed (two_calls.0.entries 7) ≡ false)
Caching-keeps_example = Caching-keeps Finds KeepsAll two_calls.0 hello 7 two_calls.1 two_calls.3

Caching-single_example : ◌≡◌ {A = ℕ} 7 7
Caching-single_example =
    Caching-single Finds two_calls.0 7 7 hello two_calls.1 seven_live.0 seven_live.0 seven_live.1
      seven_live.1
