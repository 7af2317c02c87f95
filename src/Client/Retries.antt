-- ===== src/Client/Retries.antt =====
-- The loop of `request` (pkg/couchdb/client.go) ends.
use Prim.Native.Nat.{min}
use native.Mathlib.Nat.{pow-suc}
use functions_invoker.Base.{
  ◌∙◌, ap, leb→le, ◌^◌, ◌*◌, ℕ, zero, suc, ◌+◌, ◌≤◌, ◌<◌, ◌≡◌, inl, inr, refl, subst, Bool, true,
  false, Bool-cases, if◌then◌else◌, Option, none, some, leb, leb-false, ◌==◌, ==_iff, arith,
}
use functions_invoker.Client.{
  HttpReply, Result, answered, timed_out, failed, Attempt, Requested, replied, gave_up,
  request_loop, request, after_attempt, next_interval, max_retry_duration,
}

abbrev pub is_answered : Result → Bool
is_answered (answered r) = true
is_answered timed_out = false
is_answered failed = false

abbrev pub is_failed : Result → Bool
is_failed (answered r) = false
is_failed timed_out = false
is_failed failed = true

-- How many of the first attempts failed.
unfoldable pub failures : (ℕ → Attempt) → ℕ → ℕ
failures attempt zero = 0
failures attempt (suc n) =
    if is_failed (attempt n).result then suc (failures attempt n) else failures attempt n

-- The sleep after that many failures, in milliseconds: it doubles up to five seconds.
abbrev pub back_off : ℕ → ℕ
back_off failed_before = min 5000 (50 * 2 ^ failed_before)

-- The milliseconds that pass before an attempt: what the attempts before took, and the sleeps.
unfoldable pub elapsed_before : (ℕ → Attempt) → ℕ → ℕ
elapsed_before attempt zero = 0
elapsed_before attempt (suc n) =
    elapsed_before attempt n
    + (attempt n).took
    + (if is_failed (attempt n).result then back_off (failures attempt (suc n)) else 0)

-- The attempts from one on got no answer, and began within two minutes.
abbrev pub Unanswered : (ℕ → Attempt) → ℕ → ℕ → Type 0
Unanswered attempt start n =
    (j : ℕ)
    → start ≤ j
    → j < n
    → (is_answered (attempt j).result ≡ false) × (elapsed_before attempt j < 120000)

-- The result of the attempts from the given one on: the first answer to one that began within two
-- minutes, or that there was none when two minutes had passed.
abbrev pub Ends : (ℕ → Attempt) → ℕ → Option Requested → Type 0
Ends attempt start none = ⊥
Ends attempt start (some (replied r n)) =
    (start ≤ n)
    × ((attempt n).result ≡ answered r)
    × (elapsed_before attempt n < 120000)
    × Unanswered attempt start n
Ends attempt start (some (gave_up n)) =
    (start ≤ n) × (120000 ≤ elapsed_before attempt n) × Unanswered attempt start n

next_interval-positive : (i : ℕ) → 1 ≤ i → 1 ≤ next_interval i
unfolding next_interval
next_interval-positive i h = ground arith

-- An attempt without an answer takes time.
abbrev pub TakesTime : (ℕ → Attempt) → Type 0
TakesTime attempt = (i : ℕ) → (attempt i).result ≡ timed_out → 1 ≤ (attempt i).took

earlier :
    (attempt : ℕ → Attempt) (start n : ℕ)
    → (is_answered (attempt start).result ≡ false) × (elapsed_before attempt start < 120000)
    → Unanswered attempt (suc start) n
    → Unanswered attempt start n
earlier attempt start n h before j a b = elim (Bool-cases (start == j)) [
  | inl y ↦
      subst (λ i. (is_answered (attempt i).result ≡ false) × (elapsed_before attempt i < 120000))
        ((==_iff start j).0 y) h
  | inr m ↦ before j (ground (arith, a, m)) b
]

Ends-later :
    (attempt : ℕ → Attempt) (start : ℕ) (o : Option Requested)
    → (is_answered (attempt start).result ≡ false) × (elapsed_before attempt start < 120000)
    → Ends attempt (suc start) o
    → Ends attempt start o
Ends-later attempt start none h e = e
Ends-later attempt start (some (replied r n)) h (past, reply, began, before) =
    (omega (arith, past), reply, began, earlier attempt start n h before)
Ends-later attempt start (some (gave_up n)) h (past, over, before) =
    (omega (arith, past), over, earlier attempt start n h before)

-- A round that goes on.
after-timed_out :
    (a : Attempt) (elapsed interval : ℕ)
    → a.result ≡ timed_out
    → after_attempt a elapsed interval ≡ (elapsed + a.took, interval)
unfolding after_attempt
after-timed_out a elapsed interval q = rw (after_attempt, q) refl

after-failed :
    (a : Attempt) (elapsed interval : ℕ)
    → a.result ≡ failed
    → after_attempt a elapsed interval
      ≡ (elapsed + a.took + next_interval interval, next_interval interval)
unfolding after_attempt
after-failed a elapsed interval q = rw (after_attempt, q) refl

request_loop-more :
    (fuel : ℕ) (attempt : ℕ → Attempt) (retries elapsed interval : ℕ)
    → leb max_retry_duration elapsed ≡ false
    → is_answered (attempt retries).result ≡ false
    → request_loop (suc fuel) attempt retries elapsed interval
      ≡ request_loop fuel attempt
          (suc retries)
          (after_attempt (attempt retries) elapsed interval).0
          (after_attempt (attempt retries) elapsed interval).1
unfolding request_loop
request_loop-more fuel attempt retries elapsed interval n h = ground arith

request_loop-answered :
    (fuel : ℕ) (attempt : ℕ → Attempt) (retries elapsed interval : ℕ) (r : HttpReply)
    → leb max_retry_duration elapsed ≡ false
    → (attempt retries).result ≡ answered r
    → request_loop (suc fuel) attempt retries elapsed interval ≡ some (replied r retries)
unfolding request_loop
request_loop-answered fuel attempt retries elapsed interval r n q = ground arith

-- The time and the interval that the loop has computed are those of the attempts before.
Computed : (ℕ → Attempt) → ℕ → ℕ → ℕ → Type 0
Computed attempt retries elapsed interval =
    (elapsed ≡ elapsed_before attempt retries) × (interval ≡ back_off (failures attempt retries))

next_interval-back_off : (n : ℕ) → next_interval (back_off n) ≡ back_off (suc n)
unfolding next_interval
next_interval-back_off n = ground (arith, pow-suc 2 n)

Computed-timed_out :
    (attempt : ℕ → Attempt) (retries elapsed interval : ℕ)
    → (attempt retries).result ≡ timed_out
    → Computed attempt retries elapsed interval
    → Computed attempt (suc retries) (elapsed + (attempt retries).took) interval
unfolding Computed elapsed_before failures
Computed-timed_out attempt retries elapsed interval q (e, v) = rw q (omega (arith, e), v)

Computed-failed :
    (attempt : ℕ → Attempt) (retries elapsed interval : ℕ)
    → (attempt retries).result ≡ failed
    → Computed attempt retries elapsed interval
    → Computed attempt
        (suc retries)
        (elapsed + (attempt retries).took + next_interval interval)
        (next_interval interval)
unfolding Computed elapsed_before failures
Computed-failed attempt retries elapsed interval q (e, v) =
    let next : next_interval interval ≡ back_off (suc (failures attempt retries)) =
      ap next_interval v ∙ next_interval-back_off (failures attempt retries) in
    rw q (omega (arith, e, next), next)

request_loop-over :
    (fuel : ℕ) (attempt : ℕ → Attempt) (retries elapsed interval : ℕ)
    → Computed attempt retries elapsed interval
    → leb max_retry_duration elapsed ≡ true
    → Ends attempt retries (request_loop (suc fuel) attempt retries elapsed interval)
unfolding request_loop Computed
request_loop-over fuel attempt retries elapsed interval (e, v) over =
    rw over
      (omega arith, omega (arith, leb→le _ _ over, e), (λ j a b. absurd (omega (arith, a, b))))

Computed-time :
    (attempt : ℕ → Attempt) (retries elapsed interval : ℕ)
    → Computed attempt retries elapsed interval
    → elapsed ≡ elapsed_before attempt retries
unfolding Computed
Computed-time attempt retries elapsed interval c = c.0

request_loop-Ends :
    (fuel : ℕ) (attempt : ℕ → Attempt) (retries elapsed interval : ℕ)
    → TakesTime attempt
    → Computed attempt retries elapsed interval
    → 1 ≤ interval
    → max_retry_duration ≤ elapsed + fuel
    → Ends attempt retries (request_loop (suc fuel) attempt retries elapsed interval)
request_loop-Ends zero attempt retries elapsed interval t c i enough =
    elim (Bool-cases (leb max_retry_duration elapsed)) [
      | inl over ↦ request_loop-over zero attempt retries elapsed interval c over
      | inr open_still ↦ absurd (omega (arith, leb-false _ _ open_still, enough))
    ]
request_loop-Ends (suc fuel) attempt retries elapsed interval t c i enough =
    elim (Bool-cases (leb max_retry_duration elapsed)) [
      | inl over ↦ request_loop-over (suc fuel) attempt retries elapsed interval c over
      | inr open_still ↦
          round (attempt retries).result refl open_still (began c open_still)
            (λ e v. request_loop-Ends fuel attempt (suc retries) e v t)
    ]
  where
    began :
        Computed attempt retries elapsed interval
        → leb max_retry_duration elapsed ≡ false
        → elapsed_before attempt retries < 120000
    began c n = omega (arith, Computed-time attempt retries elapsed interval c, leb-false _ _ n)

    round :
        (r : Result)
        → (attempt retries).result ≡ r
        → leb max_retry_duration elapsed ≡ false
        → elapsed_before attempt retries < 120000
        → ((e v : ℕ)
            → Computed attempt (suc retries) e v
            → 1 ≤ v
            → max_retry_duration ≤ e + fuel
            → Ends attempt (suc retries) (request_loop (suc fuel) attempt (suc retries) e v))
        → Ends attempt retries (request_loop (suc (suc fuel)) attempt retries elapsed interval)
    round (answered r) q n b ih =
        rw (request_loop-answered (suc fuel) attempt retries elapsed interval r n q)
          (omega arith, q, b, (λ j a b. absurd (omega (arith, a, b))))
    round timed_out q n b ih =
        rw
          (
            request_loop-more (suc fuel) attempt retries elapsed interval n (rw q refl),
            after-timed_out (attempt retries) elapsed interval q,
          )
          (Ends-later attempt retries _ (rw q refl, b)
            (ih (elapsed + (attempt retries).took) interval
              (Computed-timed_out attempt retries elapsed interval q c) i
              (omega (arith, enough, t retries q))))
    round failed q n b ih =
        let positive = next_interval-positive interval i in
        rw
          (
            request_loop-more (suc fuel) attempt retries elapsed interval n (rw q refl),
            after-failed (attempt retries) elapsed interval q,
          )
          (Ends-later attempt retries _ (rw q refl, b)
            (ih (elapsed + (attempt retries).took + next_interval interval) (next_interval interval)
              (Computed-failed attempt retries elapsed interval q c) positive
              (omega (arith, enough, positive))))

-- If every attempt that exceeds a deadline takes at least a millisecond, `request` ends: with the
-- answer of the first attempt that gets one and begins within two minutes, or by giving up, after
-- attempts that all got none, before the first attempt that would begin two minutes after the start or
-- later. What counts is the time of the attempts and, after each failed one, a sleep of 50 milliseconds
-- doubled for each failure so far, but of at most five seconds.
pub request-Ends : (attempt : ℕ → Attempt) → TakesTime attempt → Ends attempt 0 (request attempt)
unfolding request Computed elapsed_before failures
request-Ends attempt t =
    request_loop-Ends max_retry_duration attempt 0 0 50 t (refl, refl) (omega arith) (omega arith)
