-- ===== src/Docker/Pausing.antt =====
-- Pausing a container and resuming it (`Pause`, `Unpause`, `PauseEventually` and `UnpauseIfNeeded`
-- of pkg/exec/docker/container.go). What Docker answers to the attempts is an argument.
use functions_invoker.Base.{
  ◌-◌, ==_iff, sym, ◌==◌, subst, ℕ, zero, suc, ◌+◌, ◌≤◌, ◌<◌, ◌≡◌, ◌⊎◌, ◌↔◌, inl, inr, refl, Bool,
  true, false, not, Bool-cases, Option, none, some, arith, if◌then◌else◌,
}

-- `inconsistent` is the error that the container is already (or is not) paused.
pub data DockerReply : Type 0 where
  succeeded inconsistent broken : DockerReply

abbrev pub pause_unpause_retries : ℕ
pause_unpause_retries = 10

-- The loop of `Pause` and of `Unpause`: the retries that are left, and those that were made.
-- Whether it succeeded, and the calls to Docker.
unfoldable pub attempt : ℕ → (ℕ → DockerReply) → ℕ → Bool × ℕ
attempt zero reply retries = elim (reply retries) [
  | succeeded ↦ (true, suc retries)
  | inconsistent ↦ (false, suc retries)
  | broken ↦ (false, suc retries)
]
attempt (suc left) reply retries =
    let rest = attempt left reply (suc retries) in
    elim (reply retries) [
      | succeeded ↦ (true, suc retries)
      | inconsistent ↦ rest
      | broken ↦ (false, suc retries)
    ]

unfoldable pub pause : (ℕ → DockerReply) → Bool × ℕ
pause reply = attempt pause_unpause_retries reply 0

unfoldable pub unpause : (ℕ → DockerReply) → Bool × ℕ
unpause reply = attempt pause_unpause_retries reply 0

-- Docker's container, and the number of goroutines of `PauseEventually` that wait. Each call starts one.
pub record Pausing : Type 0 where
  pub is_paused : Bool
  pub waiting : ℕ

unfoldable pub pause_eventually : Pausing → Pausing
pause_eventually p = record p { waiting = suc p.waiting }

-- What happens between the two: whether the grace period ends first, and Docker's answers.
pub record Attempts : Type 0 where
  pub grace_over : Bool
  pub pause_replies : ℕ → DockerReply
  pub unpause_replies : ℕ → DockerReply

-- One of the goroutines takes the stop and answers; the others go on waiting. Whether it succeeded, or
-- nothing if it waits forever; the state; and the calls to Docker.
unfoldable pub unpause_if_needed : Attempts → Pausing → Option Bool × Pausing × ℕ
unpause_if_needed w p =
    let stopped = record p { waiting = p.waiting - 1 } in
    let paused = record p { waiting = p.waiting - 1; is_paused = true } in
    let resumed = record p { waiting = p.waiting - 1; is_paused = false } in
    let first = pause w.pause_replies in
    let second = unpause w.unpause_replies in
    if p.waiting == 0
    then (none, p, 0)
    else (if not w.grace_over
        then (some true, stopped, 0)
        else (if not first.0
            then (some false, stopped, first.1)
            else (if second.0
                then (some true, resumed, first.1 + second.1)
                else (some false, paused, first.1 + second.1))))

-- The attempt that succeeds, after attempts that found the state inconsistent.
abbrev pub SucceedsAt : (ℕ → DockerReply) → ℕ → ℕ → Type 0
SucceedsAt reply start k =
    (start ≤ k) × (reply k ≡ succeeded) × ((j : ℕ) → start ≤ j → j < k → reply j ≡ inconsistent)

attempt-calls :
    (left : ℕ) (reply : ℕ → DockerReply) (retries : ℕ)
    → (attempt left reply retries).1 ≤ suc (retries + left)
unfolding attempt
attempt-calls zero reply retries = ground arith
attempt-calls (suc left) reply retries =
    let rest = attempt-calls left reply (suc retries) in ground arith

-- The first attempt, by its answer.
attempt-last :
    (reply : ℕ → DockerReply) (retries : ℕ)
    → (attempt 0 reply retries).0 ≡ true
    → reply retries ≡ succeeded
unfolding attempt
attempt-last reply retries h = ground arith

attempt-first :
    (left : ℕ) (reply : ℕ → DockerReply) (retries : ℕ)
    → (attempt (suc left) reply retries).0 ≡ true
    → (reply retries ≡ succeeded)
      ⊎ ((reply retries ≡ inconsistent) × ((attempt left reply (suc retries)).0 ≡ true))
unfolding attempt
attempt-first left reply retries h = ground arith

attempt_sound :
    (left : ℕ) (reply : ℕ → DockerReply) (retries : ℕ)
    → (attempt left reply retries).0 ≡ true
    → (k : ℕ) × (k ≤ retries + left) × SucceedsAt reply retries k
attempt_sound zero reply retries h = (
  retries,
  omega arith,
  (omega arith, attempt-last reply retries h, (λ j a b. absurd (omega (arith, a, b)))),
)
attempt_sound (suc left) reply retries h = elim (attempt-first left reply retries h) [
  | inl good ↦ (retries, omega arith, (omega arith, good, (λ j a b. absurd (omega (arith, a, b)))))
  | inr (bad, more) ↦
      let (k, bound, (past, good, before)) = attempt_sound left reply (suc retries) more in
      (k, omega (arith, bound), (omega (arith, past), good, earlier retries bad k before))
]
  where
    earlier :
        (start : ℕ)
        → reply start ≡ inconsistent
        → (k : ℕ) → ((j : ℕ) → suc start ≤ j → j < k → reply j ≡ inconsistent)
        → (j : ℕ) → start ≤ j
        → j < k
        → reply j ≡ inconsistent
    earlier start bad k before j a b = elim (Bool-cases (start == j)) [
      | inl y ↦ subst (λ i. reply i ≡ inconsistent) ((==_iff start j).0 y) bad
      | inr n ↦ before j (ground (arith, a, n)) b
    ]

attempt_complete :
    (left : ℕ) (reply : ℕ → DockerReply) (retries k : ℕ)
    → k ≤ retries + left
    → SucceedsAt reply retries k
    → (attempt left reply retries).0 ≡ true
unfolding attempt
attempt_complete zero reply retries k b (past, good, before) =
    let here : reply retries ≡ succeeded =
      subst (λ i. reply i ≡ succeeded) (omega (arith, b, past)) good in
    rw (attempt, here) refl
attempt_complete (suc left) reply retries k b (past, good, before) =
    elim (Bool-cases (retries == k)) [
      | inl y ↦
          let here : reply retries ≡ succeeded =
            subst (λ i. reply i ≡ succeeded) (sym ((==_iff retries k).0 y)) good in
          rw (attempt, here) refl
      | inr n ↦
          let more : suc retries ≤ k = ground (arith, past, n) in
          rw (attempt, before retries (omega arith) more)
            (attempt_complete left reply (suc retries) k (omega (arith, b))
              (more, good, (λ j a l. before j (omega (arith, a)) l)))
    ]

-- Docker does what it is asked within ten retries.
abbrev pub Overcome : (ℕ → DockerReply) → Type 0
Overcome reply = (k : ℕ) × (k ≤ pause_unpause_retries) × SucceedsAt reply 0 k

attempt-Overcome :
    (reply : ℕ → DockerReply) → ((attempt pause_unpause_retries reply 0).0 ≡ true) ↔ Overcome reply
attempt-Overcome reply = (
  attempt_sound pause_unpause_retries reply 0,
  (λ (k, b, s). attempt_complete pause_unpause_retries reply 0 k b s),
)

pub data Resumes (w : Attempts) : Type 0 where
  stopped_early : w.grace_over ≡ false → Resumes w
  overcome : Overcome w.pause_replies → Overcome w.unpause_replies → Resumes w

-- The goroutine is gone, and the container runs exactly if Docker let it.
abbrev pub Ends : Attempts → Option Bool × Pausing × ℕ → Type 0
Ends w out =
    (out.1.waiting ≡ 0)
    × (out.2 ≤ 22)
    × ((Resumes w × (out.0 ≡ some true) × (out.1.is_paused ≡ false))
        ⊎ ((¬ Resumes w) × (out.0 ≡ some false)))

-- The outcome, with the three tests as arguments.
resumed : Bool → Bool × ℕ → Bool × ℕ → Pausing → Option Bool × Pausing × ℕ
resumed grace_over first second p =
    if not grace_over
    then (some true, record p { waiting = 0 }, 0)
    else (if not first.0
        then (some false, record p { waiting = 0 }, first.1)
        else (if second.0
            then (some true, record p { waiting = 0; is_paused = false }, first.1 + second.1)
            else (some false, record p { waiting = 0; is_paused = true }, first.1 + second.1)))

resumed-Ends :
    (w : Attempts) (grace_over : Bool) (first second : Bool × ℕ) (p : Pausing)
    → p.is_paused ≡ false
    → w.grace_over ≡ grace_over
    → first.1 ≤ 11
    → second.1 ≤ 11
    → (first.0 ≡ true) ↔ Overcome w.pause_replies
    → (second.0 ≡ true) ↔ Overcome w.unpause_replies
    → Ends w (resumed grace_over first second p)
unfolding resumed
resumed-Ends w false first second p r e a b f s =
    (refl, omega arith, inl (stopped_early e, refl, r))
resumed-Ends w true (false, m) second p r e a b f s = (refl, omega (arith, a), inr (no_pause, refl))
  where
    no_pause : ¬ Resumes w
    no_pause (stopped_early q) = cc
    no_pause (overcome x y) = let h = f.1 x in cc
resumed-Ends w true (true, m) (false, n) p r e a b f s =
    (refl, omega (arith, a, b), inr (no_unpause, refl))
  where
    no_unpause : ¬ Resumes w
    no_unpause (stopped_early q) = cc
    no_unpause (overcome x y) = let h = s.1 y in cc
resumed-Ends w true (true, m) (true, n) p r e a b f s =
    (refl, omega (arith, a, b), inl (overcome (f.0 refl) (s.0 refl), refl, refl))

-- If no goroutine of an earlier call waits, then after `PauseEventually` has been called for a running
-- container, `UnpauseIfNeeded` returns, and leaves no goroutine behind, after at most 22 calls to
-- Docker. It succeeds exactly if the grace period was not over, or if both the pause and the unpause
-- succeed after at most ten retries; and then the container runs.
pub unpause_if_needed-Ends :
    (w : Attempts) (p : Pausing)
    → p.waiting ≡ 0
    → p.is_paused ≡ false
    → Ends w (unpause_if_needed w (pause_eventually p))
unfolding unpause_if_needed pause_eventually pause unpause resumed
unpause_if_needed-Ends w p alone r = rw alone (
    resumed-Ends w w.grace_over (attempt pause_unpause_retries w.pause_replies 0)
      (attempt pause_unpause_retries w.unpause_replies 0) p r refl
      (attempt-calls pause_unpause_retries w.pause_replies 0)
      (attempt-calls pause_unpause_retries w.unpause_replies 0) (attempt-Overcome w.pause_replies)
      (attempt-Overcome w.unpause_replies))
