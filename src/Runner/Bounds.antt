-- ===== src/Runner/Bounds.antt =====
-- What `collectLogs` collects (pkg/runner/runner.go).
use mathlib.Core.List.{append_assoc, append-nil}
use functions_invoker.Base.{
  not, ◌&&◌, ◌||◌, ℕ, ◌+◌, ◌≤◌, ◌<◌, ◌≡◌, ◌⊎◌, inl, inr, refl, ap, ◌∙◌, Bool, true, false, List, [],
  ◌∷◌, ◌++◌, length, sum_by, sum_by-append, arith, Bool-cases, ltb, ltb→lt, ltb-false, add64,
  add64_exact, u64_mod, All, if◌then◌else◌,
}
use functions_invoker.Entities.{Text}
use functions_invoker.Messages.{Printing, function_truncated_logs}
use functions_invoker.Runner.Logs.{
  Stream, stdout, stderr, LogLine, LogEvent, arrives, cancelled, Collector, new_collector,
  format_log, found_sentinel, collect_line, collect, collect_logs, finished,
}

-- The lines that the container wrote, formatted, without the sentinels.
unfoldable pub written : Printing → List LogEvent → List Text
written f [] = []
written f (cancelled ∷ es) = []
written f (arrives line now ∷ es) =
    let rest = written f es in
    if line.is_sentinel then rest else format_log f line.time line.stream line.message ∷ rest

-- No line makes the sum of the lengths wrap around.
abbrev pub IsShort : ℕ → Printing → LogEvent → Type 0
IsShort limit f (arrives line now) =
    limit + length (format_log f line.time line.stream line.message) < u64_mod
IsShort limit f cancelled = Unit

abbrev pub is_stdout : Stream → Bool
is_stdout stdout = true
is_stdout stderr = false

abbrev pub seen : Stream → LogLine → Bool
seen stdout line = line.is_sentinel && is_stdout line.stream
seen stderr line = line.is_sentinel && not (is_stdout line.stream)

-- The events up to the second stream's sentinel, given the sentinels that have been seen.
pub until_sentinels : Bool → Bool → List LogEvent → List LogEvent
until_sentinels true true es = []
until_sentinels o e [] = []
until_sentinels o e (cancelled ∷ es) = []
until_sentinels o e (arrives line now ∷ es) =
    arrives line now ∷ until_sentinels (o || seen stdout line) (e || seen stderr line) es

abbrev pub notice : Printing → ℕ → ℕ → Text
notice f limit now = format_log f now stderr (function_truncated_logs f limit)

-- The logs are all the lines, within the limit; or the lines up to the first that would exceed the
-- limit, and a notice.
abbrev pub Clipped : Printing → ℕ → List Text → List Text → Type 0
Clipped f limit lines logs =
    ((logs ≡ lines) × (sum_by length lines ≤ limit))
    ⊎ ((kept : List Text) × (over : Text) × (dropped : List Text) × (now : ℕ) × (lines
          ≡ kept ++ over ∷ dropped)
        × (logs ≡ kept ++ notice f limit now ∷ [])
        × (sum_by length kept ≤ limit)
        × (limit < sum_by length kept + length over))

-- The same of a collector on its way.
data Holds (f : Printing) (limit : ℕ) (c : Collector) (lines : List Text) : Type 0 where
  whole :
      c.exceeded ≡ false
      → c.logs ≡ lines
      → c.collected ≡ sum_by length lines
      → c.collected ≤ limit
      → Holds f limit c lines
  clipped :
      (kept : List Text) (over : Text) (dropped : List Text) (now : ℕ)
      → c.exceeded ≡ true
      → lines ≡ kept ++ over ∷ dropped
      → c.logs ≡ kept ++ notice f limit now ∷ []
      → sum_by length kept ≤ limit
      → limit < sum_by length kept + length over
      → Holds f limit c lines

Holds-Clipped :
    (f : Printing) (limit : ℕ) (c : Collector) (lines : List Text)
    → Holds f limit c lines
    → Clipped f limit lines c.logs
Holds-Clipped f limit c lines (whole x l t h) = inl (l, omega arith)
Holds-Clipped f limit c lines (clipped kept over dropped now x e l h o) =
    inr (kept, over, dropped, now, e, l, h, o)

found-Holds :
    (f : Printing) (limit : ℕ) (stream : Stream) (c : Collector) (lines : List Text)
    → Holds f limit c lines
    → Holds f limit (found_sentinel stream c) lines
unfolding found_sentinel
found-Holds f limit stdout c lines (whole x l t h) = whole x l t h
found-Holds f limit stderr c lines (whole x l t h) = whole x l t h
found-Holds f limit stdout c lines (clipped kept over dropped now x e l h o) =
    clipped kept over dropped now x e l h o
found-Holds f limit stderr c lines (clipped kept over dropped now x e l h o) =
    clipped kept over dropped now x e l h o

-- One line more.
line-Holds :
    (f : Printing) (limit : ℕ) (line : LogLine) (now : ℕ) (c : Collector) (lines : List Text)
    → line.is_sentinel ≡ false
    → IsShort limit f (arrives line now)
    → Holds f limit c lines
    → Holds f limit
        (collect_line f limit line now c)
        (lines ++ format_log f line.time line.stream line.message ∷ [])
unfolding collect_line
line-Holds f limit line now c lines plain short (clipped kept over dropped at x e l h o) =
    rw (plain, x)
      (clipped kept over (dropped ++ new ∷ []) at refl
        (ap (λ (ls : List Text). ls ++ new ∷ []) e ∙ append_assoc kept (over ∷ dropped) (new ∷ []))
        l h o)
  where
    new : Text
    new = format_log f line.time line.stream line.message
line-Holds f limit line now c lines plain short (whole x l t h) =
    elim (Bool-cases (ltb limit (add64 c.collected (length new)))) [
      | inl over ↦
          rw (plain, x, over)
            (clipped lines new [] now refl refl
              (ap (λ (ls : List Text). ls ++ notice f limit now ∷ []) l) (omega arith)
              (omega (arith, t, total, ltb→lt _ _ over)))
      | inr fits ↦
          rw (plain, x, fits)
            (whole refl (ap (λ (ls : List Text). ls ++ new ∷ []) l)
              (omega (arith, total, t, sum_by-append length lines (new ∷ []))) (ltb-false _ _ fits))
    ]
  where
    new : Text
    new = format_log f line.time line.stream line.message

    total : add64 c.collected (length new) ≡ c.collected + length new
    total = add64_exact c.collected (length new) (omega arith)

collect_line-found :
    (f : Printing) (limit : ℕ) (line : LogLine) (now : ℕ) (c : Collector)
    → ((collect_line f limit line now c).stdout_found ≡ (c.stdout_found || seen stdout line))
      × ((collect_line f limit line now c).stderr_found ≡ (c.stderr_found || seen stderr line))
unfolding collect_line found_sentinel
collect_line-found f limit line now c = ground arith

until-done : (o e : Bool) (es : List LogEvent) → (o && e) ≡ true → until_sentinels o e es ≡ []
unfolding until_sentinels
until-done true true es h = refl
until-done true false es h = cc
until-done false e es h = cc

until-arrives :
    (o e : Bool) (line : LogLine) (now : ℕ) (es : List LogEvent)
    → (o && e) ≡ false
    → until_sentinels o e (arrives line now ∷ es)
      ≡ arrives line now ∷ until_sentinels (o || seen stdout line) (e || seen stderr line) es
unfolding until_sentinels
until-arrives true true line now es h = cc
until-arrives true false line now es h = refl
until-arrives false true line now es h = refl
until-arrives false false line now es h = refl

until-empty : (o e : Bool) → until_sentinels o e [] ≡ []
unfolding until_sentinels
until-empty true true = refl
until-empty true false = refl
until-empty false e = refl

until-cancelled : (o e : Bool) (es : List LogEvent) → until_sentinels o e (cancelled ∷ es) ≡ []
unfolding until_sentinels
until-cancelled true true es = refl
until-cancelled true false es = refl
until-cancelled false e es = refl

-- A line or a sentinel, with the lines that follow.
event-Holds :
    (f : Printing) (limit : ℕ) (line : LogLine) (now : ℕ) (c : Collector) (lines : List Text)
    (es : List LogEvent) (final : Collector)
    → IsShort limit f (arrives line now)
    → Holds f limit c lines
    → ((ls : List Text)
        → Holds f limit (collect_line f limit line now c) ls
        → Holds f limit final (ls ++ written f es))
    → Holds f limit final (lines ++ written f (arrives line now ∷ es))
unfolding written
event-Holds f limit line now c lines es final short h rest = elim (Bool-cases line.is_sentinel) [
  | inl mark ↦ rw mark (rest lines (sentinel mark))
  | inr plain ↦ rw plain (
      rw
        (← append_assoc lines (format_log f line.time line.stream line.message ∷ []) (written f es))
        (rest _ (line-Holds f limit line now c lines plain short h)))
]
  where
    sentinel : line.is_sentinel ≡ true → Holds f limit (collect_line f limit line now c) lines
    sentinel mark = unfold collect_line in rw mark (found-Holds f limit line.stream c lines h)

collect-Holds :
    (f : Printing) (limit : ℕ) (es : List LogEvent) (c : Collector) (lines : List Text)
    → All (IsShort limit f) es
    → Holds f limit c lines
    → Holds f limit
        (collect f limit es c)
        (lines ++ written f (until_sentinels c.stdout_found c.stderr_found es))
unfolding collect
collect-Holds f limit [] c lines short h =
    rw (until-empty c.stdout_found c.stderr_found) (unfold written in rw (append-nil lines) h)
collect-Holds f limit (cancelled ∷ es) c lines short h =
    rw (until-cancelled c.stdout_found c.stderr_found es)
      (unfold written in rw (append-nil lines) h)
collect-Holds f limit (arrives line now ∷ es) c lines short h =
    let c' = collect_line f limit line now c in
    let found = collect_line-found f limit line now c in
    elim (Bool-cases (finished c)) [
      | inl done ↦
          rw (done, until-done c.stdout_found c.stderr_found (arrives line now ∷ es) done)
            (unfold written in rw (append-nil lines) h)
      | inr open_still ↦
          rw (open_still, until-arrives c.stdout_found c.stderr_found line now es open_still)
            (rw (← found.0, ← found.1)
              (event-Holds f limit line now c lines
                (until_sentinels c'.stdout_found c'.stderr_found es) (collect f limit es c') short.0
                h (λ ls held. collect-Holds f limit es c' ls short.1 held)))
    ]

-- From what the container writes until both sentinels have come, or until the collection is
-- cancelled, `collectLogs` returns all the lines, formatted and in order, if they are within the
-- limit; or the lines before the first that would exceed it, and one notice. The lines are shorter
-- than what makes the byte count wrap around.
pub collect_logs-Clipped :
    (f : Printing) (limit : ℕ) (es : List LogEvent)
    → All (IsShort limit f) es
    → Clipped f limit (written f (until_sentinels false false es)) (collect_logs f limit es)
unfolding collect_logs
collect_logs-Clipped f limit es short =
    Holds-Clipped f limit _ _
      (collect-Holds f limit es new_collector [] short (whole refl refl refl (omega arith)))
