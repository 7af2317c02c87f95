-- ===== src/Docker/Streams.antt =====
-- A stream of a container, line by line (`consumeStream` of pkg/exec/docker/container.go). What the
-- buffered reader's `ReadLine` returns is an argument: pieces without their line ends, each with the
-- reading of the clock.
use mathlib.Core.List.{append_assoc, append-nil}
use functions_invoker.Base.{
  codes_eq-same, ℕ, ◌≡◌, ◌⊎◌, inl, inr, refl, sym, ap, ◌∙◌, true, false, Bool-cases, List, [], ◌∷◌,
  ◌++◌, codes, codes_eq, length, arith, ltb, ltb→lt, ltb-false, ◌≤◌, if◌then◌else◌,
}
use functions_invoker.Entities.{Text}
use functions_invoker.Runner.Logs.{Stream, LogLine}

abbrev pub log_sentinel : Text
log_sentinel = codes "XXX_THE_END_OF_A_WHISK_ACTIVATION_XXX"

-- `bytes.TrimSuffix`.
unfoldable pub trim_suffix : Text → Text → Text
trim_suffix [] suffix = []
trim_suffix (x ∷ xs) suffix =
    let rest = trim_suffix xs suffix in if codes_eq (x ∷ xs) suffix then [] else x ∷ rest

abbrev pub plain_line : Stream → Text → ℕ → LogLine
plain_line stream message time = record {
  message = message;
  stream = stream;
  time = time;
  is_sentinel = false;
}

abbrev pub sentinel_line : Stream → LogLine
sentinel_line stream = record { message = []; stream = stream; time = 0; is_sentinel = true }

-- The lines of one piece: without the sentinel at its end, if that leaves anything, and the sentinel.
unfoldable pub lines_of : Stream → Text → ℕ → List LogLine
unfolding trim_suffix
lines_of stream log time =
    let trimmed = trim_suffix log log_sentinel in
    if ltb (length trimmed) (length log)
    then (if ltb 0 (length trimmed)
        then plain_line stream trimmed time ∷ sentinel_line stream ∷ []
        else sentinel_line stream ∷ [])
    else plain_line stream log time ∷ []

unfoldable pub consume_stream : Stream → List (Text × ℕ) → List LogLine
unfolding lines_of
consume_stream stream [] = []
consume_stream stream ((log, time) ∷ rest) = lines_of stream log time ++ consume_stream stream rest

-- The text that a line stands for.
abbrev pub text_of : LogLine → Text
text_of line = if line.is_sentinel then log_sentinel else line.message

unfoldable pub texts : List LogLine → Text
texts [] = []
texts (line ∷ lines) = text_of line ++ texts lines

unfoldable pub pieces : List (Text × ℕ) → Text
pieces [] = []
pieces ((log, time) ∷ rest) = log ++ pieces rest

trim_suffix-cases : (t s : Text) → (trim_suffix t s ≡ t) ⊎ (t ≡ trim_suffix t s ++ s)
unfolding trim_suffix
trim_suffix-cases [] s = inl refl
trim_suffix-cases (x ∷ xs) s = elim (Bool-cases (codes_eq (x ∷ xs) s)) [
  | inl y ↦ rw y (inr (codes_eq-same (x ∷ xs) s y))
  | inr n ↦ rw n (elim (trim_suffix-cases xs s) [
    | inl same ↦ inl (ap (λ (l : Text). x ∷ l) same)
    | inr cut ↦ inr (ap (λ (l : Text). x ∷ l) cut)
  ])
]

texts-append : (ks ls : List LogLine) → texts (ks ++ ls) ≡ texts ks ++ texts ls
unfolding texts
texts-append [] ls = refl
texts-append (k ∷ ks) ls =
    ap (λ (l : Text). text_of k ++ l) (texts-append ks ls)
    ∙ sym (append_assoc (text_of k) (texts ks) (texts ls))

empty-length : (t : Text) → length t ≤ 0 → t ≡ []
empty-length [] h = refl
empty-length (x ∷ xs) h = absurd (omega (arith, h))

lines_of-texts : (stream : Stream) (log : Text) (time : ℕ) → texts (lines_of stream log time) ≡ log
unfolding lines_of texts
lines_of-texts stream log time = elim (Bool-cases (ltb (length trimmed) (length log))) [
  | inr n ↦ rw n (append-nil log)
  | inl y ↦ elim (trim_suffix-cases log log_sentinel) [
    | inl same ↦ absurd (omega (arith, ltb→lt _ _ y, ap (λ (l : Text). length l) same))
    | inr cut ↦ elim (Bool-cases (ltb 0 (length trimmed))) [
      | inl some_text ↦
          rw (y, some_text) (ap (λ (l : Text). trimmed ++ l) (append-nil log_sentinel) ∙ sym cut)
      | inr nothing ↦
          rw (y, nothing)
            (append-nil log_sentinel
              ∙ (ap (λ (l : Text). l ++ log_sentinel)
                    (sym (empty-length trimmed (ltb-false _ _ nothing)))
                  ∙ sym cut))
    ]
  ]
]
  where
    trimmed : Text
    trimmed = trim_suffix log log_sentinel

-- The lines of a stream, in order, with the sentinel's text for a sentinel, are together exactly the
-- pieces that were read from it: nothing is lost, added or moved.
pub consume_stream-texts :
    (stream : Stream) (logs : List (Text × ℕ)) → texts (consume_stream stream logs) ≡ pieces logs
unfolding consume_stream texts pieces
consume_stream-texts stream [] = refl
consume_stream-texts stream ((log, time) ∷ rest) =
    texts-append (lines_of stream log time) (consume_stream stream rest)
    ∙ (ap (λ (l : Text). l ++ texts (consume_stream stream rest)) (lines_of-texts stream log time)
        ∙ ap (λ (l : Text). log ++ l) (consume_stream-texts stream rest))
