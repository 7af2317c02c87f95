-- ===== src/Docker/Tests.antt =====
-- The theorems of Docker's containers at concrete inputs.
use functions_invoker.Base.{
  ℕ, zero, suc, none, ◌++◌, ◌≡◌, ◌≤◌, refl, true, false, some, [], ◌∷◌, codes, length, List,
}
use functions_invoker.Runner.Logs.{stdout}
use functions_invoker.Docker.Requests.{
  HttpResponse, responded, request, Tells, request-Tells, response_limit,
}
use functions_invoker.Docker.Pausing.{
  succeeded, inconsistent, DockerReply, Attempts, Pausing, Ends, unpause_if_needed,
  pause_eventually, unpause_if_needed-Ends,
}
use functions_invoker.Docker.Addresses.{
  CreateAnswers, create_container, Accounted, create_container-Accounted,
}
use functions_invoker.Docker.Streams.{
  consume_stream, texts, pieces, consume_stream-texts, log_sentinel,
}

abbrev short : HttpResponse
short = record {
  content_length = some 2;
  content = codes "{}";
  read_timeout = false;
  discard_error = none;
  status = 200;
}

request-Tells_example :
    Tells short (request (responded short)).error (request (responded short)).response
    × (length (request (responded short)).response ≤ response_limit)
request-Tells_example = request-Tells short

-- Docker takes two attempts.
second_time : ℕ → DockerReply
second_time zero = inconsistent
second_time (suc n) = succeeded

abbrev slow : Attempts
slow = record { grace_over = true; pause_replies = second_time; unpause_replies = second_time }

abbrev running : Pausing
running = record { is_paused = false; waiting = 0 }

unpause_if_needed-Ends_example : Ends slow (unpause_if_needed slow (pause_eventually running))
unpause_if_needed-Ends_example = unpause_if_needed-Ends slow running refl refl

-- The container does not answer, and is removed.
abbrev silent : CreateAnswers
silent = record {
  is_known_kind = true;
  is_created = true;
  is_attached = true;
  is_started = true;
  is_responding = false;
  removal = record {
    is_removed = true;
    has_connection = true;
    is_closed = true;
    is_drained = true;
  };
}

silent_addresses : (create_container silent ("a" ∷ "b" ∷ [])).1 ≡ "b" ∷ "a" ∷ []
unfolding create_container
silent_addresses = refl

create_container-Accounted_example :
    Accounted silent ("a" ∷ "b" ∷ []) (create_container silent ("a" ∷ "b" ∷ []))
create_container-Accounted_example = create_container-Accounted silent ("a" ∷ "b" ∷ [])

abbrev log : List (List ℕ × ℕ)
log = (codes "hi", 1) ∷ (codes "bye" ++ log_sentinel, 2) ∷ []

consume_stream-texts_example : texts (consume_stream stdout log) ≡ pieces log
consume_stream-texts_example = consume_stream-texts stdout log
