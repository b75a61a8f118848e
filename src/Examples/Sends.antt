-- ===== src/Examples/Sends.antt =====
-- Runs of the send loop and of what it keeps between sends.
use apime.Common.{
  ℕ, zero, suc, ◌+◌, ◌≤◌, String, ◌≡◌, refl, Bool, true, false, some, List, [], ◌∷◌, ◌==◌, arith,
  All, length,
}
use apime.Send.Attempts.{Failure, Answer, accepted, refused, Env, run_attempts, report}
use apime.Send.Attempts.Safety.{sent, numbered, Down, at_most_four_calls}
use apime.Send.Attempts.Outcomes.{unavailable_never_left, accepted_is_reported}
use apime.Send.Outage.{Poll, wait_until_connected, reconnect_wait_budget}
use apime.Send.Outage.Waiting.{IsPaced, wait_ends}

-- The socket is down at the first attempt and comes back; the second is accepted.
abbrev down : Failure
down = record { text = "websocket not connected"; socket_down = true; not_on_whatsapp = false }

abbrev second_accepted : ℕ → Answer
second_accepted zero = refused down
second_accepted (suc n) = accepted "3EB0"

abbrev recovers : Env
recovers = record {
  instance_id = "one";
  send_id = "id";
  has_presence = true;
  answers = second_accepted;
  now = λ n. n;
  reconnects = λ n d. true;
}

abbrev stays_down : Env
stays_down = record recovers { answers = λ n. refused down; reconnects = λ n d. false }

at_most_four_calls_example :
    (k : ℕ) × (k ≤ 4) × (sent (run_attempts recovers []).effects ≡ numbered "id" 0 k)
at_most_four_calls_example = at_most_four_calls recovers []

unavailable_never_left_example :
    All (λ c. Down stays_down c.0) (sent (run_attempts stays_down []).effects)
unfolding report run_attempts
unavailable_never_left_example = unavailable_never_left stays_down [] "" refl

accepted_is_reported_example :
    (k : ℕ) × (id : String) × (k ≤ 3)
    × (second_accepted k ≡ accepted id)
    × ((id == "") ≡ false)
    × (sent (run_attempts recovers []).effects ≡ numbered "id" 0 (suc k))
    × ((report recovers "" (run_attempts recovers [])).status ≡ "sent")
    × ((report recovers "" (run_attempts recovers [])).whatsapp_id ≡ id)
unfolding report run_attempts
accepted_is_reported_example = accepted_is_reported recovers [] "" refl

-- Rounds half a second apart, of a socket that stays down.
unfoldable rounds : ℕ → ℕ → List Poll
rounds zero now = []
rounds (suc n) now =
    record { connected = false; now = now; cancelled = false } ∷ rounds n (now + 500_000_000)

abbrev poll_at : ℕ → Poll
poll_at now = record { connected = false; now = now; cancelled = false }

rounds-IsPaced : (until n now : ℕ) → IsPaced until (poll_at now ∷ rounds n (now + 500_000_000))
unfolding rounds
rounds-IsPaced until zero now = tt
rounds-IsPaced until (suc n) now = (omega arith, rounds-IsPaced until n (now + 500_000_000))

length-rounds : (n now : ℕ) → length (rounds n now) ≡ n
unfolding rounds
length-rounds zero now = omega arith
length-rounds (suc n) now = omega (arith, length-rounds n (now + 500_000_000))

wait_ends_example :
    (r : Bool) × (wait_until_connected reconnect_wait_budget (poll_at 0 ∷ rounds 90 500_000_000)
      ≡ some r)
wait_ends_example =
    wait_ends reconnect_wait_budget (poll_at 0) (rounds 90 500_000_000)
      (rounds-IsPaced reconnect_wait_budget 90 0) (omega arith)
      (omega (arith, length-rounds 90 500_000_000))
