-- ===== src/Message/StuckDetector.antt =====
-- checkStuckMessages of internal/session/whatsmeow/receipt_handler.go: contacts whose messages stay
-- undelivered get their session reset, and the messages are given up. No code constructs the
-- detector. `now` is the clock when a message is looked at.
pub mod Debounce
use Prim.Native.String.{◌++◌}
use apime.Common.{
  ℕ, ◌+◌, ◌-◌, ◌*◌, String, Bool, true, false, not, ◌&&◌, ◌||◌, Option, none, some, List, [], ◌∷◌,
  ◌==◌, ltb, Result, ok, err, if◌then◌else◌,
}
use apime.Common.Map.{Map, get, put}
use apime.Common.Text.{has_suffix}
use apime.Common.Time.{second, minute, hour}
use apime.Message.Repo.{Message, update, list_by_instance}

-- resetAttempts, the message table, and the resets asked for, the latest first: contact and instant.
pub record Detector : Type 0 where
  pub attempts : Map ℕ
  pub table : List Message
  pub resets : List (String × ℕ)

unfoldable pub is_stuck : ℕ → ℕ → Message → Bool
is_stuck now timeout m =
    (m.status == "sent" || m.status == "retry" || m.status == "delivered")
    && ltb timeout (now - m.created_at * second)

unfoldable pub is_shared : Message → Bool
unfolding has_suffix
is_shared m = has_suffix m.to "@g.us" || has_suffix m.to "@broadcast"

unfoldable pub reset_key : String → Message → String
reset_key instance_id m = instance_id ++ ":" ++ m.to

unfoldable pub retry_debounce : Message → ℕ
retry_debounce m = if m.status == "retry" then 5 * minute else hour

abbrev pub attempted : ℕ → ℕ → Option ℕ → Bool
attempted now window none = false
attempted now window (some last) = ltb (now - last) window

-- A refused UPDATE is logged.
unfoldable pub give_up : Bool → Message → Detector → Detector
unfolding update
give_up fault m d = record d {
  table = (update fault (record m { status = "failed_stuck" }) d.table).1;
}

-- Whether ResetContactSession fails or not, the message is given up.
unfoldable pub reset : Bool → ℕ → String → Message → Detector → Detector
unfolding give_up
reset fault now key m d =
    give_up fault m (record d { attempts = put key now d.attempts; resets = (key, now) ∷ d.resets })

unfoldable pub check_message : Bool → ℕ → ℕ → String → Message → Detector → Detector
unfolding is_stuck is_shared reset_key retry_debounce give_up reset
check_message fault now timeout instance_id m d =
    if is_shared m || not (is_stuck now timeout m || m.status == "retry")
    then d
    else (let key = reset_key instance_id m in
        if attempted now (retry_debounce m) (get key d.attempts)
        then (if not (m.status == "failed_stuck") && not (m.status == "retry")
            then give_up fault m d
            else d)
        else reset fault now key m d)

unfoldable pub check_messages :
    (Message → Bool) → (Message → ℕ) → ℕ → String → List Message → Detector → Detector
unfolding check_message
check_messages fault now timeout instance_id [] d = d
check_messages fault now timeout instance_id (m ∷ ms) d =
    check_messages fault now timeout instance_id ms
      (check_message (fault m) (now m) timeout instance_id m d)

abbrev pub recently : ℕ → Option ℕ → Bool
recently now none = false
recently now (some connected_at) = ltb (now - connected_at) (5 * minute)

-- One instance of the sweep: an instance just connected is left alone.
unfoldable pub check_instance :
    Bool → (Message → Bool) → ℕ → (Message → ℕ) → ℕ → Option ℕ → String → Detector → Detector
unfolding check_messages list_by_instance
check_instance lists fault start now timeout connected_at instance_id d =
    if recently start connected_at then d else elim (list_by_instance lists instance_id d.table) [
      | err e ↦ d
      | ok ms ↦ check_messages fault now timeout instance_id ms d
    ]
