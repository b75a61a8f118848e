-- ===== src/Send/PresenceState.antt =====
-- internal/service/message/presence_state.go: what was already signaled to WhatsApp, so that a signal
-- that still holds is not repeated.
pub mod Laws
use text.Mathlib.Text.{starts_with}
use Prim.Native.String.{◌++◌}
use apime.Common.{
  ℕ, ◌-◌, ◌*◌, String, Bool, true, false, not, Option, none, some, leb, if◌then◌else◌,
}
use apime.Common.Map.{Map, get, put, delete, retain}
use apime.Common.Time.{second, minute}

abbrev pub available_ttl : ℕ
available_ttl = 15 * minute

abbrev pub composing_ttl : ℕ
composing_ttl = 8 * second

-- availableAt and composingAt.
pub record Presence : Type 0 where
  pub available_at : Map ℕ
  pub composing_at : Map ℕ

unfoldable pub chat_key : String → String → String
chat_key instance_id chat_jid = instance_id ++ "|" ++ chat_jid

unfoldable pub expired : ℕ → ℕ → Option ℕ → Bool
expired now ttl none = true
expired now ttl (some at) = leb ttl (now - at)

unfoldable pub needs_available : ℕ → String → Presence → Bool × Presence
unfolding expired
needs_available now instance_id p =
    if not (expired now available_ttl (get instance_id p.available_at))
    then (false, p)
    else (true, record p { available_at = put instance_id now p.available_at })

unfoldable pub needs_composing : ℕ → String → String → Presence → Bool × Presence
unfolding expired chat_key
needs_composing now instance_id chat_jid p =
    let key = chat_key instance_id chat_jid in
    if not (expired now composing_ttl (get key p.composing_at))
    then (false, p)
    else (true, record p { composing_at = put key now p.composing_at })

unfoldable pub forget_composing : String → String → Presence → Presence
unfolding chat_key
forget_composing instance_id chat_jid p = record p {
  composing_at = delete (chat_key instance_id chat_jid) p.composing_at;
}

unfoldable pub forget_instance_presence : String → Presence → Presence
forget_instance_presence instance_id p = record {
  available_at = delete instance_id p.available_at;
  composing_at = retain (λ key at. not (starts_with key (instance_id ++ "|"))) p.composing_at;
}
