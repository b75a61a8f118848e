-- ===== src/Send/Inbound.antt =====
-- internal/service/message/inbound_tracker.go: who wrote last in a chat, for the read receipt and the
-- typing delay. `normalize` is normalizeChatKey, whose parser is the library's.
pub mod Laws
use Prim.Native.String.{◌++◌}
use apime.Common.{
  ℕ, ◌+◌, ◌-◌, ◌*◌, String, ◌≡◌, Bool, true, false, not, Option, none, some, ltb, leb,
  if◌then◌else◌,
}
use apime.Common.Map.{Map, get, put, delete, retain}
use apime.Common.Time.{hour}

abbrev pub inbound_ttl : ℕ
inbound_ttl = 14 * 24 * hour

pub record InboundEntry : Type 0 where
  pub message_id : String
  pub sender_jid : String
  pub tracked_at : ℕ

-- inboundTracker and lastInboundAt.
pub record Tracker : Type 0 where
  pub entries : Map InboundEntry
  pub last_at : Map ℕ

module _ (normalize : String → String) where
  unfoldable pub inbound_key : String → String → String
  inbound_key instance_id chat_jid = instance_id ++ ":" ++ normalize chat_jid

  unfoldable pub track_inbound : ℕ → String → String → String → String → Tracker → Tracker
  unfolding inbound_key
  track_inbound now instance_id chat_jid message_id sender_jid t =
      let key = inbound_key instance_id chat_jid in
      record {
        entries =
            put key (record { message_id = message_id; sender_jid = sender_jid; tracked_at = now })
              t.entries;
        last_at = put key now t.last_at;
      }

  unfoldable pub time_since_last_inbound : ℕ → String → String → Tracker → Option ℕ
  unfolding inbound_key
  time_since_last_inbound now instance_id chat_jid t =
      elim (get (inbound_key instance_id chat_jid) t.last_at) [
        | none ↦ none
        | some at ↦ some (now - at)
      ]

  unfoldable pub is_live : ℕ → InboundEntry → Bool
  is_live now e = leb (now - e.tracked_at) inbound_ttl

  unfoldable pub pop_last_inbound : ℕ → String → String → Tracker → Option InboundEntry × Tracker
  unfolding inbound_key is_live
  pop_last_inbound now instance_id chat_jid t =
      let key = inbound_key instance_id chat_jid in
      elim (get key t.entries) [
        | none ↦ (none, t)
        | some e ↦
            (if is_live now e then some e else none, record t { entries = delete key t.entries })
      ]

  unfoldable pub has_recent_inbound : ℕ → String → String → Tracker → Bool
  unfolding inbound_key is_live
  has_recent_inbound now instance_id chat_jid t =
      elim (get (inbound_key instance_id chat_jid) t.entries) [
        | none ↦ false
        | some e ↦ is_live now e
      ]

-- A tick of the cleanup loop.
unfoldable pub inbound_cleanup : ℕ → Tracker → Tracker
inbound_cleanup now t = record {
  entries = retain (λ k e. not (ltb inbound_ttl (now - e.tracked_at))) t.entries;
  last_at = retain (λ k at. not (ltb inbound_ttl (now - at))) t.last_at;
}
