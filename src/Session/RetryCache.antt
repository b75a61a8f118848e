-- ===== src/Session/RetryCache.antt =====
-- internal/session/whatsmeow/retry_cache.go: the messages sent, kept so that a device that could not
-- decrypt one gets it again. `M` is the protobuf of a message.
pub mod Laws
use apime.Common.{
  ℕ, ◌+◌, ◌-◌, ◌*◌, String, Bool, true, false, not, ◌||◌, Option, none, some, List, ◌==◌, leb, ltb,
  Result, ok, err, if◌then◌else◌,
}
use apime.Common.Map.{Map, get, put, delete, retain}
use apime.Common.Time.{minute, hour}
use apime.Message.Repo.{Message}

abbrev pub outgoing_msg_cache_ttl : ℕ
outgoing_msg_cache_ttl = 30 * minute

abbrev pub status_msg_cache_ttl : ℕ
status_msg_cache_ttl = 24 * hour

pub record OutgoingMsgEntry {ℓ} (M : Type ℓ) : Type ℓ where
  pub msg : M
  pub at : ℕ
  pub ttl : ℕ

-- The message handed to WhatsApp for a retry: the one that was sent, or a text from the table.
pub data Retry {ℓ} (M : Type ℓ) : Type ℓ where
  same : M → Retry M
  conversation : String → Retry M

module _ {ℓ} {M : Type ℓ} where
  unfoldable pub is_fresh : ℕ → OutgoingMsgEntry M → Bool
  is_fresh now e = leb (now - e.at) e.ttl

  -- `is_status`: the chat is types.StatusBroadcastJID; `none`: no protobuf.
  unfoldable pub cache_outgoing_message :
      ℕ → String → Bool → Option M → Map (OutgoingMsgEntry M) → Map (OutgoingMsgEntry M)
  unfolding put retain is_fresh
  cache_outgoing_message now id is_status none cache = cache
  cache_outgoing_message now id is_status (some msg) cache =
      if id == ""
      then cache
      else retain (λ k e. is_fresh now e)
          (put id
            (record {
              msg = msg;
              at = now;
              ttl = if is_status then status_msg_cache_ttl else outgoing_msg_cache_ttl;
            })
            cache)

  unfoldable pub from_table : Option Message → Option (Retry M)
  from_table none = none
  from_table (some row) = if row.type == "text" then some (conversation row.payload) else none

  abbrev pub from_entry :
      ℕ
      → String
      → Option (OutgoingMsgEntry M)
      → Option Message
      → Map (OutgoingMsgEntry M)
      → Option (Retry M) × Map (OutgoingMsgEntry M)
  from_entry now id none row cache = (from_table row, cache)
  from_entry now id (some e) row cache =
      if is_fresh now e then (some (same e.msg), cache) else (from_table row, delete id cache)

  -- The callback of getMessageForRetryCallback; `row` is what the message table answers for the id.
  unfoldable pub get_message_for_retry :
      ℕ
      → String
      → Option Message
      → Map (OutgoingMsgEntry M)
      → Option (Retry M) × Map (OutgoingMsgEntry M)
  unfolding from_table
  get_message_for_retry now id row cache = from_entry now id (get id cache) row cache
