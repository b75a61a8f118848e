-- ===== src/Webhook/Identity.antt =====
-- Who an event is about, in internal/webhook/normalizer.go and internal/webhook/broadcast.go.
pub mod Replies
use apime.Common.{
  ℕ, String, Bool, not, ◌&&◌, ◌||◌, Option, none, some, List, [], ◌∷◌, ◌==◌, Result, ok, err,
  if◌then◌else◌,
}
use apime.Send.Resolver.{
  Jid, Jids, Resolver, ContactFaults, Config, OnWhatsApp, LookupError, empty_jid,
  default_user_server, confirm_jid,
}
use apime.Send.Saver.{hidden_user_server}

-- types.MessageInfo, as far as it is read.
pub record MessageInfo : Type 0 where
  pub chat : Jid
  pub sender : Jid
  pub sender_alt : Jid
  pub recipient_alt : Jid
  pub is_from_me : Bool
  pub is_group : Bool

-- The events from which a JID is confirmed. A receipt has its group flag, sender and message sender.
pub data Event : Type 0 where
  message_event : MessageInfo → Event
  receipt_event : Bool → Jid → Jid → Event
  presence_event : Jid → Event
  other_event : Event

pub record Recipient : Type 0 where
  pub lid : Jid
  pub pn : Jid

pub record RecipientEntry : Type 0 where
  pub pn : Option String
  pub lid : Option String

unfoldable pub is_phone : Jid → Bool
is_phone jid = jid.server == default_user_server && not (jid.user == "")

unfoldable pub phone_of : Jid → Jid → Jid
unfolding is_phone
phone_of primary alt = if is_phone primary then primary else if is_phone alt then alt else empty_jid

module _ (jids : Jids) where
  unfoldable pub message_jid : MessageInfo → Jid
  unfolding phone_of
  message_jid info =
      if jids.is_empty (phone_of info.sender info.sender_alt) && info.is_from_me
      then phone_of info.chat info.recipient_alt
      else phone_of info.sender info.sender_alt

  -- The JID that is confirmed.
  unfoldable pub event_jid : Event → Jid
  unfolding phone_of message_jid
  event_jid (message_event info) = if info.is_group then empty_jid else message_jid info
  event_jid (receipt_event is_group sender message_sender) =
      if is_group then empty_jid else phone_of sender message_sender
  event_jid (presence_event from) = phone_of from empty_jid
  event_jid other_event = empty_jid

  unfoldable pub lid_for_event : MessageInfo → Jid
  lid_for_event info =
      if info.chat.server == hidden_user_server
      then jids.to_non_ad info.chat
      else if info.sender.server == hidden_user_server
      then jids.to_non_ad info.sender
      else if info.is_from_me
      then (if info.recipient_alt.server == hidden_user_server
          then jids.to_non_ad info.recipient_alt
          else empty_jid)
      else if info.sender_alt.server == hidden_user_server
      then jids.to_non_ad info.sender_alt
      else empty_jid

  -- `resolve_pn`: none where it is nil.
  unfoldable pub recipient_pn : Option (Jid → Jid) → Recipient → Jid
  recipient_pn none r = r.pn
  recipient_pn (some resolve) r =
      if jids.is_empty r.pn && not (jids.is_empty r.lid) then resolve r.lid else r.pn

  unfoldable pub known_text : Jid → Option String
  known_text jid = if not (jids.is_empty jid) then some (jids.text jid) else none

  unfoldable pub broadcast_recipients : Option (Jid → Jid) → List Recipient → List RecipientEntry
  unfolding recipient_pn known_text
  broadcast_recipients resolve_pn [] = []
  broadcast_recipients resolve_pn (r ∷ rs) =
      let rest = broadcast_recipients resolve_pn rs in
      if jids.is_empty (recipient_pn resolve_pn r) && jids.is_empty r.lid
      then rest
      else (record { pn = known_text (recipient_pn resolve_pn r); lid = known_text r.lid } ∷ rest)

module _ (jids : Jids) (is_on_whatsapp : String → Result LookupError (List OnWhatsApp)) where
  unfoldable pub confirm_jid_from_event : ContactFaults → Config → ℕ → Event → Resolver → Resolver
  unfolding event_jid
  confirm_jid_from_event faults cfg now evt r =
      if jids.is_empty (event_jid jids evt)
      then r
      else confirm_jid jids is_on_whatsapp faults cfg now (event_jid jids evt) r
