-- ===== src/Webhook/CallEvents.antt =====
-- internal/webhook/calls.go, with resolvePNFromStore of internal/webhook/normalizer.go: the webhooks of
-- calls. A payload is a map of Go, and `result[key] = v` is put.
pub mod Ends
use apime.Common.{
  ℕ, String, Bool, true, false, not, ◌&&◌, ◌||◌, Option, none, some, [], ◌∷◌, ◌==◌, Result, ok, err,
  if◌then◌else◌,
}
use apime.Common.Map.{Map, get, put}
use apime.Calls.{
  Direction, incoming, outgoing, Kind, kind_state, kind_ended, kind_accepted, kind_video,
  StateEvent,
}
use apime.Send.Resolver.{Jid, Jids, empty_jid, default_user_server}
use apime.Send.Saver.{hidden_user_server}

pub data Value : Type 0 where
  text : String → Value
  number : ℕ → Value
  flag : Bool → Value

-- What is asked of the client. `pn_for_lid`: none where it, or its store, is nil.
pub record Lookup : Type 0 where
  pub jids : Jids
  pub own_lid : Jid
  pub pn_for_lid : Option (Jid → Result String Jid)

-- types.BasicCallMeta
pub record CallMeta : Type 0 where
  pub from : Jid
  pub call_creator : Jid
  pub call_creator_alt : Jid
  pub call_id : String
  pub timestamp : ℕ

-- The attributes of an offer's node that are read, empty where they are missing, and whether it has a
-- child with the tag video.
pub record OfferNode : Type 0 where
  pub is_call_ended : String
  pub terminate_reason : String
  pub has_video : Bool
  pub group_jid : Jid
  pub joinable : String

pub data CallEvent : Type 0 where
  call_offer : CallMeta → String → Jid → Option OfferNode → CallEvent
  call_terminate : CallMeta → String → CallEvent
  call_reject : CallMeta → CallEvent
  state_event : StateEvent → CallEvent
  other_event : CallEvent

unfoldable pub known_pn : Jids → Result String Jid → Jid
known_pn jids (err message) = empty_jid
known_pn jids (ok pn) =
    if jids.is_empty pn || not (pn.server == default_user_server) then empty_jid else pn

unfoldable pub direction_text : Direction → String
direction_text incoming = "incoming"
direction_text outgoing = "outgoing"

unfoldable pub kind_text : Kind → String
kind_text kind_state = "call.state"
kind_text kind_ended = "call.ended"
kind_text kind_accepted = "call.accepted"
kind_text kind_video = "call.video"

unfoldable pub ended_by : String → Map Value → Map Value
ended_by reason result = put "reason" (text reason) (put "type" (text "call.ended") result)

module _ (lookup : Lookup) where
  abbrev jids : Jids
  jids = lookup.jids

  unfoldable pub resolve_pn_from_store : Jid → Jid
  unfolding known_pn
  resolve_pn_from_store lid = elim lookup.pn_for_lid [
    | none ↦ empty_jid
    | some get_pn_for_lid ↦
        if not (lid.server == hidden_user_server) || lid.user == ""
        then empty_jid
        else known_pn jids (get_pn_for_lid (jids.to_non_ad lid))
  ]

  unfoldable pub caller_of : CallMeta → Jid
  caller_of meta = if jids.is_empty meta.call_creator then meta.from else meta.call_creator

  unfoldable pub caller_pn : CallMeta → Jid
  unfolding caller_of resolve_pn_from_store
  caller_pn meta =
      if not (meta.call_creator_alt.server == default_user_server)
      then resolve_pn_from_store (caller_of meta)
      else meta.call_creator_alt

  -- The phone of a hidden caller replaces its LID, which is kept apart.
  unfoldable pub with_lid : CallMeta → Map Value → Map Value
  unfolding caller_of caller_pn
  with_lid meta result =
      let lid = jids.text (jids.to_non_ad (caller_of meta)) in
      if not ((caller_of meta).server == hidden_user_server)
      then result
      else if not (jids.is_empty (caller_pn meta))
      then put "from" (text (jids.text (jids.to_non_ad (caller_pn meta))))
          (put "lid" (text lid) result)
      else put "lid" (text lid) result

  unfoldable pub call_meta : CallMeta → Map Value
  unfolding caller_of with_lid
  call_meta meta = put "rejectFrom" (text (jids.text meta.from)) (
      with_lid meta (
        ("callId", text meta.call_id)
        ∷ ("from", text (jids.text (jids.to_non_ad (caller_of meta))))
        ∷ ("timestamp", number meta.timestamp)
        ∷ []))

  unfoldable pub offered : Bool → String → Jid → Bool → Map Value → Map Value
  offered is_video platform group joinable result =
      let base = put "isGroup" (flag (not (jids.is_empty group))) (
        put "platform" (text platform)
          (put "isVideo" (flag is_video) (put "type" (text "call.offer") result))) in
      put "joinable" (flag joinable)
        (if not (jids.is_empty group) then put "groupJid" (text (jids.text group)) base else base)

  unfoldable pub normalize_offer : CallMeta → String → Jid → Option OfferNode → Map Value
  unfolding call_meta ended_by offered
  normalize_offer meta platform group none = offered false platform group false (call_meta meta)
  normalize_offer meta platform group (some node) =
      if node.is_call_ended == "1" || not (node.terminate_reason == "")
      then ended_by node.terminate_reason (call_meta meta)
      else offered node.has_video platform (if jids.is_empty group then node.group_jid else group)
          (node.joinable == "1") (call_meta meta)

  unfoldable pub reject_reason : CallMeta → String
  reject_reason meta =
      if not (jids.is_empty lookup.own_lid) && meta.from.user == lookup.own_lid.user
      then "rejected_elsewhere"
      else "rejected"

  -- What the peer's phone replaces, and the reason.
  unfoldable pub with_peer : String → Map Value → Map Value
  unfolding resolve_pn_from_store
  with_peer peer result = elim (jids.parse peer) [
    | err message ↦ result
    | ok jid ↦
        if not (jids.is_empty (resolve_pn_from_store jid))
        then put "lid" (text (jids.text (jids.to_non_ad jid)))
            (put "from" (text (jids.text (resolve_pn_from_store jid))) result)
        else result
  ]

  unfoldable pub with_reason : Kind → String → Map Value → Map Value
  with_reason kind_video reason result = put "video" (text reason) result
  with_reason _ reason result =
      if not (reason == "") then put "reason" (text reason) result else result

  unfoldable pub normalize_state : StateEvent → Map Value
  unfolding kind_text direction_text with_peer with_reason
  normalize_state evt =
      let c = evt.call in
      let base =
        ("type", text (kind_text evt.kind))
        ∷ ("callId", text c.id)
        ∷ ("from", text c.peer)
        ∷ ("direction", text (direction_text c.direction))
        ∷ ("state", text c.state)
        ∷ ("startedAt", number c.started_at)
        ∷ ("isVideo", flag c.is_video)
        ∷ ("isGroup", flag (not (c.group_jid == "")))
        ∷ [] in
      with_reason evt.kind evt.reason (
        with_peer c.peer
          (if not (c.group_jid == "") then put "groupJid" (text c.group_jid) base else base))

  unfoldable pub normalize_call : CallEvent → Option (Map Value)
  unfolding normalize_offer reject_reason normalize_state call_meta ended_by
  normalize_call (call_offer meta platform group node) =
      some (normalize_offer meta platform group node)
  normalize_call (call_terminate meta reason) = some (ended_by reason (call_meta meta))
  normalize_call (call_reject meta) = some (ended_by (reject_reason meta) (call_meta meta))
  normalize_call (state_event evt) = some (normalize_state evt)
  normalize_call other_event = none
