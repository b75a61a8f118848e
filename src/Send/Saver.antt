-- ===== src/Send/Saver.antt =====
-- internal/service/message/contact_saver.go: the recipient of a send is saved in the contact list of
-- the account. The stores of the WhatsApp client are a record of functions; a mutation of the app
-- state is kept in `mutations`, newest first, with the instant at which it goes out.
pub mod Spacing
use Prim.Native.String.{◌++◌}
use apime.Common.{
  ℕ, ◌+◌, ◌*◌, String, Bool, true, false, not, ◌&&◌, ◌||◌, Option, none, some, List, [], ◌∷◌, ◌==◌,
  ltb, if◌then◌else◌,
}
use apime.Common.Map.{Map, get, put, delete}
use apime.Common.Time.{millisecond, second, minute}
use apime.Send.Resolver.{Jid, Jids, empty_jid, default_user_server}

abbrev pub save_contact_seen_ttl : ℕ
save_contact_seen_ttl = 10 * minute

abbrev pub save_contact_min_interval : ℕ
save_contact_min_interval = 1 * second

-- types.HiddenUserServer
abbrev pub hidden_user_server : String
hidden_user_server = "lid"

pub record ContactInfo : Type 0 where
  pub full_name : String
  pub first_name : String
  pub push_name : String

-- `present`: the client has a store with contacts. A lookup of an identity gives none on an error;
-- `get_contact` gives whether it failed, and the contact.
pub record ClientStore : Type 0 where
  pub present : Bool
  pub has_lids : Bool
  pub get_pn_for_lid : Jid → Option Jid
  pub get_lid_for_pn : Jid → Option Jid
  pub get_contact : Jid → Bool × ContactInfo

pub record Mutation : Type 0 where
  pub at : ℕ
  pub pn : Jid
  pub full_name : String
  pub lid : Jid

-- saveContactSeen, saveContactLastByInst, and what was sent.
pub record Saver : Type 0 where
  pub seen : Map ℕ
  pub last : Map ℕ
  pub mutations : List Mutation

-- The instant that a call at `now` reserves.
unfoldable pub slot : ℕ → Option ℕ → ℕ
slot now none = now
slot now (some last) =
    if ltb now (last + save_contact_min_interval) then last + save_contact_min_interval else now

-- The instant at which the call returns, after its sleep. `jitter` is rand.Intn(500).
unfoldable pub throttle_save_contact : ℕ → ℕ → String → Map ℕ → ℕ × Map ℕ
unfolding slot get put
throttle_save_contact now jitter instance_id last =
    let next = slot now (get instance_id last) in
    (next + jitter * millisecond, put instance_id next last)

unfoldable pub is_seen : ℕ → Option ℕ → Bool
is_seen now none = false
is_seen now (some expires_at) = ltb now expires_at

module _ (jids : Jids) (store : ClientStore) where
  unfoldable pub known : Option Jid → Jid → Jid
  known none other = other
  known (some jid) other = if not (jids.is_empty jid) then jid else other

  -- The phone number and the LID of a recipient; none without a number.
  unfoldable pub identify : Jid → Option (Jid × Jid)
  unfolding known
  identify to =
      let given = jids.to_non_ad to in
      let found = store.get_pn_for_lid given in
      let pn =
        if store.has_lids
        then elim found [
          | none ↦ given
          | some jid ↦ if not (jids.is_empty jid) then jids.to_non_ad jid else given
        ]
        else given in
      if given.server == hidden_user_server
      then (if pn.server == hidden_user_server then none else some (pn, given))
      else some (
        given,
        (if store.has_lids then known (store.get_lid_for_pn given) empty_jid else empty_jid),
      )

  -- BuildContact and SendAppState, which is refused or not.
  unfoldable pub send_mutation : ℕ → ℕ → Bool → String → String → Jid → Jid → String → Saver → Saver
  unfolding throttle_save_contact put delete
  send_mutation now jitter refused instance_id key pn lid full_name s =
      let (at, last) = throttle_save_contact now jitter instance_id s.last in
      let marked = put key (now + save_contact_seen_ttl) s.seen in
      record {
        seen = if refused then delete key marked else marked;
        last = last;
        mutations = record { at = at; pn = pn; full_name = full_name; lid = lid } ∷ s.mutations;
      }

  -- The contact is looked up at `now`, and marked and sent at `later`.
  unfoldable pub save_contact : ℕ → ℕ → ℕ → Bool → String → Jid → Jid → String → Saver → Saver
  unfolding is_seen get put send_mutation
  save_contact now later jitter refused instance_id pn lid display_name s =
      let key = instance_id ++ ":" ++ jids.text pn in
      let (failed, contact) = store.get_contact pn in
      let full_name = if display_name == "" then contact.push_name else display_name in
      if is_seen now (get key s.seen)
      then s
      else if not failed && (not (contact.full_name == "") || not (contact.first_name == ""))
      then record s { seen = put key (later + save_contact_seen_ttl) s.seen }
      else if full_name == ""
      then s
      else send_mutation later jitter refused instance_id key pn lid full_name s

  -- `disabled`: APIME_AUTO_SAVE_CONTACT is "false".
  unfoldable pub auto_save_contact : Bool → ℕ → ℕ → ℕ → Bool → String → Jid → String → Saver → Saver
  unfolding identify save_contact
  auto_save_contact disabled now later jitter refused instance_id to display_name s =
      if disabled || not store.present
      then s
      else if not (to.server == default_user_server) && not (to.server == hidden_user_server)
      then s
      else elim (identify to) [
        | none ↦ s
        | some (pn, lid) ↦ save_contact now later jitter refused instance_id pn lid display_name s
      ]
