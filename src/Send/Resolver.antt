-- ===== src/Send/Resolver.antt =====
-- internal/service/message/jid_resolver.go over internal/storage/sqlite/contact_repo.go: from a phone
-- number to the JID a message is sent to. types.JID and its functions are of the WhatsApp library: a
-- record of functions, with no laws. Phone numbers are ASCII.
pub mod Variants
pub mod Caching
use Prim.Native.Char.{code}
use Prim.Native.String.{◌++◌}
use mathlib.Core.List.{◌++◌ as append}
use text.Mathlib.Text.{starts_with}
use apime.Common.{
  ℕ, zero, suc, ◌+◌, ◌-◌, ◌*◌, String, Bool, true, false, not, ◌&&◌, ◌||◌, Option, none, some, List,
  [], ◌∷◌, ◌==◌, leb, ltb, eqb, Result, ok, err, if◌then◌else◌,
}
use apime.Common.Text.{
  trim_space, contains, trim_suffix, take_text, drop_text, text_length, digits_only,
}
use apime.Common.Map.{Map, get, put, delete}
use apime.Common.Table.{first, update_where}
use apime.Common.Time.{hour, second, rfc3339}

pub record Jid : Type 0 where
  pub user : String
  pub server : String
  pub device : ℕ

-- types.EmptyJID
abbrev pub empty_jid : Jid
empty_jid = record { user = ""; server = ""; device = 0 }

abbrev pub default_user_server : String
default_user_server = "s.whatsapp.net"

pub record Jids : Type 0 where
  pub parse : String → Result String Jid
  pub text : Jid → String
  pub to_non_ad : Jid → Jid
  pub is_empty : Jid → Bool

-- A row of the table contacts; instants are seconds.
pub record Contact : Type 0 where
  pub phone : String
  pub jid : String
  pub created_at : ℕ
  pub updated_at : ℕ

pub record JidCacheEntry : Type 0 where
  pub jid : Jid
  pub expires_at : ℕ

pub record Config : Type 0 where
  pub negative_ttl_days : ℕ
  pub positive_db_ttl_days : ℕ
  pub positive_ttl_hours : ℕ

-- jidCache and the contacts; `has_repo`: the service has a contact repository.
pub record Resolver : Type 0 where
  pub cache : Map JidCacheEntry
  pub contacts : List Contact
  pub has_repo : Bool

-- types.IsOnWhatsAppResponse
pub record OnWhatsApp : Type 0 where
  pub is_in : Bool
  pub jid : Jid
  pub phone_number : Jid

-- An error of the query, and whether isTransportDown finds the socket behind it.
pub record LookupError : Type 0 where
  pub transport_down : Bool
  pub message : String

pub data ResolveError : Type 0 where
  empty_phone invalid_jid lookup_unavailable lookup_failed : ResolveError
  parse_error : String → ResolveError

-- Which statements the database refuses.
pub record ContactFaults : Type 0 where
  pub gets : Bool
  pub upserts : Bool

unfoldable pub has_phone : String → Contact → Bool
has_phone phone c = c.phone == phone

-- contactRepo.Upsert
unfoldable pub upsert : Bool → ℕ → String → String → List Contact → List Contact
unfolding has_phone
upsert fault now phone jid t = if fault then t else elim (first (has_phone phone) t) [
  | none ↦
      append t (
        record { phone = phone; jid = jid; created_at = rfc3339 now; updated_at = rfc3339 now }
        ∷ [])
  | some _ ↦
      update_where (has_phone phone) (λ c. record c { jid = jid; updated_at = rfc3339 now }) t
]

-- contactRepo.GetByPhone
unfoldable pub get_by_phone : Bool → String → List Contact → Option Contact
unfolding has_phone
get_by_phone fault phone t = if fault then none else first (has_phone phone) t

unfoldable pub negative_ttl : Config → ℕ
negative_ttl cfg = cfg.negative_ttl_days * (24 * hour)

unfoldable pub positive_db_ttl : Config → ℕ
positive_db_ttl cfg = cfg.positive_db_ttl_days * (24 * hour)

unfoldable pub positive_ttl : Config → ℕ
positive_ttl cfg = cfg.positive_ttl_hours * hour

-- The other spelling of a Brazilian number: without or with the ninth digit. "": none.
unfoldable pub is_mobile : String → Bool
is_mobile String.[] = false
is_mobile (String.◌∷◌ c s) = leb 54 (code c) && leb (code c) 57

unfoldable pub variant_of : String → String
unfolding is_mobile
variant_of phone =
    if eqb (text_length phone) 13 && starts_with phone "55"
    then take_text 4 phone ++ drop_text 5 phone
    else if eqb (text_length phone) 12 && starts_with phone "55"
    then (if is_mobile (drop_text 4 phone)
        then take_text 4 phone ++ ("9" ++ drop_text 4 phone)
        else "")
    else ""

-- How a destination is handled: by its text alone, or as a number.
pub data Destination : Type 0 where
  blank : Destination
  group lid number : String → Destination

unfoldable pub destination : String → Destination
destination input =
    let phone = trim_space input in
    if phone == ""
    then blank
    else if contains phone "@g.us" || contains phone "@broadcast"
    then group phone
    else if contains phone "@lid"
    then lid phone
    else number (
        trim_suffix (if not (contains phone "@") then digits_only phone else phone)
          "@s.whatsapp.net")

module _ (jids : Jids) where
  unfoldable pub resolve_is_on_whats_app_jid : OnWhatsApp → Jid
  resolve_is_on_whats_app_jid item =
      if item.jid.server == default_user_server && not (item.jid.user == "")
      then item.jid
      else if item.phone_number.server == default_user_server && not (item.phone_number.user == "")
      then item.phone_number
      else empty_jid

  -- The first response with a JID, or the empty JID.
  unfoldable pub pick : List OnWhatsApp → Jid
  unfolding resolve_is_on_whats_app_jid
  pick [] = empty_jid
  pick (item ∷ resp) =
      let rest = pick resp in
      if item.is_in && not (jids.is_empty (resolve_is_on_whats_app_jid item))
      then resolve_is_on_whats_app_jid item
      else rest

  abbrev pub ResolveResult : Type 0
  ResolveResult = Result ResolveError Jid

  abbrev pub parsed : Result String Jid → ResolveResult
  parsed (ok jid) = ok jid
  parsed (err message) = err (parse_error message)

  abbrev pub lid_parsed : Result String Jid → ResolveResult
  lid_parsed (ok jid) = ok (jids.to_non_ad jid)
  lid_parsed (err message) = err invalid_jid

  -- The answer of a cache entry that has not expired.
  unfoldable pub cached : Jid → ResolveResult
  cached jid = if jids.is_empty jid then err invalid_jid else ok (jids.to_non_ad jid)

  unfoldable pub store : String → Jid → ℕ → Resolver → Resolver
  store phone jid expires_at r = record r {
    cache = put phone (record { jid = jid; expires_at = expires_at }) r.cache;
  }

  unfoldable pub save : Bool → ℕ → String → String → Resolver → Resolver
  save fault now phone jid r =
      if r.has_repo then record r { contacts = upsert fault now phone jid r.contacts } else r

  -- What the contact found says: an answer and the entry to store, or nothing that holds.
  unfoldable pub from_contact : Config → ℕ → Option Contact → Option (ResolveResult × JidCacheEntry)
  unfolding negative_ttl positive_db_ttl positive_ttl
  from_contact cfg now none = none
  from_contact cfg now (some c) =
      let age = now - c.updated_at * second in
      if c.jid == ""
      then (if ltb age (negative_ttl cfg)
          then some (
            err invalid_jid,
            record { jid = empty_jid; expires_at = c.updated_at * second + negative_ttl cfg },
          )
          else none)
      else elim (jids.parse c.jid) [
        | err _ ↦ none
        | ok jid ↦
            if ltb age (positive_db_ttl cfg)
            then some (
              ok (jids.to_non_ad jid),
              record { jid = jids.to_non_ad jid; expires_at = now + positive_ttl cfg },
            )
            else none
      ]

  -- The answers of IsOnWhatsApp during this call, and the clock when they are stored.
  module _ (is_on_whatsapp : String → Result LookupError (List OnWhatsApp)) (faults : ContactFaults)
      (cfg : Config) where
    abbrev pub picked : Result LookupError (List OnWhatsApp) → Jid
    picked (err _) = empty_jid
    picked (ok resp) = pick resp

    -- The query for the variant, if there is one: the numbers asked, and the JID found.
    unfoldable pub ask_variant : String → List String × Jid
    ask_variant variant =
        if not (variant == "")
        then (variant ∷ [], picked (is_on_whatsapp variant))
        else ([], empty_jid)

    unfoldable pub ask : String → List OnWhatsApp → List String × Jid
    unfolding ask_variant pick
    ask phone resp =
        if jids.is_empty (pick resp) then ask_variant (variant_of phone) else ([], pick resp)

    unfoldable pub conclude : ℕ → String → Jid → Resolver → ResolveResult × Resolver
    unfolding store save negative_ttl positive_ttl
    conclude now phone jid r =
        if jids.is_empty jid
        then (
          err invalid_jid,
          save faults.upserts now phone "" (store phone empty_jid (now + negative_ttl cfg) r),
        )
        else (
          ok jid,
          save faults.upserts now phone (jids.text jid)
              (store phone jid (now + positive_ttl cfg) r),
        )

    -- The lookup at WhatsApp, with the numbers asked.
    unfoldable pub look_up : ℕ → String → Resolver → List String × (ResolveResult × Resolver)
    unfolding ask conclude
    look_up now phone r = elim (is_on_whatsapp phone) [
      | err e ↦
          (phone ∷ [], (err (if e.transport_down then lookup_unavailable else lookup_failed), r))
      | ok resp ↦ (phone ∷ (ask phone resp).0, conclude now phone (ask phone resp).1 r)
    ]

    unfoldable pub without_cache :
        ℕ → ℕ → String → Resolver → List String × (ResolveResult × Resolver)
    unfolding from_contact look_up store get_by_phone
    without_cache now later phone r =
        elim (from_contact cfg now
          (if r.has_repo then get_by_phone faults.gets phone r.contacts else none)) [
            | some (answer, entry) ↦ ([], (answer, store phone entry.jid entry.expires_at r))
            | none ↦
                if not (starts_with phone "55")
                then ([], (parsed (jids.parse (phone ++ "@s.whatsapp.net")), r))
                else look_up later phone r
          ]

    abbrev pub by_cache :
        ℕ → ℕ → String → Option JidCacheEntry → Resolver → List String × (ResolveResult × Resolver)
    by_cache now later phone none r = without_cache now later phone r
    by_cache now later phone (some entry) r =
        if ltb now entry.expires_at
        then ([], (cached entry.jid, r))
        else without_cache now later phone (record r { cache = delete phone r.cache })

    -- `now` is the clock at the call, `later` after the queries.
    unfoldable pub resolve_jid :
        ℕ → ℕ → String → Resolver → List String × (ResolveResult × Resolver)
    unfolding destination without_cache cached
    resolve_jid now later input r = elim (destination input) [
      | blank ↦ ([], (err empty_phone, r))
      | group phone ↦ ([], (parsed (jids.parse phone), r))
      | lid phone ↦ ([], (lid_parsed (jids.parse phone), r))
      | number phone ↦ by_cache now later phone (get phone r.cache) r
    ]

    abbrev pub confirmed_by : ℕ → Jid → Option JidCacheEntry → Bool
    confirmed_by now jid none = false
    confirmed_by now jid (some entry) =
        not (jids.is_empty entry.jid)
        && jids.text entry.jid == jids.text jid
        && ltb now entry.expires_at

    unfoldable pub confirm_jid : ℕ → Jid → Resolver → Resolver
    unfolding store save positive_ttl
    confirm_jid now event_jid r =
        if not (event_jid.server == default_user_server) || event_jid.user == ""
        then r
        else (let jid = jids.to_non_ad event_jid in
            let phone = jid.user in
            if confirmed_by now jid (get phone r.cache)
            then r
            else save faults.upserts now phone (jids.text jid) (
                store phone jid (now + positive_ttl cfg)
                  (record r { cache = delete phone r.cache })))
