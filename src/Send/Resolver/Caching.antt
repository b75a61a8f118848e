-- ===== src/Send/Resolver/Caching.antt =====
-- What the memory cache answers after a lookup, and after an event that confirms a number.
use apime.Common.{
  ℕ, ◌+◌, ◌<◌, String, ◌≡◌, refl, ap, ◌∙◌, Bool, false, not, ◌||◌, some, List, [], ◌==◌, lt→ltb,
  eq_refl, arith, Result, ok, err, ◌⊎◌,
}
use apime.Common.Map.{get, delete, get-put}
use apime.Send.Resolver.{
  Jid, default_user_server, Jids, Resolver, Config, OnWhatsApp, LookupError, ContactFaults,
  positive_ttl, destination, number, cached, store, save, look_up, resolve_jid, confirmed_by,
  confirm_jid, ResolveResult,
}

module _ (jids : Jids) where
  abbrev pub Query : Type 0
  Query = String → Result LookupError (List OnWhatsApp)

  cache-save :
      (fault : Bool) (now : ℕ) (phone text : String) (r : Resolver)
      → (save jids fault now phone text r).cache ≡ r.cache
  unfolding save
  cache-save fault now phone text r = ground arith

  get-store :
      (fault : Bool) (now : ℕ) (phone text : String) (jid : Jid) (e : ℕ) (r : Resolver)
      → get phone (save jids fault now phone text (store jids phone jid e r)).cache
        ≡ some (record { jid = jid; expires_at = e })
  unfolding store
  get-store fault now phone text jid e r =
      ap (get phone) (cache-save fault now phone text (store jids phone jid e r))
      ∙ get-put phone phone (record { jid = jid; expires_at = e }) r.cache
      ∙ rw (eq_refl phone) refl

  -- An entry that holds answers without asking.
  answered_by_cache :
      (query : Query) (faults : ContactFaults) (cfg : Config) (now later : ℕ) (input phone : String)
      (jid : Jid) (e : ℕ) (r : Resolver)
      → destination input ≡ number phone
      → get phone r.cache ≡ some (record { jid = jid; expires_at = e })
      → now < e
      → resolve_jid jids query faults cfg now later input r ≡ ([], (cached jids jid, r))
  unfolding resolve_jid cached
  answered_by_cache query faults cfg now later input phone jid e r as_number found live =
      rw (as_number, found, lt→ltb now e live, resolve_jid) refl

  -- An event from a number on WhatsApp that no entry of the cache confirms yet, whatever the cache or
  -- the table says of it, also that it is not on WhatsApp: until the new entry expires, a send to the
  -- number goes to the event's JID without a query. It is assumed of the library that a JID without
  -- its device is not empty and has no device to drop.
  pub confirmed_resolves :
      (query : Query) (faults faults' : ContactFaults) (cfg : Config) (t now later : ℕ)
      (input : String) (jid : Jid) (r : Resolver)
      → jid.server ≡ default_user_server
      → (jid.user == "") ≡ false
      → confirmed_by jids query faults cfg t
          (jids.to_non_ad jid)
          (get (jids.to_non_ad jid).user r.cache)
        ≡ false
      → jids.is_empty (jids.to_non_ad jid) ≡ false
      → jids.to_non_ad (jids.to_non_ad jid) ≡ jids.to_non_ad jid
      → destination input ≡ number (jids.to_non_ad jid).user
      → now < t + positive_ttl cfg
      → (resolve_jid jids query faults' cfg now later input
            (confirm_jid jids query faults cfg t jid r)).0
          ≡ []
        × (resolve_jid jids query faults' cfg now later input
            (confirm_jid jids query faults cfg t jid r)).1.0
          ≡ ok (jids.to_non_ad jid)
  unfolding confirm_jid cached
  confirmed_resolves query faults faults' cfg t now later input jid r server user unconfirmed full
        idem as_number soon =
      let to = jids.to_non_ad jid in
      let saved = save jids faults.upserts t to.user (jids.text to) (
        store jids to.user to (t + positive_ttl cfg)
          (record r { cache = delete to.user r.cache })) in
      let found =
        get-store faults.upserts t to.user (jids.text to) to (t + positive_ttl cfg)
          (record r { cache = delete to.user r.cache }) in
      let accepted : (not (jid.server == default_user_server) || jid.user == "") ≡ false =
        rw (server, user) refl in
      let confirmed : confirm_jid jids query faults cfg t jid r ≡ saved =
        rw (accepted, unconfirmed, confirm_jid) refl in
      let answer =
        answered_by_cache query faults' cfg now later input to.user to (t + positive_ttl cfg) saved
          as_number found soon in
      rw (confirmed, answer) (refl, rw (full, idem) refl)

  abbrev pub non_ad : ResolveResult jids → ResolveResult jids
  non_ad (ok jid) = ok (jids.to_non_ad jid)
  non_ad (err e) = err e

  abbrev Looked :
      Query
      → ContactFaults
      → Config
      → ℕ
      → String
      → List String × (ResolveResult jids × Resolver)
      → Type 0
  Looked query faults cfg later phone result =
      (result.0 ≡ []) ⊎ ((r : Resolver) × (result ≡ look_up jids query faults cfg later phone r))
