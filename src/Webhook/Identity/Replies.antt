-- ===== src/Webhook/Identity/Replies.antt =====
-- The answer to a contact that wrote under its LID: internal/webhook/normalizer.go and the resolver.
use apime.Common.{ℕ, ◌+◌, ◌<◌, String, ◌≡◌, refl, true, false, [], ◌==◌, ok}
use apime.Common.Map.{get}
use apime.Send.Resolver.{
  Jids, Resolver, ContactFaults, Config, default_user_server, positive_ttl, destination, number,
  resolve_jid, confirmed_by,
}
use apime.Send.Resolver.Caching.{Query, confirmed_resolves}
use apime.Send.Saver.{hidden_user_server}
use apime.Webhook.Identity.{
  MessageInfo, message_event, is_phone, phone_of, message_jid, event_jid, confirm_jid_from_event,
}

module _ (jids : Jids) where
  event_jid-lid :
      (info : MessageInfo)
      → info.is_group ≡ false
      → info.sender.server ≡ hidden_user_server
      → info.sender_alt.server ≡ default_user_server
      → (info.sender_alt.user == "") ≡ false
      → jids.is_empty info.sender_alt ≡ false
      → event_jid jids (message_event info) ≡ info.sender_alt
  unfolding event_jid message_jid
  event_jid-lid info direct hidden alt user full =
      let by_lid : is_phone info.sender ≡ false = rw (hidden, is_phone) refl in
      let by_phone : is_phone info.sender_alt ≡ true = rw (alt, user, is_phone) refl in
      let resolved : phone_of info.sender info.sender_alt ≡ info.sender_alt =
        rw (by_lid, by_phone, phone_of) refl in
      rw (direct, resolved, full) refl

  -- A contact that no entry of the cache confirms yet writes, outside a group, under its LID, and
  -- WhatsApp tells its phone JID. Whatever the cache or the table says of the number: until the new
  -- entry expires, a send to it goes to that JID without a query. It is assumed of the library that
  -- this JID, also without its device, is not empty, and that there is then no device to drop.
  pub lid_reply_resolves :
      (query : Query jids) (faults faults' : ContactFaults) (cfg : Config) (t now later : ℕ)
      (input : String) (info : MessageInfo) (r : Resolver)
      → info.is_group ≡ false
      → info.sender.server ≡ hidden_user_server
      → info.sender_alt.server ≡ default_user_server
      → (info.sender_alt.user == "") ≡ false
      → jids.is_empty info.sender_alt ≡ false
      → confirmed_by jids query faults cfg t
          (jids.to_non_ad info.sender_alt)
          (get (jids.to_non_ad info.sender_alt).user r.cache)
        ≡ false
      → jids.is_empty (jids.to_non_ad info.sender_alt) ≡ false
      → jids.to_non_ad (jids.to_non_ad info.sender_alt) ≡ jids.to_non_ad info.sender_alt
      → destination input ≡ number (jids.to_non_ad info.sender_alt).user
      → now < t + positive_ttl cfg
      → (resolve_jid jids query faults' cfg now later input
            (confirm_jid_from_event jids query faults cfg t (message_event info) r)).0
          ≡ []
        × (resolve_jid jids query faults' cfg now later input
            (confirm_jid_from_event jids query faults cfg t (message_event info) r)).1.0
          ≡ ok (jids.to_non_ad info.sender_alt)
  unfolding confirm_jid_from_event
  lid_reply_resolves query faults faults' cfg t now later input info r direct hidden alt user full
        unconfirmed bare idem as_number soon =
      rw (event_jid-lid info direct hidden alt user full, full)
        (confirmed_resolves jids query faults faults' cfg t now later input info.sender_alt r alt
          user unconfirmed bare idem as_number soon)
