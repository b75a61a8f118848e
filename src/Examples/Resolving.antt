-- ===== src/Examples/Resolving.antt =====
-- Runs of the JID resolver and of the contact saver.
use apime.Common.{String, ◌≡◌, refl, true, false, List, [], ◌∷◌, ◌==◌, arith, Result, ok, err}
use apime.Common.Map.{get}
use apime.Common.Text.{trim_space, contains, trim_suffix, digits_only}
use apime.Webhook.Identity.{MessageInfo, message_event, confirm_jid_from_event}
use apime.Webhook.Identity.Replies.{lid_reply_resolves}
use apime.Send.Resolver.{
  Jid, Jids, Resolver, Config, OnWhatsApp, LookupError, ContactFaults, destination, resolve_jid,
  positive_ttl, empty_jid,
}

abbrev jids : Jids
jids = record {
  parse = λ s. err "not parsed";
  text = λ j. j.user;
  to_non_ad = λ j. record j { device = 0 };
  is_empty = λ j. j.server == "";
}

abbrev silent : String → Result LookupError (List OnWhatsApp)
silent phone = err (record { transport_down = true; message = "down" })

abbrev calm : ContactFaults
calm = record { gets = false; upserts = false }

abbrev config : Config
config = record { negative_ttl_days = 1; positive_db_ttl_days = 7; positive_ttl_hours = 1 }

abbrev nothing_known : Resolver
nothing_known = record { cache = []; contacts = []; has_repo = true }

abbrev phone_device : Jid
phone_device = record { user = "551187654321"; server = "s.whatsapp.net"; device = 48 }

-- WhatsApp knows the number.
abbrev knows : String → Result LookupError (List OnWhatsApp)
knows phone = ok (record { is_in = true; jid = phone_device; phone_number = phone_device } ∷ [])

abbrev after_lookup : Resolver
after_lookup = (resolve_jid jids knows calm config 5 6 "551187654321" nothing_known).1.1

abbrev hidden_message : MessageInfo
hidden_message = record {
  chat = record { user = "77"; server = "lid"; device = 0 };
  sender = record { user = "77"; server = "lid"; device = 0 };
  sender_alt = phone_device;
  recipient_alt = empty_jid;
  is_from_me = false;
  is_group = false;
}

lid_reply_resolves_example :
    ((resolve_jid jids silent calm config 9 9 "551187654321" (
        confirm_jid_from_event jids silent calm config 5
          (message_event hidden_message)
          nothing_known)).0
      ≡ [])
    × ((resolve_jid jids silent calm config 9 9 "551187654321" (
          confirm_jid_from_event jids silent calm config 5
            (message_event hidden_message)
            nothing_known)).1.0
        ≡ ok (record phone_device { device = 0 }))
unfolding get destination trim_space contains trim_suffix digits_only positive_ttl
lid_reply_resolves_example =
    lid_reply_resolves jids silent calm calm config 5 9 9 "551187654321" hidden_message
      nothing_known refl refl refl refl refl refl refl refl refl (omega arith)
