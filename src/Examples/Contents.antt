-- ===== src/Examples/Contents.antt =====
-- Runs of what is sent to the webhooks.
use apime.Common.{◌≡◌, refl, true, false, some, List, [], ◌∷◌, err, length, leb, if◌then◌else◌}
use apime.Calls.{Manager}
use apime.Calls.Trace.{new_manager}
use apime.Send.Resolver.{empty_jid}
use apime.Webhook.Edited.{
  WaMessage, message, nil_message, holds, first_inner, text_of, texts_of, edited_text,
}
use apime.Webhook.Edited.Wrapped.{Wrapper, no_texts, wrap_all, edited_text-wrap}
use apime.Webhook.Edited.Wrapped as Wrapped
use apime.Webhook.CallEvents.{Lookup, CallMeta, CallEvent, call_offer}

-- A caption, in an instant image.
abbrev captioned : WaMessage
captioned =
    message nil_message nil_message nil_message nil_message nil_message nil_message nil_message
      (record no_texts { instant_image_message = some "new caption" })

abbrev layers : List Wrapper
layers = Wrapped.ephemeral ∷ Wrapped.edited ∷ Wrapped.protocol ∷ []

edited_text-wrap_example :
    edited_text (holds (wrap_all layers captioned))
    ≡ (if leb (length layers) 4 then text_of (texts_of captioned) else "")
unfolding first_inner
edited_text-wrap_example = edited_text-wrap layers captioned refl

abbrev lookup : Lookup
lookup = record {
  jids = record {
    parse = λ s. err "not parsed";
    text = λ jid. jid.user;
    to_non_ad = λ jid. jid;
    is_empty = λ jid. false;
  };
  own_lid = empty_jid;
  pn_for_lid = some (λ lid. err "no row");
}

abbrev caller : CallMeta
caller = record {
  from = record { user = "123"; server = "lid"; device = 0 };
  call_creator = record { user = "123"; server = "lid"; device = 0 };
  call_creator_alt = empty_jid;
  call_id = "call";
  timestamp = 5;
}

-- A call that another device has answered, shaped like an offer.
abbrev answered_elsewhere : CallEvent
answered_elsewhere = call_offer caller "android" empty_jid (
    some (record {
      is_call_ended = "";
      terminate_reason = "accepted_elsewhere";
      has_video = false;
      group_jid = empty_jid;
      joinable = "0";
    }))

abbrev with_engine : Manager
with_engine = record (new_manager true) { voip = ("one", 0) ∷ [] }
