-- ===== src/Webhook/CallEvents/Ends.antt =====
-- The ends of calls, in internal/webhook/calls.go and internal/session/whatsmeow/calls.go.
use apime.Common.{String, Bool, true, false, Option, none, some, ◌==◌}
use apime.Common.Map.{Map, get}
use apime.Calls.{Manager}
use apime.Calls.Api.{CallNews, terminates, rejects, other_news, offers, ended_offer}
use apime.Webhook.CallEvents.{
  Value, text, CallEvent, call_offer, call_terminate, call_reject, state_event, other_event,
}

-- What the session manager looks at.
unfoldable pub news_of : CallEvent → CallNews
news_of (call_offer meta platform group none) = offers none
news_of (call_offer meta platform group (some node)) =
    offers (some (node.is_call_ended, node.terminate_reason))
news_of (call_terminate meta reason) = terminates
news_of (call_reject meta) = rejects
news_of (state_event evt) = other_news
news_of other_event = other_news

-- An event of WhatsApp, and not one of the engine.
unfoldable pub is_reported : CallEvent → Bool
is_reported (state_event evt) = false
is_reported _ = true

unfoldable pub is_installed : String → Manager → Bool
is_installed instance_id m = elim (get instance_id m.voip) [ none ↦ false | some _ ↦ true ]

unfoldable pub is_text : String → Option Value → Bool
is_text s (some (text t)) = t == s
is_text s _ = false

-- The engine reports this end itself.
news_ends : CallNews → Bool
news_ends terminates = true
news_ends rejects = true
news_ends other_news = false
news_ends (offers node) = ended_offer node

-- The payload is a call.ended.
unfoldable pub is_end : Option (Map Value) → Bool
unfolding is_text
is_end none = false
is_end (some result) = is_text "call.ended" (get "type" result)
