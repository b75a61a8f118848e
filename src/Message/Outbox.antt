-- ===== src/Message/Outbox.antt =====
-- The outbox: internal/service/message/enqueue.go, and the worker and the recovery of
-- internal/service/message/worker.go over the memory queue. What Send does with an input is a
-- parameter of the worker.
pub mod Delivery
use apime.Common.{
  ℕ, String, Bool, true, false, ◌||◌, Option, none, some, List, [], ◌∷◌, ◌==◌, Result, ok, err,
  if◌then◌else◌,
}
use apime.Queue.{MemoryQueue, SendError, Received, event, nothing, failed, Wake, enqueue, dequeue}
use apime.Message.Repo.{Message, RepoError, create, get_pending_messages}

-- queue.Event with the two entries of its payload.
pub record Event : Type 0 where
  pub id : String
  pub instance_id : String
  pub type : String
  pub to : String
  pub text : String
  pub created_at : ℕ

pub record EnqueueInput : Type 0 where
  pub instance_id : String
  pub to : String
  pub type : String
  pub payload : String

pub data EnqueueError : Type 0 where
  invalid_payload : EnqueueError
  not_created : RepoError → EnqueueError

-- The queue's context and channel choices in one call of Enqueue.
pub record Choice : Type 0 where
  pub ctx_done : Bool
  pub takes_done : Bool

unfoldable pub event_of : Message → Event
event_of m = record {
  id = m.id;
  instance_id = m.instance_id;
  type = m.type;
  to = m.to;
  text = m.payload;
  created_at = m.created_at;
}

-- An error of the queue is logged, and the message stays in the table.
unfoldable pub offer : Choice → Message → Option (MemoryQueue Event) → Option (MemoryQueue Event)
unfolding enqueue event_of
offer c m none = none
offer c m (some q) = some (enqueue c.ctx_done c.takes_done (event_of m) q).1

offer_created :
    Choice
    → Option (MemoryQueue Event)
    → Result RepoError Message × List Message
    → Result EnqueueError Message × (List Message × Option (MemoryQueue Event))
unfolding offer
offer_created c q (err e, t) = (err (not_created e), (t, q))
offer_created c q (ok m, t) = (ok m, (t, offer c m q))

unfoldable pub queued_message : String → EnqueueInput → Message
queued_message fresh input = record {
  id = fresh;
  instance_id = input.instance_id;
  whatsapp_id = "";
  to = input.to;
  type = input.type;
  payload = input.payload;
  status = "queued";
  delivered_at = none;
  created_at = 0;
}

-- Service.Enqueue; `spare` is the UUID that the repository would draw.
unfoldable pub enqueue_message :
    Bool
    → Choice
    → String
    → String
    → ℕ
    → EnqueueInput
    → List Message
    → Option (MemoryQueue Event)
    → Result EnqueueError Message × (List Message × Option (MemoryQueue Event))
unfolding offer_created create queued_message
enqueue_message fault c fresh spare now input t q =
    if input.instance_id == "" || input.to == "" || input.payload == ""
    then (err invalid_payload, (t, q))
    else offer_created c q (create fault spare now (queued_message fresh input) t)

-- message.SendInput, the fields that the worker fills in.
pub record SendInput : Type 0 where
  pub instance_id : String
  pub to : String
  pub type : String
  pub text : String
  pub message_id : String

unfoldable pub send_input : Event → SendInput
send_input e = record {
  instance_id = e.instance_id;
  to = e.to;
  type = e.type;
  text = e.text;
  message_id = e.id;
}

-- One round of runWorker: the inputs given to Send, at most one, and the queue.
unfoldable pub handle_received : Received Event → List SendInput
unfolding send_input
handle_received (event e) = send_input e ∷ []
handle_received nothing = []
handle_received (failed e) = []

unfoldable pub work : Wake → MemoryQueue Event → Option (List SendInput × MemoryQueue Event)
unfolding handle_received dequeue
work w q = elim (dequeue w q) [ none ↦ none | some (r, q') ↦ some (handle_received r, q') ]

-- One tick of runStuckRecovery, with the queue's choices for each message.
unfoldable pub requeue : (String → Choice) → List Message → MemoryQueue Event → MemoryQueue Event
unfolding enqueue event_of
requeue c [] q = q
requeue c (m ∷ ms) q = requeue c ms (enqueue (c m.id).ctx_done (c m.id).takes_done (event_of m) q).1

unfoldable pub recover :
    Bool → (String → Choice) → List Message → MemoryQueue Event → MemoryQueue Event
unfolding requeue get_pending_messages
recover fault c t q = elim (get_pending_messages fault 50 t) [ err e ↦ q | ok ms ↦ requeue c ms q ]
