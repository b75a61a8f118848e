-- ===== src/Examples/Tables.antt =====
-- Runs of the queue and of the message tables.
use apime.Common.{ℕ, ◌≡◌, refl, true, false, none, List, [], ◌∷◌, ◌++◌, ◌==◌, arith, map, take}
use apime.Common.Table.{select, order_by}
use apime.Common.Time.{rfc3339}
use apime.Queue.{MemoryQueue, receives, new_queue}
use apime.Queue.Laws as Queue
use apime.Message.Repo.{Message, is_queued}
use apime.Message.Outbox.{Event, EnqueueInput, Choice, queued_message, event_of, recover}
use apime.Message.Outbox.Delivery.{recover_events}
use apime.Message.Receipts.{Receipt}

abbrev queue_ops : List (Queue.Op ℕ)
queue_ops =
    Queue.enqueues false false 1
    ∷ Queue.enqueues false false 2
    ∷ Queue.dequeues receives
    ∷ Queue.closes
    ∷ Queue.enqueues false false 3
    ∷ []

fifo_example :
    Queue.all_accepted queue_ops (new_queue 5)
    ≡ Queue.all_delivered queue_ops (new_queue 5) ++ (Queue.steps queue_ops (new_queue 5)).events
fifo_example = Queue.fifo 5 queue_ops

abbrev calm : Choice
calm = record { ctx_done = false; takes_done = false }

abbrev hello : EnqueueInput
hello = record { instance_id = "one"; to = "chat"; type = "text"; payload = "hello" }

abbrev stored : Message
stored = record (queued_message "m" hello) { id = "m"; created_at = rfc3339 7; delivered_at = none }

abbrev waiting : MemoryQueue Event
waiting = record (new_queue 60) { events = event_of stored ∷ [] }

recover_events_example :
    (recover false (λ id. calm) (stored ∷ []) waiting).events
    ≡ waiting.events
      ++ map event_of (take 50 (order_by (λ m. m.created_at) (select is_queued (stored ∷ []))))
unfolding new_queue
recover_events_example =
    recover_events (λ id. calm) (stored ∷ []) waiting refl (λ id. refl) (omega arith)

abbrev receipts : List Receipt
receipts =
    record { ids = "w" ∷ []; status = "read"; at = 9; has_webhook = true; refused = λ id. false }
    ∷ record {
      ids = "v" ∷ "w" ∷ [];
      status = "delivered";
      at = 12;
      has_webhook = true;
      refused = λ id. id == "v";
    }
    ∷ []

abbrev sent_row : Message
sent_row = record stored { whatsapp_id = "w"; status = "sent" }
