-- ===== src/Message/Outbox/Delivery.antt =====
-- Histories of a queued message, in internal/service/message/enqueue.go and worker.go.
use mathlib.Core.List.{append_assoc, append-nil}
use apime.Common.{
  ℕ, ◌+◌, ◌≤◌, String, ◌≡◌, refl, ap, sym, ◌∙◌, Bool, false, Option, none, some, List, [], ◌∷◌,
  ◌++◌, ◌==◌, eq_iff, arith, map, length, length-append, length-take, take, ok, if◌then◌else◌,
}
use apime.Common.Table.{first, first-append, select, order_by}
use apime.Queue.{MemoryQueue, SendError, enqueue}
use apime.Queue.Laws.{enqueue_room}
use apime.Common.Time.{rfc3339}
use apime.Message.Repo.{Message, has_id, is_queued, get_pending_messages}
use apime.Message.Outbox.{
  Event, EnqueueInput, Choice, event_of, enqueue_message, queued_message, requeue, recover,
}

-- The context is live.
abbrev calm : Choice
calm = record { ctx_done = false; takes_done = false }

-- An open queue with room for the messages gets an event for each of them, in their order.
requeue_events :
    (c : String → Choice) (ms : List Message) (q : MemoryQueue Event)
    → q.closed ≡ false
    → ((id : String) → (c id).ctx_done ≡ false)
    → length q.events + length ms ≤ q.buffer_size
    → (requeue c ms q).events ≡ q.events ++ map event_of ms
unfolding requeue
requeue_events c [] q open_q live room = sym (append-nil q.events)
requeue_events c (m ∷ ms) q open_q live room =
    let q' = record q { events = q.events ++ (event_of m ∷ []) } in
    let taken : enqueue (c m.id).ctx_done (c m.id).takes_done (event_of m) q ≡ (none, q') =
      rw (live m.id) (enqueue_room (c m.id).takes_done (event_of m) q open_q (omega arith)) in
    ap (λ (z : Option SendError × MemoryQueue Event). (requeue c ms z.1).events) taken
    ∙ requeue_events c ms q' open_q live (omega (arith, length-append q.events (event_of m ∷ [])))
    ∙ append_assoc q.events (event_of m ∷ []) (map event_of ms)

-- A tick of the recovery, where the table answers, the queue is open with room for 50 more events
-- and the context is live, adds to the end of the queue exactly the events of the oldest 50 messages
-- whose status is `queued`, in the order of their creation: also of those whose event waits there
-- already.
pub recover_events :
    (c : String → Choice) (t : List Message) (q : MemoryQueue Event)
    → q.closed ≡ false
    → ((id : String) → (c id).ctx_done ≡ false)
    → length q.events + 50 ≤ q.buffer_size
    → (recover false c t q).events
      ≡ q.events ++ map event_of (take 50 (order_by (λ m. m.created_at) (select is_queued t)))
unfolding recover get_pending_messages
recover_events c t q open_q live room =
    let ms = take 50 (order_by (λ m. m.created_at) (select is_queued t)) in
    requeue_events c ms q open_q live
      (omega (arith, length-take 50 (order_by (λ m. m.created_at) (select is_queued t))))

-- A message that Enqueue accepts is in the table with its text and recipient and the status
-- `queued`, whatever the queue did with its event.
pub accepted_is_stored :
    (fault : Bool) (c : Choice) (fresh spare : String) (now : ℕ) (input : EnqueueInput)
    (t : List Message) (q : Option (MemoryQueue Event)) (m : Message)
    → (enqueue_message fault c fresh spare now input t q).0 ≡ ok m
    → (row : Message) × (first (has_id m.id) (enqueue_message fault c fresh spare now input t q).1.0
        ≡ some row)
      × (row.status ≡ "queued")
      × (row.payload ≡ input.payload)
      × (row.to ≡ input.to)
unfolding enqueue_message
accepted_is_stored fault c fresh spare now input t q m h =
    let msg = queued_message fresh input in
    let row : Message = record msg {
      id = if fresh == "" then spare else fresh;
      created_at = rfc3339 now;
      delivered_at = none;
    } in
    (
      row,
      ground (arith, first-append (has_id m.id) t (row ∷ []), eq_iff m.id m.id),
      refl,
      refl,
      refl,
    )
