-- ===== src/Queue/Redis/Fifo.antt =====
-- Histories of the queue of internal/pkg/queue/redis/queue.go: what goes in and what comes out.
use mathlib.Core.Path.{subst}
use mathlib.Core.List.{append_assoc, append-nil, map-append}
use apime.Common.{
  String, ◌≡◌, refl, ap, sym, ◌∙◌, Bool, true, false, ◌&&◌, map, Option, none, some, List, [], ◌∷◌,
  ◌++◌, Result, ok, err, inl, inr, arith, Result-cases, Option-cases,
}
use apime.Queue.Redis.{
  Reply, redis_error, Commands, Codec, EnqueueError, not_pushed, not_marshaled, not_popped,
  DequeueError, pushed, enqueue, decoded, answer, dequeue,
}
use apime.Queue.Redis.Server.{IsList}

pub data Op (E : Type 0) : Type 0 where
  enqueues : E → Op E
  dequeues : Op E

module _ {S E : Type 0} (redis : Commands S) (json : Codec E) (key : String) where
  abbrev taken : E → Option EnqueueError → List E
  taken e none = e ∷ []
  taken e (some _) = []

  abbrev handed : Result DequeueError (Option E) → List E
  handed (ok (some e)) = e ∷ []
  handed _ = []

  unfoldable pub step : Op E → S → S
  step (enqueues e) s = (enqueue redis json key e s).1
  step dequeues s = (dequeue redis json key s).1

  unfoldable pub accepted : Op E → S → List E
  accepted (enqueues e) s = taken e (enqueue redis json key e s).0
  accepted dequeues s = []

  unfoldable pub delivered : Op E → S → List E
  delivered (enqueues e) s = []
  delivered dequeues s = handed (dequeue redis json key s).0

  unfoldable pub steps : List (Op E) → S → S
  unfolding step
  steps [] s = s
  steps (op ∷ ops) s = steps ops (step op s)

  unfoldable pub all_accepted : List (Op E) → S → List E
  unfolding accepted step
  all_accepted [] s = []
  all_accepted (op ∷ ops) s = accepted op s ++ all_accepted ops (step op s)

  unfoldable pub all_delivered : List (Op E) → S → List E
  unfolding delivered step
  all_delivered [] s = []
  all_delivered (op ∷ ops) s = delivered op s ++ all_delivered ops (step op s)

  abbrev was_sent : Option EnqueueError → Bool
  was_sent (some (not_pushed message)) = false
  was_sent _ = true

  abbrev was_read : Result DequeueError (Option E) → Bool
  was_read (err (not_popped message)) = false
  was_read _ = true

  -- No command of the operation failed.
  unfoldable pub answered : Op E → S → Bool
  answered (enqueues e) s = was_sent (enqueue redis json key e s).0
  answered dequeues s = was_read (dequeue redis json key s).0

  unfoldable pub all_answered : List (Op E) → S → Bool
  unfolding answered step
  all_answered [] s = true
  all_answered (op ∷ ops) s = let rest = all_answered ops (step op s) in answered op s && rest

  -- The list holds these events, the oldest at its right end.
  unfoldable pub Stores : List E → List String → Type 0
  Stores [] xs = xs ≡ []
  Stores (e ∷ es) xs =
      (ys : List String) × (bytes : String) × (json.marshal e ≡ ok bytes)
      × (xs ≡ ys ++ (bytes ∷ []))
      × Stores es ys

  Stores-push :
      (es : List E) (xs : List String) (e : E) (bytes : String)
      → json.marshal e ≡ ok bytes
      → Stores es xs
      → Stores (es ++ (e ∷ [])) (bytes ∷ xs)
  unfolding Stores
  Stores-push [] xs e bytes marshaled none_there =
      ([], bytes, marshaled, ap (λ rest. bytes ∷ rest) none_there, refl)
  Stores-push (e' ∷ es) xs e bytes marshaled (ys, bytes', old, parts, rest) = (
    bytes ∷ ys,
    bytes',
    old,
    ap (λ zs. bytes ∷ zs) parts,
    Stores-push es ys e bytes marshaled rest,
  )

  pushed-taken : (p : Option String × S) → p.0 ≡ none → pushed redis json key p ≡ (none, p.1)
  unfolding pushed
  pushed-taken (none, s) h = refl
  pushed-taken (some message, s) h = ground (arith, h)

  pushed-refused :
      (p : Option String × S) (message : String)
      → p.0 ≡ some message
      → pushed redis json key p ≡ (some (not_pushed message), p.1)
  unfolding pushed
  pushed-refused (none, s) message h = ground (arith, h)
  pushed-refused (some other, s) message h = ground (arith, h)

  enqueue_lost :
      (e : E) (message : String) (s : S)
      → json.marshal e ≡ err message
      → enqueue redis json key e s ≡ (some (not_marshaled message), s)
  unfolding enqueue
  enqueue_lost e message s lost = rw (lost, enqueue) refl

  enqueue_sent :
      (e : E) (bytes : String) (s : S)
      → json.marshal e ≡ ok bytes
      → enqueue redis json key e s ≡ pushed redis json key (redis.lpush key bytes s)
  unfolding enqueue
  enqueue_sent e bytes s marshaled = rw (marshaled, enqueue) refl

  module _ (contents : S → List String) (list : IsList redis key contents) (read_back : E → E) where
    -- After a step: the events that were there and that came, as they are read back, are those handed
    -- out and those that stay.
    Kept : List E → List E → List E → S → Type 0
    Kept es came went s =
        (rest : List E) × (map read_back es ++ map read_back came ≡ went ++ map read_back rest)
        × Stores rest (contents s)

    Kept-by :
        (e : E) (es : List E) (s : S) (r : Option EnqueueError × S)
        → enqueue redis json key e s ≡ r
        → Kept es (taken e r.0) [] r.1
        → Kept es (accepted (enqueues e) s) [] (step (enqueues e) s)
    unfolding accepted step
    Kept-by e es s r returned kept =
        subst (λ r'. Kept es (taken e r'.0) [] r'.1) (sym returned) kept

    enqueue-Kept :
        (e : E) (es : List E) (s : S)
        → answered (enqueues e) s ≡ true
        → Stores es (contents s)
        → Kept es (accepted (enqueues e) s) [] (step (enqueues e) s)
    unfolding Kept answered
    enqueue-Kept e es s fine stores = elim (Result-cases (json.marshal e)) [
      | inl (message, lost) ↦
          Kept-by e es s _ (enqueue_lost e message s lost)
            (es, append-nil (map read_back es), stores)
      | inr (bytes, marshaled) ↦
          let p = redis.lpush key bytes s in
          let sent = enqueue_sent e bytes s marshaled in
          elim (Option-cases p.0) [
            | inl pushes ↦ Kept-by e es s _ (sent ∙ pushed-taken p pushes) (
              es ++ (e ∷ []),
              sym (map-append read_back es (e ∷ [])),
              subst (Stores (es ++ (e ∷ []))) (sym (list.push_taken bytes s pushes))
                  (Stores-push es (contents s) e bytes marshaled stores),
            )
            | inr (message, refused) ↦
                let failed : (enqueue redis json key e s).0 ≡ some (not_pushed message) =
                  ap (λ (r : Option EnqueueError × S). r.0)
                    (sent ∙ pushed-refused p message refused) in
                absurd (ground (arith, sym fine ∙ ap was_sent failed))
          ]
    ]

    dequeue_failed :
        (s : S) (message : String)
        → (redis.brpop key s).0 ≡ redis_error message
        → ¬ (answered dequeues s ≡ true)
    unfolding answered dequeue answer
    dequeue_failed s message failed fine =
        ground
          (arith, sym fine ∙ ap (λ (reply : Reply). was_read (answer redis json key reply)) failed)

    module _
        (unmarshal-marshal : (e : E) (bytes : String)
          → json.marshal e ≡ ok bytes
          → json.unmarshal bytes ≡ ok (read_back e)) where
      dequeue-Kept :
          (es : List E) (s : S)
          → answered dequeues s ≡ true
          → Stores es (contents s)
          → Kept es [] (delivered dequeues s) (step dequeues s)
      unfolding Kept delivered step Stores dequeue answer
      dequeue-Kept [] s fine stores = elim (list.pop_nothing s stores) [
        | inl (empty, left) ↦ rw empty ([], refl, left)
        | inr (message, failed) ↦ absurd (dequeue_failed s message failed fine)
      ]
      dequeue-Kept (e ∷ es) s fine (ys, bytes, marshaled, parts, rest) =
          elim (list.pop_last ys bytes s parts) [
            | inl (value, left) ↦
                rw (value, unmarshal-marshal e bytes marshaled, decoded)
                  (es, append-nil (read_back e ∷ map read_back es), rw left rest)
            | inr (message, failed) ↦ absurd (dequeue_failed s message failed fine)
          ]

      step-Kept :
          (op : Op E) (es : List E) (s : S)
          → answered op s ≡ true
          → Stores es (contents s)
          → Kept es (accepted op s) (delivered op s) (step op s)
      unfolding accepted delivered
      step-Kept (enqueues e) es s fine stores = enqueue-Kept e es s fine stores
      step-Kept dequeues es s fine stores = dequeue-Kept es s fine stores

      steps-Kept :
          (ops : List (Op E)) (es : List E) (s : S)
          → all_answered ops s ≡ true
          → Stores es (contents s)
          → Kept es (all_accepted ops s) (all_delivered ops s) (steps ops s)
      unfolding Kept all_accepted all_delivered steps all_answered
      steps-Kept [] es s fine stores = (es, append-nil (map read_back es), stores)
      steps-Kept (op ∷ ops) es s fine stores =
          let (es', balance, stores') = step-Kept op es s (ground (arith, fine)) stores in
          let (es'', balance', stores'') =
            steps-Kept ops es' (step op s) (ground (arith, fine)) stores' in
          (
            es'',
            ap (λ xs. map read_back es ++ xs) (map-append read_back (accepted op s) _)
                ∙ sym (append_assoc (map read_back es) (map read_back (accepted op s)) _)
                ∙ ap (λ xs. xs ++ map read_back (all_accepted ops (step op s))) balance
                ∙ append_assoc (delivered op s) (map read_back es') _
                ∙ ap (λ xs. delivered op s ++ xs) balance'
                ∙ sym (append_assoc (delivered op s) (all_delivered ops (step op s)) _),
            stores'',
          )

      -- Any calls of Enqueue and Dequeue, in any order, on a list that was empty, with no command of them
      -- failing: the events handed out, and after them those that the list then holds, are the events
      -- accepted, in their order and each once, as JSON reads them back. It is assumed of Redis what
      -- IsList says of commands that are executed once and answered, and that the JSON of an event is
      -- read, as `read_back` of the event.
      pub redis_fifo :
          (ops : List (Op E)) (s : S)
          → contents s ≡ []
          → all_answered ops s ≡ true
          → (rest : List E) × (map read_back (all_accepted ops s)
              ≡ all_delivered ops s ++ map read_back rest)
            × Stores rest (contents (steps ops s))
      unfolding Kept Stores
      redis_fifo ops s empty fine = steps-Kept ops [] s fine empty
