-- ===== src/Queue/Redis.antt =====
-- internal/pkg/queue/redis/queue.go: a list of Redis, pushed on the left and popped on the right. The
-- client's commands and the JSON codec are parameters; `S` is the state of the server.
pub mod Server
pub mod Fifo
use apime.Common.{ℕ, String, Option, none, some, List, [], ◌∷◌, Result, ok, err}

pub data Reply : Type 0 where
  popped : List String → Reply
  redis_nil : Reply
  redis_error : String → Reply

pub record Commands (S : Type 0) : Type 0 where
  pub lpush : String → String → S → Option String × S
  pub brpop : String → S → Reply × S
  pub llen : String → S → Result String ℕ

pub record Codec (E : Type 0) : Type 0 where
  pub marshal : E → Result String String
  pub unmarshal : String → Result String E

pub data EnqueueError : Type 0 where
  not_marshaled not_pushed : String → EnqueueError

pub data DequeueError : Type 0 where
  not_popped not_unmarshaled : String → DequeueError
  invalid_result : DequeueError

module _ {S E : Type 0} (redis : Commands S) (json : Codec E) (key : String) where
  unfoldable pub pushed : Option String × S → Option EnqueueError × S
  pushed (none, s) = (none, s)
  pushed (some message, s) = (some (not_pushed message), s)

  unfoldable pub enqueue : E → S → Option EnqueueError × S
  unfolding pushed
  enqueue e s = elim (json.marshal e) [
    | err message ↦ (some (not_marshaled message), s)
    | ok bytes ↦ pushed (redis.lpush key bytes s)
  ]

  unfoldable pub decoded : Result String E → Result DequeueError (Option E)
  decoded (ok e) = ok (some e)
  decoded (err message) = err (not_unmarshaled message)

  -- Of a reply, the key and the value.
  unfoldable pub answer : Reply → Result DequeueError (Option E)
  unfolding decoded
  answer (popped (name ∷ value ∷ rest)) = decoded (json.unmarshal value)
  answer (popped _) = err invalid_result
  answer redis_nil = ok none
  answer (redis_error message) = err (not_popped message)

  unfoldable pub dequeue : S → Result DequeueError (Option E) × S
  unfolding answer
  dequeue s = let (reply, s') = redis.brpop key s in (answer reply, s')

  unfoldable pub size : S → Result String ℕ
  size s = redis.llen key s
