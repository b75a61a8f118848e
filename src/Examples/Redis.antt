-- ===== src/Examples/Redis.antt =====
-- A run of the Redis queue, over a server that holds one list.
use apime.Common.{String, ◌≡◌, refl, ap, none, map, List, [], ◌∷◌, ◌++◌, ok, inl, arith, length}
use apime.Common.Text.{trim_space}
use apime.Queue.Redis.{Reply, popped, redis_nil, Commands, Codec, enqueue, dequeue}
use apime.Queue.Redis.Server.{IsList}
use apime.Queue.Redis.Fifo.{
  Op, enqueues, dequeues, steps, all_accepted, all_delivered, all_answered, Stores, redis_fifo,
}

unfoldable pop_right : String → List String → Reply × List String
pop_right key [] = (redis_nil, [])
pop_right key (x ∷ []) = (popped (key ∷ x ∷ []), [])
pop_right key (x ∷ y ∷ xs) = let (reply, rest) = pop_right key (y ∷ xs) in (reply, x ∷ rest)

abbrev server : Commands (List String)
server = record {
  lpush = λ key bytes s. (none, bytes ∷ s);
  brpop = pop_right;
  llen = λ key s. ok (length s);
}

pop_right-last :
    (key value : String) (xs : List String)
    → pop_right key (xs ++ (value ∷ [])) ≡ (popped (key ∷ value ∷ []), xs)
unfolding pop_right
pop_right-last key value [] = refl
pop_right-last key value (x ∷ []) = refl
pop_right-last key value (x ∷ y ∷ xs) =
    ap (λ (p : Reply × List String). (p.0, x ∷ p.1)) (pop_right-last key value (y ∷ xs))

server-IsList : (key : String) → IsList server key (λ s. s)
unfolding pop_right
server-IsList key = record {
  push_taken = λ bytes s taken. refl;
  pop_last = λ xs value s parts. rw (parts, pop_right-last key value xs) (inl (refl, refl));
  pop_nothing = λ s empty. rw empty (inl (refl, refl));
}

abbrev calls : List (Op String)
calls = enqueues "first" ∷ enqueues "second" ∷ dequeues ∷ enqueues "third" ∷ []

-- JSON keeps less of an event.
abbrev trimmed : Codec String
trimmed = record { marshal = λ e. ok e; unmarshal = λ bytes. ok (trim_space bytes) }

redis_fifo_example :
    (rest : List String) × (map trim_space (all_accepted server trimmed "events" calls [])
      ≡ all_delivered server trimmed "events" calls [] ++ map trim_space rest)
    × Stores server trimmed "events" rest (steps server trimmed "events" calls [])
unfolding pop_right all_answered enqueue dequeue
redis_fifo_example =
    redis_fifo server trimmed "events" (λ s. s) (server-IsList "events") trim_space
      (λ e bytes marshaled. ground (arith, marshaled)) calls [] refl refl
