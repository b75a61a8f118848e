-- ===== src/Queue/Redis/Server.antt =====
-- The commands that internal/pkg/queue/redis/queue.go sends.
use apime.Common.{String, ◌≡◌, none, List, [], ◌∷◌, ◌++◌, ◌⊎◌}
use apime.Queue.Redis.{popped, redis_nil, redis_error, Commands}

-- What Redis documents of LPUSH and BRPOP on one list, of commands that are executed once and answered.
-- Nothing is said of the list after a command that the client reports as failed.
pub record IsList {S : Type 0} (redis : Commands S) (key : String) (contents : S → List String)
    : Type 0 where
  pub push_taken :
      (bytes : String) (s : S)
      → (redis.lpush key bytes s).0 ≡ none
      → contents (redis.lpush key bytes s).1 ≡ bytes ∷ contents s
  pub pop_last :
      (xs : List String) (value : String) (s : S)
      → contents s ≡ xs ++ (value ∷ [])
      → (((redis.brpop key s).0 ≡ popped (key ∷ value ∷ []))
          × (contents (redis.brpop key s).1 ≡ xs))
        ⊎ ((message : String) × ((redis.brpop key s).0 ≡ redis_error message))
  pub pop_nothing :
      (s : S)
      → contents s ≡ []
      → (((redis.brpop key s).0 ≡ redis_nil) × (contents (redis.brpop key s).1 ≡ []))
        ⊎ ((message : String) × ((redis.brpop key s).0 ≡ redis_error message))
