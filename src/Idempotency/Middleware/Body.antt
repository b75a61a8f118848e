-- ===== src/Idempotency/Middleware/Body.antt =====
-- The body that fingerprinting leaves for the route's handler.
use text.Mathlib.Text.{starts_with}
use native.Mathlib.Nat.{le_trans}
use apime.Common.{
  ℕ, zero, suc, ◌≤◌, ◌<◌, String, ◌≡◌, refl, ap, false, Option, none, some, List, [], ◌∷◌, arith,
  take, length, length-take, ltb, Bool-cases, inl, inr, not-ltb→le, ◌⊎◌, ◌++◌, ◌∙◌, Bool, true,
  ◌==◌, Result, ok, err,
}
use Prim.Native.String.{len}
use apime.Common.Text.{codes}
use apime.Idempotency.Store.{IdempotencyRecord, Row, StoreError, Faults, try_acquire}
use apime.Idempotency.Middleware.{
  Request, Verdict, pass, reject, replays, run, hash_request, max_hashed_body_bytes, key_max_len,
  request_key, new_record, settle, replay, begin_request,
}
use apime.Idempotency.Middleware.Retry.{begin-Keyed, acquire_key_cases}

take_all {ℓ} : {A : Type ℓ} (n : ℕ) (xs : List A) → length xs ≤ n → take n xs ≡ xs
take_all zero [] h = refl
take_all zero (x ∷ xs) h = absurd (omega arith)
take_all (suc n) [] h = refl
take_all (suc n) (x ∷ xs) h = ap (λ t. x ∷ t) (take_all n xs (omega arith))

-- What is left of the body after fingerprinting, where that succeeds.
abbrev pub left_over : Option (String × Option (List ℕ)) → List ℕ
left_over (some (_, some bytes)) = bytes
left_over _ = []

-- The handler gets the body that the client sent, if the client sent no more bytes than it
-- announced.
pub body_intact :
    (digest : List ℕ → String) (q : Request) (n : ℕ) (bytes : List ℕ)
    → q.content_length ≡ some n
    → q.body ≡ some bytes
    → length bytes ≤ n
    → left_over (hash_request digest q) ≡ bytes
unfolding hash_request
body_intact digest q n bytes announced sent fits =
    rw (announced, sent)
      (elim (Bool-cases (starts_with q.content_type "multipart/")) [
        | inl multipart ↦ rw multipart refl
        | inr plain ↦ rw plain (elim (Bool-cases (ltb max_hashed_body_bytes n)) [
          | inl large ↦ rw large refl
          | inr small ↦
              rw
                (
                  small,
                  take_all max_hashed_body_bytes bytes
                      (le_trans fits (not-ltb→le max_hashed_body_bytes n small)),
                )
                refl
        ])
      ])

-- The body that the route's handler reads, if the middleware lets the request through.
unfoldable pub handed : Verdict → Option (Option (List ℕ))
handed (pass body) = some body
handed (run i k body) = some body
handed (reject status) = none
handed (replays status body) = none

settle-handed :
    (q : Request) (hash : String) (body : Option (List ℕ))
    (r : Result StoreError (Bool × IdempotencyRecord))
    → (handed (settle q hash body r) ≡ none) ⊎ (handed (settle q hash body r) ≡ some body)
unfolding handed settle replay
settle-handed q hash body (err e) = inr refl
settle-handed q hash body (ok (true, rec)) = inr refl
settle-handed q hash body (ok (false, rec)) = inl (ground arith)

hash-chunked :
    (digest : List ℕ → String) (q : Request) (bytes : List ℕ)
    → q.content_length ≡ none
    → starts_with q.content_type "multipart/" ≡ false
    → q.body ≡ some bytes
    → (hash : String) × (hash_request digest q
        ≡ some (hash, some (take max_hashed_body_bytes bytes)))
unfolding hash_request
hash-chunked digest q bytes chunked plain sent = (
  digest ((codes q.method ++ codes q.full_path) ++ take max_hashed_body_bytes bytes),
  rw (chunked, plain, sent) refl,
)

-- A POST with an Idempotency-Key of at most 255 characters, in a middleware with a repository, that
-- announces no length, is not multipart and has more than 1 MiB: whenever its handler runs, with or
-- without the key, it reads the first 1 MiB of the body and nothing of the rest.
pub body_truncated :
    (digest : List ℕ → String) (f : Faults) (now : ℕ) (q : Request) (t : List Row) (bytes : List ℕ)
    → (request_key q == "") ≡ false
    → (q.method == "POST") ≡ true
    → ltb key_max_len (len (request_key q)) ≡ false
    → q.content_length ≡ none
    → starts_with q.content_type "multipart/" ≡ false
    → q.body ≡ some bytes
    → max_hashed_body_bytes < length bytes
    → ((handed (begin_request digest true f now q t).0 ≡ none)
        ⊎ (handed (begin_request digest true f now q t).0
            ≡ some (some (take max_hashed_body_bytes bytes))))
      × (length (take max_hashed_body_bytes bytes) ≡ max_hashed_body_bytes)
body_truncated digest f now q t bytes keyed posts fits chunked plain sent large =
    let (hash, hashed) = hash-chunked digest q bytes chunked plain sent in
    let body = some (take max_hashed_body_bytes bytes) in
    let begun =
      begin-Keyed digest now q hash body f t
        (record { has_key = keyed; posts = posts; fits = fits; hashed = hashed })
      ∙ acquire_key_cases f now q hash body t in
    (
      rw begun (settle-handed q hash body (try_acquire f now (new_record now q hash) t).0),
      omega (arith, length-take max_hashed_body_bytes bytes),
    )
