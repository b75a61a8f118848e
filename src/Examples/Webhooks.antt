-- ===== src/Examples/Webhooks.antt =====
-- Runs of the webhook delivery, its pool, and the encryption.
use apime.Common.{
  ℕ, zero, suc, ◌+◌, ◌++◌, leb, String, ◌≡◌, refl, ◌<◌, true, false, Option, none, some, List, [],
  ◌∷◌, ◌==◌, ok, err, if◌then◌else◌, arith, length, eqb,
}
use apime.Queue.{receives, new_queue}
use apime.Webhook.Delivery.{Sent, LastError, failed, is_success, deliver}
use apime.Webhook.Delivery.Laws.{
  succeeds, is_delivered, delivered_at_first_success, retry_without_body,
}
use apime.Webhook.Pool.{Target, puts, new_pool}
use apime.Webhook.Pool.Trace.{
  Op, enqueues, takes, dispatches, begins, ends, steps, line, all_accepted, all_begun,
}
use apime.Webhook.Pool.Counts.{tally, finished}
use apime.Webhook.Pool.Flow.{pool_refines_queue}
use apime.Crypto.{Bytes, Aead, encrypt, decrypt, decrypt-encrypt}

abbrev mac : String → String → String
mac payload secret = secret

-- No connection at first, then 200.
abbrev flaky : ℕ → String → Sent
flaky attempt body =
    if eqb attempt 0
    then record { answer = err "connection refused"; left = body }
    else record { answer = ok 200; left = "" }

first_fails : (i : ℕ) → i < 1 → succeeds flaky i 0 "{}" ≡ false
unfolding succeeds
first_fails zero h = refl
first_fails (suc i) h = absurd (omega (arith, h))

delivered_at_first_success_example :
    (is_delivered (deliver flaky mac 3 none (ok "{}") "secret").1 ≡ leb 1 3)
    × (length (deliver flaky mac 3 none (ok "{}") "secret").0 ≡ (if leb 1 3 then 2 else 4))
unfolding succeeds
delivered_at_first_success_example =
    delivered_at_first_success flaky mac "{}" "secret" 3 1 refl first_fails

-- A webhook that answers 500 and then would answer 200, over a client that reads the body.
abbrev reading : ℕ → String → Sent
reading attempt body =
    if body == ""
    then record { answer = err "ContentLength=2 with Body length 0"; left = "" }
    else record { answer = ok (if eqb attempt 0 then 500 else 200); left = "" }

retry_without_body_example :
    (e : LastError) × ((deliver reading mac 3 none (ok "{}") "").1 ≡ some (failed 4 e))
unfolding is_success
retry_without_body_example =
    retry_without_body reading mac "{}" "" 3 refl refl (λ j. refl) (λ j. refl)

abbrev hooked : ℕ → Option Target
hooked e = some (record { webhook_url = "https://one"; webhook_secret = "" })

abbrev pool_ops : List (Op ℕ)
pool_ops =
    enqueues false false 1
    ∷ enqueues false false 2
    ∷ enqueues false false 3
    ∷ takes receives
    ∷ dispatches puts
    ∷ takes receives
    ∷ begins
    ∷ dispatches puts
    ∷ begins
    ∷ takes receives
    ∷ ends hooked (λ t e. true) 1
    ∷ []

pool_refines_queue_example :
    (all_begun pool_ops (new_pool 2 (new_queue 8))
        ++ line (steps pool_ops (new_pool 2 (new_queue 8)))
      ≡ all_accepted pool_ops (new_pool 2 (new_queue 8)))
    × (tally (λ e. true) (finished (steps pool_ops (new_pool 2 (new_queue 8))).done)
          + tally (λ e. true) (steps pool_ops (new_pool 2 (new_queue 8))).busy
        ≡ tally (λ e. true) (all_begun pool_ops (new_pool 2 (new_queue 8))))
unfolding steps new_pool new_queue
pool_refines_queue_example = pool_refines_queue 2 8 pool_ops (λ e. true) refl

abbrev opened : Bytes → Option Bytes
opened [] = none
opened (x ∷ p) = some p

abbrev plain_aead : Aead
plain_aead = record {
  sum256 = λ key. 1 ∷ [];
  cipher_fails = λ hash. false;
  gcm_fails = λ hash. false;
  nonce_size = 2;
  seal = λ hash nonce p. 0 ∷ p;
  unseal = λ hash nonce c. opened c;
}

decrypt-encrypt_example :
    (c : Bytes) × (encrypt plain_aead (λ n. some (7 ∷ 9 ∷ [])) (5 ∷ []) "key" ≡ ok c)
    × (decrypt plain_aead c "key" ≡ ok (5 ∷ []))
decrypt-encrypt_example =
    decrypt-encrypt plain_aead (λ n. some (7 ∷ 9 ∷ [])) (7 ∷ 9 ∷ []) (5 ∷ []) "key" refl refl refl
      refl (λ hash n p. refl)
