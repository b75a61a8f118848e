-- ===== src/Webhook/Delivery/Laws.antt =====
-- When an event is delivered, how often it is tried, and what each attempt carries.
use apime.Common.{
  ℕ, zero, suc, ◌≤◌, ◌<◌, ◌*◌, String, ◌≡◌, refl, ap, Bool, true, false, Option, none, some, [],
  ◌∷◌, ◌==◌, length, All, arith, Result, ok, err, eq_refl, Bool-cases, inl, inr, Result-cases, leb,
  leb→le, if◌then◌else◌,
}
use apime.Common.Time.{second}
use apime.Webhook.Delivery.{
  Try, Sent, DeliveryError, LastError, no_error, request, status, failed, generate_signature,
  verify_signature, signature_header, is_success, attempts, deliver,
}

unfoldable pub is_delivered : Option DeliveryError → Bool
is_delivered none = true
is_delivered (some e) = false

module _ (client : ℕ → String → Sent) where
  abbrev is_ok : Result String ℕ → Bool
  is_ok (ok code) = is_success code
  is_ok (err message) = false

  -- Whether the `i`-th attempt after `start` is answered with 2xx, given what the attempts before it
  -- left of the body.
  unfoldable pub succeeds : ℕ → ℕ → String → Bool
  unfolding is_success
  succeeds zero start body = is_ok (client start body).answer
  succeeds (suc i) start body = succeeds i (suc start) (client start body).left

  abbrev this : ℕ → Option String → String → Try
  this start sig body = record { backoff = start * second; signature = sig; body = body }

  attempts_stops :
      (left start : ℕ) (sig : Option String) (body : String) (last : LastError)
      → is_ok (client start body).answer ≡ true
      → (code : ℕ) × (attempts client (suc left) start sig body last
          ≡ (this start sig body ∷ [], ok code))
  unfolding attempts
  attempts_stops left start sig body last good = elim (Result-cases (client start body).answer) [
    | inl (message, e) ↦ absurd (ground (arith, e, good))
    | inr (code, e) ↦ (code, rw (e, (rw e at good), attempts) refl)
  ]

  attempts_goes_on :
      (left start : ℕ) (sig : Option String) (body : String) (last : LastError)
      → is_ok (client start body).answer ≡ false
      → (next : LastError) × (attempts client (suc left) start sig body last ≡ (
        this start sig body
            ∷ (attempts client left (suc start) sig (client start body).left next).0,
        (attempts client left (suc start) sig (client start body).left next).1,
      ))
  unfolding attempts
  attempts_goes_on left start sig body last bad = elim (Result-cases (client start body).answer) [
    | inl (message, e) ↦ (request message, rw (e, attempts) refl)
    | inr (code, e) ↦ (status code, rw (e, (rw e at bad), attempts) refl)
  ]

  -- Stops at the first success.
  attempts_first :
      (k left start : ℕ) (sig : Option String) (body : String) (last : LastError)
      → k < left
      → succeeds k start body ≡ true
      → ((i : ℕ) → i < k → succeeds i start body ≡ false)
      → (length (attempts client left start sig body last).0 ≡ suc k)
        × ((code : ℕ) × ((attempts client left start sig body last).1 ≡ ok code))
  unfolding succeeds
  attempts_first k zero start sig body last lt good bad = absurd (omega (arith, lt))
  attempts_first zero (suc left) start sig body last lt good bad =
      let (code, e) = attempts_stops left start sig body last good in rw e (refl, (code, refl))
  attempts_first (suc k) (suc left) start sig body last lt good bad =
      let (next, e) = attempts_goes_on left start sig body last (bad zero (omega arith)) in
      let (count, result) =
        attempts_first k left (suc start) sig (client start body).left next (omega (arith, lt)) good
          (λ i h. bad (suc i) (omega (arith, h))) in
      rw e (ap suc count, result)

  attempts_none :
      (left start : ℕ) (sig : Option String) (body : String) (last : LastError)
      → ((i : ℕ) → i < left → succeeds i start body ≡ false)
      → (length (attempts client left start sig body last).0 ≡ left)
        × ((e : LastError) × ((attempts client left start sig body last).1 ≡ err e))
  unfolding succeeds attempts
  attempts_none zero start sig body last bad = (refl, (last, refl))
  attempts_none (suc left) start sig body last bad =
      let (next, e) = attempts_goes_on left start sig body last (bad zero (omega arith)) in
      let (count, result) =
        attempts_none left (suc start) sig (client start body).left next
          (λ i h. bad (suc i) (omega (arith, h))) in
      rw e (ap suc count, result)

  module _ (mac : String → String → String) (payload secret : String) where
    -- Where no attempt is answered with 2xx, each retry is made and the delivery fails, counting them.
    pub fails_after_all :
        (max_retries : ℕ)
        → ((i : ℕ) → i ≤ max_retries → succeeds i 0 payload ≡ false)
        → ((e : LastError) × ((deliver client mac max_retries none (ok payload) secret).1
              ≡ some (failed (suc max_retries) e)))
          × (length (deliver client mac max_retries none (ok payload) secret).0 ≡ suc max_retries)
    unfolding deliver
    fails_after_all max_retries bad =
        let (count, (last, e)) =
          attempts_none (suc max_retries) 0 (signature_header mac payload secret) payload no_error
            (λ i h. bad i (omega (arith, h))) in
        ((last, rw (e, deliver) refl), rw (e, deliver) count)

    delivered_in_time :
        (max_retries k : ℕ)
        → k ≤ max_retries
        → succeeds k 0 payload ≡ true
        → ((i : ℕ) → i < k → succeeds i 0 payload ≡ false)
        → (is_delivered (deliver client mac max_retries none (ok payload) secret).1 ≡ true)
          × (length (deliver client mac max_retries none (ok payload) secret).0 ≡ suc k)
    unfolding deliver is_delivered
    delivered_in_time max_retries k le good bad =
        let (count, (code, e)) =
          attempts_first k (suc max_retries) 0 (signature_header mac payload secret) payload
            no_error (omega (arith, le)) good bad in
        (rw (e, deliver) refl, rw (e, deliver) count)

    given_up :
        (max_retries k : ℕ)
        → leb k max_retries ≡ false
        → ((i : ℕ) → i < k → succeeds i 0 payload ≡ false)
        → (is_delivered (deliver client mac max_retries none (ok payload) secret).1 ≡ false)
          × (length (deliver client mac max_retries none (ok payload) secret).0 ≡ suc max_retries)
    unfolding is_delivered
    given_up max_retries k late bad =
        let ((e, failing), count) =
          fails_after_all max_retries (λ i h. bad i (ground (arith, h, late))) in
        (rw failing refl, count)

    -- An event whose payload and request are built, and whose first attempt that would be answered with
    -- 2xx is the one after `k` others. It is delivered if and only if the configured retries reach that
    -- attempt, which is then the last; if they do not, each of them is made and no more.
    pub delivered_at_first_success :
        (max_retries k : ℕ)
        → succeeds k 0 payload ≡ true
        → ((i : ℕ) → i < k → succeeds i 0 payload ≡ false)
        → (is_delivered (deliver client mac max_retries none (ok payload) secret).1
            ≡ leb k max_retries)
          × (length (deliver client mac max_retries none (ok payload) secret).0
              ≡ (if leb k max_retries then suc k else suc max_retries))
    delivered_at_first_success max_retries k good bad = elim (Bool-cases (leb k max_retries)) [
      | inl early ↦ rw early (delivered_in_time max_retries k (leb→le k max_retries early) good bad)
      | inr late ↦ rw late (given_up max_retries k late bad)
    ]

    succeeds_empty :
        (i start : ℕ)
        → ((j : ℕ) → is_ok (client j "").answer ≡ false)
        → ((j : ℕ) → (client j "").left ≡ "")
        → succeeds i start "" ≡ false
    unfolding succeeds
    succeeds_empty zero start refuses keeps = refuses start
    succeeds_empty (suc i) start refuses keeps =
        rw (keeps start) (succeeds_empty i (suc start) refuses keeps)

    never_succeeds :
        is_ok (client 0 payload).answer ≡ false
        → (client 0 payload).left ≡ ""
        → ((j : ℕ) → is_ok (client j "").answer ≡ false)
        → ((j : ℕ) → (client j "").left ≡ "")
        → (i : ℕ) → succeeds i 0 payload ≡ false
    unfolding succeeds
    never_succeeds bad read refuses keeps zero = bad
    never_succeeds bad read refuses keeps (suc i) = rw read (succeeds_empty i 1 refuses keeps)

    -- The retries reuse the reader of the first attempt. Where that one read the body and was not
    -- answered with 2xx, and the client refuses a request whose body is shorter than announced,
    -- each retry fails whatever the webhook would answer, and the event is lost.
    pub retry_without_body :
        (max_retries : ℕ)
        → is_ok (client 0 payload).answer ≡ false
        → (client 0 payload).left ≡ ""
        → ((j : ℕ) → is_ok (client j "").answer ≡ false)
        → ((j : ℕ) → (client j "").left ≡ "")
        → (e : LastError) × ((deliver client mac max_retries none (ok payload) secret).1
            ≡ some (failed (suc max_retries) e))
    retry_without_body max_retries bad read refuses keeps =
        (fails_after_all max_retries (λ i _. never_succeeds bad read refuses keeps i)).0

    -- Whether the receiver accepts the header as signing the event.
    unfoldable pub accepts : Option String → Bool
    accepts none = false
    accepts (some signature) = verify_signature mac payload signature secret

    attempts_signed :
        (left start : ℕ) (sig : Option String) (body : String) (last : LastError)
        → accepts sig ≡ true
        → All (λ (t : Try). accepts t.signature ≡ true) (attempts client left start sig body last).0
    unfolding attempts
    attempts_signed zero start sig body last signed = tt
    attempts_signed (suc left) start sig body last signed =
        elim (Bool-cases (is_ok (client start body).answer)) [
          | inl good ↦
              let (code, e) = attempts_stops left start sig body last good in rw e (signed, tt)
          | inr bad ↦
              let (next, e) = attempts_goes_on left start sig body last bad in
              rw e
                (signed, attempts_signed left (suc start) sig (client start body).left next signed)
        ]

    header_accepted : (secret == "") ≡ false → accepts (signature_header mac payload secret) ≡ true
    unfolding signature_header accepts generate_signature verify_signature
    header_accepted used = rw used (eq_refl (generate_signature mac payload secret))

    -- With a secret, each attempt that reaches the webhook carries a signature that VerifySignature
    -- accepts for the event and that secret.
    pub tries_signed :
        (max_retries : ℕ) (new_request : Option String)
        → (secret == "") ≡ false
        → All
            (λ (t : Try). accepts t.signature ≡ true)
            (deliver client mac max_retries new_request (ok payload) secret).0
    unfolding deliver
    tries_signed max_retries (some message) used = tt
    tries_signed max_retries none used =
        let run =
          attempts client (suc max_retries) 0 (signature_header mac payload secret) payload
            no_error in
        let signed =
          attempts_signed (suc max_retries) 0 (signature_header mac payload secret) payload no_error
            (header_accepted used) in
        elim (Result-cases run.1) [
          | inl (last, e) ↦ rw (e, deliver) signed
          | inr (code, e) ↦ rw (e, deliver) signed
        ]
