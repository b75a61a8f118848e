-- ===== src/Webhook/Delivery.antt =====
-- internal/webhook/delivery/delivery.go: one event sent to a webhook, with retries. The request is
-- built once, so its body is one reader for all attempts: `client` is http.Client.Do, which is given
-- what the reader still holds, and says what it leaves. `mac` is the hex HMAC-SHA256 of a payload
-- under a secret. `event_json` is json.Marshal of the event, `new_request` the error of NewRequest.
pub mod Laws
use Prim.Native.String.{◌++◌}
use apime.Common.{
  ℕ, zero, suc, ◌+◌, ◌-◌, ◌*◌, String, Bool, true, false, ◌&&◌, Option, none, some, List, [], ◌∷◌,
  ◌==◌, leb, ltb, eqb, Result, ok, err, if◌then◌else◌,
}
use apime.Common.Time.{second}

-- An attempt: what was slept before it, the signature header, and the body the client was given.
pub record Try : Type 0 where
  pub backoff : ℕ
  pub signature : Option String
  pub body : String

-- What Do does with a body: the status or the error, and what the reader holds afterwards.
pub record Sent : Type 0 where
  pub answer : Result String ℕ
  pub left : String

pub data LastError : Type 0 where
  no_error : LastError
  request : String → LastError
  status : ℕ → LastError

pub data DeliveryError : Type 0 where
  marshal bad_request : String → DeliveryError
  failed : ℕ → LastError → DeliveryError

module _ (mac : String → String → String) where
  unfoldable pub generate_signature : String → String → String
  generate_signature payload secret = "sha256=" ++ mac payload secret

  unfoldable pub verify_signature : String → String → String → Bool
  unfolding generate_signature
  verify_signature payload signature secret = signature == generate_signature payload secret

  unfoldable pub signature_header : String → String → Option String
  unfolding generate_signature
  signature_header payload secret =
      if secret == "" then none else some (generate_signature payload secret)

-- 2xx
unfoldable pub is_success : ℕ → Bool
is_success code = leb 200 code && ltb code 300

module _ (client : ℕ → String → Sent) where
  -- The attempts from number `attempt` on, of which `left` remain.
  unfoldable pub attempts :
      ℕ → ℕ → Option String → String → LastError → List Try × Result LastError ℕ
  unfolding is_success
  attempts zero attempt signature body last = ([], err last)
  attempts (suc left) attempt signature body last =
      let this : Try = record { backoff = attempt * second; signature = signature; body = body } in
      let sent = client attempt body in
      let next = λ (e : LastError). attempts left (suc attempt) signature sent.left e in
      elim sent.answer [
        | err message ↦ (this ∷ (next (request message)).0, (next (request message)).1)
        | ok code ↦
            if is_success code
            then (this ∷ [], ok code)
            else (this ∷ (next (status code)).0, (next (status code)).1)
      ]

  -- `none`: delivered.
  unfoldable pub deliver :
      (String → String → String)
      → ℕ
      → Option String
      → Result String String
      → String
      → List Try × Option DeliveryError
  unfolding attempts signature_header
  deliver mac max_retries new_request event_json secret = elim event_json [
    | err message ↦ ([], some (marshal message))
    | ok payload ↦ elim new_request [
      | some message ↦ ([], some (bad_request message))
      | none ↦
          let run =
            attempts (suc max_retries) 0 (signature_header mac payload secret) payload no_error in
          elim run.1 [
            | ok code ↦ (run.0, none)
            | err last ↦ (run.0, some (failed (suc max_retries) last))
          ]
    ]
  ]
