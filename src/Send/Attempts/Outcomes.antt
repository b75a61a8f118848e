-- ===== src/Send/Attempts/Outcomes.antt =====
-- What the two outcomes of a send that the caller acts on say of its attempts: that it was accepted,
-- and that the session is unavailable.
use mathlib.Core.Path.{subst}
use mathlib.Core.List.{append_assoc}
use apime.Common.{
  ℕ, zero, suc, ◌+◌, ◌≤◌, String, ◌≡◌, ◌⊎◌, refl, sym, ap, ◌∙◌, true, false, Option, none, some, [],
  ◌∷◌, ◌++◌, ◌==◌, arith, inl, inr, All, All-append,
}
use apime.Common.Map.{Map}
use apime.Send.Outage.{Outage}
use apime.Send.Attempts.{
  Failure, accepted, Env, Loop, continues, attempt, attempts, start, run_attempts, SendError,
  session_unavailable, send_error, report,
}
use apime.Send.Attempts.Safety.{
  sent, loop_of, Down, attempt_outcome, attempts_breaks, attempts_continues, calls_of, Round-cases,
  numbered,
}

-- While the flag is up, every attempt so far found the socket down.
abbrev AllDown : Env → Loop → Type 0
AllDown env s = s.only_socket_down ≡ true → All (λ c. Down env c.0) (sent s.effects)

AllDown-step :
    (env : Env) (n : ℕ) (s s' : Loop)
    → loop_of (attempt env n s) ≡ s'
    → AllDown env s
    → ((loop_of (attempt env n s)).only_socket_down ≡ true
        → (s.only_socket_down ≡ true) × Down env n)
    → AllDown env s'
AllDown-step env n s s' is_s' down step flag =
    let (flag', down_n) = step (ap (λ (x : Loop). x.only_socket_down) is_s' ∙ flag) in
    subst (λ calls. All (λ c. Down env c.0) calls) (sym (calls_of env n s s' is_s'))
      (All-append (λ (c : ℕ × String). Down env c.0) (sent s.effects) ((n, env.send_id) ∷ [])
        (down flag') (down_n, tt))

attempts_down :
    (env : Env) (left n : ℕ) (s : Loop)
    → AllDown env s
    → ((attempts env left n s).error ≡ none) ⊎ AllDown env (attempts env left n s)
unfolding attempts
attempts_down env zero n s down = inr down
attempts_down env (suc left) n s down = elim (attempt_outcome env n s) [
  | inl (id, is_id, full, stops, error, sent_id) ↦
      inl (ap (λ (x : Loop). x.error) (attempts_breaks env left n s _ stops) ∙ error)
  | inr (error, step) ↦ elim (Round-cases (attempt env n s)) [
    | inl (s', is_s') ↦ inr (
        subst (AllDown env) (sym (attempts_breaks env left n s s' is_s'))
          (AllDown-step env n s s' (ap loop_of is_s') down step))
    | inr (s', is_s') ↦
        subst (λ (x : Loop). (x.error ≡ none) ⊎ AllDown env x)
          (sym (attempts_continues env left n s s' is_s'))
          (attempts_down env left (suc n) s' (AllDown-step env n s s' (ap loop_of is_s') down step))
  ]
]

unavailable_flag :
    (e : Failure) (s : Loop) → send_error e s ≡ session_unavailable → s.only_socket_down ≡ true
unfolding send_error
unavailable_flag e s h = ground (arith, h)

report_error : Env → Loop → Option Failure → Option SendError
report_error env s none = none
report_error env s (some e) = some (send_error e s)

report-error :
    (env : Env) (w : String) (s : Loop) → (report env w s).error ≡ report_error env s s.error
unfolding report report_error
report-error env w s = ground arith

unavailable_error :
    (env : Env) (s : Loop) (o : Option Failure)
    → report_error env s o ≡ some session_unavailable
    → (¬ (o ≡ none)) × (s.only_socket_down ≡ true)
unfolding report_error
unavailable_error env s none h = absurd (ground (arith, h))
unavailable_error env s (some e) h =
    (λ is_none. ground (arith, is_none), unavailable_flag e s (ground (arith, h)))

accepted_error :
    (env : Env) (s : Loop) (o : Option Failure) → report_error env s o ≡ none → o ≡ none
unfolding report_error
accepted_error env s none h = refl
accepted_error env s (some e) h = absurd (ground (arith, h))

-- A send that ends in `session_unavailable`, which the caller may send again, found the socket down
-- at every call of SendMessage that it made.
pub unavailable_never_left :
    (env : Env) (outages : Map Outage) (whatsapp_id : String)
    → (report env whatsapp_id (run_attempts env outages)).error ≡ some session_unavailable
    → All (λ c. Down env c.0) (sent (run_attempts env outages).effects)
unfolding run_attempts start sent
unavailable_never_left env outages w h =
    let s = run_attempts env outages in
    let (failed, flag) = unavailable_error env s s.error (sym (report-error env w s) ∙ h) in
    elim (attempts_down env 4 0 (start outages) (λ up. tt)) [
      | inl error ↦ absurd (failed error)
      | inr down ↦ down flag
    ]

error_left : (s : Loop) (e : Failure) → s.error ≡ some e → ¬ (s.error ≡ none)
error_left s e some_e none_e = ground (arith, some_e, none_e)

-- Attempt `n + k` was accepted under the id `id`, and it was the last.
abbrev IsAccepted : Env → ℕ → ℕ → ℕ → Loop → Loop → Type 0
IsAccepted env left n k s s' =
    (id : String) × (k ≤ left)
    × (env.answers (k + n) ≡ accepted id)
    × ((id == "") ≡ false)
    × (s'.sent_id ≡ id)
    × (sent s'.effects ≡ sent s.effects ++ numbered env.send_id n (suc k))

-- What follows a round that goes on.
abbrev Later : Env → ℕ → ℕ → Loop → Type 0
Later env left n s =
    (s' : Loop)
    → attempt env n s ≡ continues s'
    → ¬ (s'.error ≡ none)
    → (attempts env left (suc n) s').error ≡ none
    → (k : ℕ) × IsAccepted env left n k s (attempts env left (suc n) s')

IsAccepted-step :
    (env : Env) (left n : ℕ) (s : Loop)
    → Later env left n s
    → (attempts env (suc left) n s).error ≡ none
    → (k : ℕ) × IsAccepted env left n k s (attempts env (suc left) n s)
IsAccepted-step env left n s later h = elim (attempt_outcome env n s) [
  | inl (id, is_id, full, stops, error, sent_id) ↦
      let ends = attempts_breaks env left n s _ stops in
      (
        0,
        (
          id,
          omega arith,
          ap env.answers (omega arith) ∙ is_id,
          full,
          ap (λ (x : Loop). x.sent_id) ends ∙ sent_id,
          ap (λ (x : Loop). sent x.effects) ends ∙ calls_of env n s _ refl,
        ),
      )
  | inr ((e, error), step) ↦ elim (Round-cases (attempt env n s)) [
    | inl (s', is_s') ↦ absurd (
        error_left s' e (ap (λ r. (loop_of r).error) (sym is_s') ∙ error)
          (ap (λ (x : Loop). x.error) (sym (attempts_breaks env left n s s' is_s')) ∙ h))
    | inr (s', is_s') ↦
        let goes_on = attempts_continues env left n s s' is_s' in
        let (k, rest) =
          later s' is_s' (error_left s' e (ap (λ r. (loop_of r).error) (sym is_s') ∙ error))
            (ap (λ (x : Loop). x.error) (sym goes_on) ∙ h) in
        (k, subst (IsAccepted env left n k s) (sym goes_on) rest)
  ]
]

Later-of :
    (env : Env) (left n : ℕ) (s : Loop)
    → ((s' : Loop)
        → (attempts env (suc left) (suc n) s').error ≡ none
        → (k : ℕ) × IsAccepted env left (suc n) k s' (attempts env (suc left) (suc n) s'))
    → Later env (suc left) n s
Later-of env left n s rest s' is_s' failed ok =
    let (k, (id, few, is_id, full, sent_id, calls)) = rest s' ok in
    (
      suc k,
      (
        id,
        omega (arith, few),
        ap env.answers (omega arith) ∙ is_id,
        full,
        sent_id,
        calls
            ∙ ap (λ c. c ++ numbered env.send_id (suc n) (suc k))
                (calls_of env n s s' (ap loop_of is_s'))
            ∙ append_assoc (sent s.effects) ((n, env.send_id) ∷ [])
                (numbered env.send_id (suc n) (suc k)),
      ),
    )

attempts-IsAccepted :
    (env : Env) (left n : ℕ) (s : Loop)
    → (attempts env (suc left) n s).error ≡ none
    → (k : ℕ) × IsAccepted env left n k s (attempts env (suc left) n s)
attempts-IsAccepted env zero n s h =
    IsAccepted-step env zero n s (λ s' is_s' failed ok. absurd (failed (unfold attempts in ok))) h
attempts-IsAccepted env (suc left) n s h =
    IsAccepted-step env (suc left) n s
      (Later-of env left n s (attempts-IsAccepted env left (suc n))) h

-- A send that ends without an error was accepted at one of its four attempts, its last, under an id
-- that is not empty, and that id is recorded with the status `sent`.
pub accepted_is_reported :
    (env : Env) (outages : Map Outage) (whatsapp_id : String)
    → (report env whatsapp_id (run_attempts env outages)).error ≡ none
    → (k : ℕ) × (id : String) × (k ≤ 3)
      × (env.answers k ≡ accepted id)
      × ((id == "") ≡ false)
      × (sent (run_attempts env outages).effects ≡ numbered env.send_id 0 (suc k))
      × ((report env whatsapp_id (run_attempts env outages)).status ≡ "sent")
      × ((report env whatsapp_id (run_attempts env outages)).whatsapp_id ≡ id)
unfolding report run_attempts start sent
accepted_is_reported env outages w h =
    let s = run_attempts env outages in
    let error : s.error ≡ none = accepted_error env s s.error (sym (report-error env w s) ∙ h) in
    let (k, (id, few, is_id, full, sent_id, calls)) =
      attempts-IsAccepted env 3 0 (start outages) error in
    (
      k,
      id,
      few,
      ap env.answers (omega arith) ∙ is_id,
      full,
      calls,
      rw (error, report) refl,
      rw (error, report) sent_id,
    )
