-- ===== src/Send/Attempts/Safety.antt =====
-- What the attempts of a send may do: how often they send, under which id, and what an outcome says
-- about them.
use mathlib.Core.List.{append-nil, append_assoc}
use apime.Common.Time.{second}
use apime.Common.{
  ◌*◌, ◌^◌, ℕ, zero, suc, ◌≤◌, String, ◌≡◌, ◌⊎◌, refl, sym, ap, ◌∙◌, true, false, ◌&&◌, none, some,
  List, [], ◌∷◌, ◌++◌, ◌==◌, arith, ltb, if◌then◌else◌, Bool-cases, inl, inr,
}
use apime.Common.Map.{Map}
use apime.Send.Outage.{Outage, deadline}
use apime.Send.Attempts.{
  Failure, Answer, accepted, refused, Effect, sends, sleeps, shows_typing, caches, waits_until,
  deletes_identity, warms_up, blocks_contact, marks_disconnected, Env, Loop, Round, breaks,
  continues, empty_id_error, log, back_off, wait_for_socket, wait_limit, judge, after_failure,
  after_answer, attempt, attempts, start, run_attempts,
}

-- The calls of SendMessage: the number of the attempt and the id it carries.
unfoldable pub sent : List Effect → List (ℕ × String)
sent [] = []
sent (sends n id ∷ es) = (n, id) ∷ sent es
sent (_ ∷ es) = sent es

abbrev pub loop_of : Round → Loop
loop_of (breaks s) = s
loop_of (continues s) = s

pub sent-append : (es fs : List Effect) → sent (es ++ fs) ≡ sent es ++ sent fs
unfolding sent
sent-append [] fs = refl
sent-append (sends n id ∷ es) fs = ap (λ calls. (n, id) ∷ calls) (sent-append es fs)
sent-append (_ ∷ es) fs = sent-append es fs

-- Nothing is sent, and the error and the flag stay.
abbrev Quiet : Loop → Loop → Type 0
Quiet s s' =
    (sent s'.effects ≡ sent s.effects)
    × (s'.only_socket_down ≡ s.only_socket_down)
    × (s'.error ≡ s.error)

log-Quiet : (es : List Effect) (s : Loop) → sent es ≡ [] → Quiet s (log es s)
unfolding log
log-Quiet es s none_sent = (
  sent-append s.effects es
      ∙ ap (λ calls. sent s.effects ++ calls) none_sent
      ∙ append-nil (sent s.effects),
  refl,
  refl,
)

back_off-Quiet : (env : Env) (n : ℕ) (s : Loop) → Quiet s (back_off env n s)
unfolding back_off sent
back_off-Quiet env zero s = (refl, refl, refl)
back_off-Quiet env (suc n) s =
    log-Quiet (sleeps (2 ^ suc n * second) ∷ (if env.has_presence then shows_typing ∷ [] else [])) s
      (elim (Bool-cases env.has_presence) [ inl e ↦ rw e refl | inr e ↦ rw e refl ])

log_sent : (es : List Effect) (s : Loop) → sent es ≡ [] → sent (s.effects ++ es) ≡ sent s.effects
log_sent es s none_sent =
    sent-append s.effects es
    ∙ ap (λ calls. sent s.effects ++ calls) none_sent
    ∙ append-nil (sent s.effects)

judge-Quiet : (e : Failure) (s : Loop) → Quiet s (loop_of (judge e s))
unfolding judge log sent
judge-Quiet e s = ground (
  arith,
  log_sent (deletes_identity ∷ []) s refl,
  log_sent (warms_up ∷ []) s refl,
  log_sent (blocks_contact ∷ []) s refl,
  log_sent (marks_disconnected ∷ []) s refl,
)

wait-Quiet : (env : Env) (n : ℕ) (s : Loop) → Quiet s (loop_of (wait_for_socket env n s))
unfolding wait_for_socket log sent
wait-Quiet env n s =
    let shared = (deadline env.instance_id (env.now n) s.outages).0 in
    let own = wait_limit s.wait_deadline (env.now n) in
    let until = if ltb own shared then own else shared in
    elim (Bool-cases (env.reconnects n until)) [
      | inl back ↦ rw back (log_sent (waits_until until ∷ []) s refl, refl, refl)
      | inr gone ↦ rw gone (log_sent (waits_until until ∷ []) s refl, refl, refl)
    ]

Answer-cases :
    (a : Answer) → ((id : String) × (a ≡ accepted id)) ⊎ ((e : Failure) × (a ≡ refused e))
Answer-cases (accepted id) = inl (id, refl)
Answer-cases (refused e) = inr (e, refl)

failure-Quiet :
    (env : Env) (n : ℕ) (e : Failure) (s : Loop)
    → let s' = loop_of (after_failure env n e s) in
      (sent s'.effects ≡ sent s.effects)
      × (s'.only_socket_down ≡ (s.only_socket_down && e.socket_down))
      × (s'.error ≡ s.error)
unfolding after_failure
failure-Quiet env n e s = ground (
  arith,
  wait-Quiet env n s,
  judge-Quiet e s,
  judge-Quiet e (record s { only_socket_down = false }),
)

-- Attempt `n` found the socket down.
abbrev pub Down : Env → ℕ → Type 0
Down env n = (e : Failure) × (env.answers n ≡ refused e) × (e.socket_down ≡ true)

-- An attempt ends the loop with the id it was given, or leaves an error; the flag stays up only if
-- the socket was down.
abbrev pub Outcome : Env → ℕ → Loop → Round → Type 0
Outcome env n s r =
    ((id : String) × (env.answers n ≡ accepted id)
      × ((id == "") ≡ false)
      × (r ≡ breaks (loop_of r))
      × ((loop_of r).error ≡ none)
      × ((loop_of r).sent_id ≡ id))
    ⊎ (((e : Failure) × ((loop_of r).error ≡ some e))
        × ((loop_of r).only_socket_down ≡ true → (s.only_socket_down ≡ true) × Down env n))

pub attempt_outcome : (env : Env) (n : ℕ) (s : Loop) → Outcome env n s (attempt env n s)
unfolding attempt after_answer log
attempt_outcome env n s = elim (Answer-cases (env.answers n)) [
  | inl (id, is_id) ↦ rw is_id (elim (Bool-cases (id == "")) [
    | inl empty ↦ rw empty (inr ((empty_id_error, refl), λ h. absurd (ground (arith, h))))
    | inr full ↦ rw full (inl (id, refl, full, refl, refl, refl))
  ])
  | inr (e, is_e) ↦ rw is_e (
      let (calls, flag, error) =
        failure-Quiet env n e
          (record (log (sends n env.send_id ∷ []) (back_off env n s)) { error = some e }) in
      let (calls', flag', error') = back_off-Quiet env n s in
      inr ((e, error), λ h. (ground (arith, h, flag, flag'), (e, refl, ground (arith, h, flag)))))
]

attempt_calls :
    (env : Env) (n : ℕ) (s : Loop)
    → sent (loop_of (attempt env n s)).effects ≡ sent s.effects ++ ((n, env.send_id) ∷ [])
unfolding attempt after_answer log sent
attempt_calls env n s =
    let (calls, flag, error) = back_off-Quiet env n s in
    let s₁ = log (sends n env.send_id ∷ []) (back_off env n s) in
    let sent₁ : sent s₁.effects ≡ sent s.effects ++ ((n, env.send_id) ∷ []) =
      sent-append (back_off env n s).effects (sends n env.send_id ∷ [])
      ∙ ap (λ calls. calls ++ ((n, env.send_id) ∷ [])) calls in
    elim (Answer-cases (env.answers n)) [
      | inl (id, is_id) ↦ rw is_id (elim (Bool-cases (id == "")) [
        | inl empty ↦ rw empty sent₁
        | inr full ↦ rw full (log_sent (caches id ∷ []) s₁ refl ∙ sent₁)
      ])
      | inr (e, is_e) ↦ rw is_e (
          let (calls', flag', error') = failure-Quiet env n e (record s₁ { error = some e }) in
          calls' ∙ sent₁)
    ]

-- The calls of the attempts from `n` on, `k` of them.
abbrev pub numbered : String → ℕ → ℕ → List (ℕ × String)
numbered id n zero = []
numbered id n (suc k) = (n, id) ∷ numbered id (suc n) k

pub Round-cases : (r : Round) → ((s : Loop) × (r ≡ breaks s)) ⊎ ((s : Loop) × (r ≡ continues s))
Round-cases (breaks s) = inl (s, refl)
Round-cases (continues s) = inr (s, refl)

pub attempts_breaks :
    (env : Env) (left n : ℕ) (s s' : Loop)
    → attempt env n s ≡ breaks s'
    → attempts env (suc left) n s ≡ s'
unfolding attempts
attempts_breaks env left n s s' e = rw (e, attempts) refl

pub attempts_continues :
    (env : Env) (left n : ℕ) (s s' : Loop)
    → attempt env n s ≡ continues s'
    → attempts env (suc left) n s ≡ attempts env left (suc n) s'
unfolding attempts
attempts_continues env left n s s' e = rw (e, attempts) refl

pub calls_of :
    (env : Env) (n : ℕ) (s s' : Loop)
    → loop_of (attempt env n s) ≡ s'
    → sent s'.effects ≡ sent s.effects ++ ((n, env.send_id) ∷ [])
calls_of env n s s' e = ap (λ (x : Loop). sent x.effects) (sym e) ∙ attempt_calls env n s

attempts_calls :
    (env : Env) (left n : ℕ) (s : Loop)
    → (k : ℕ) × (k ≤ left)
      × (sent (attempts env left n s).effects ≡ sent s.effects ++ numbered env.send_id n k)
unfolding attempts
attempts_calls env zero n s = (0, omega arith, sym (append-nil (sent s.effects)))
attempts_calls env (suc left) n s = elim (Round-cases (attempt env n s)) [
  | inl (s', is_s') ↦ (
    1,
    omega arith,
    ap (λ (x : Loop). sent x.effects) (attempts_breaks env left n s s' is_s')
        ∙ calls_of env n s s' (ap loop_of is_s'),
  )
  | inr (s', is_s') ↦
      let (k, few, calls) = attempts_calls env left (suc n) s' in
      (
        suc k,
        omega arith,
        ap (λ (x : Loop). sent x.effects) (attempts_continues env left n s s' is_s')
            ∙ calls
            ∙ ap (λ c. c ++ numbered env.send_id (suc n) k) (calls_of env n s s' (ap loop_of is_s'))
            ∙ append_assoc (sent s.effects) ((n, env.send_id) ∷ [])
                (numbered env.send_id (suc n) k),
      )
]

-- A send calls SendMessage at most four times, once for each attempt from the first on, and always
-- under the same id.
pub at_most_four_calls :
    (env : Env) (outages : Map Outage)
    → (k : ℕ) × (k ≤ 4) × (sent (run_attempts env outages).effects ≡ numbered env.send_id 0 k)
unfolding run_attempts start sent
at_most_four_calls env outages = attempts_calls env 4 0 (start outages)
