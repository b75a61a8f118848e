-- ===== src/Message/StuckDetector/Debounce.antt =====
-- How often the detector resets a contact, and what becomes of a stuck message.
use apime.Common.{
  ℕ, suc, ◌+◌, ◌*◌, ◌<◌, String, ◌≡◌, refl, ap, ◌∙◌, Bool, true, false, some, List, [], ◌∷◌, ◌==◌,
  eq_iff, arith, All, if◌then◌else◌, Bool-cases, inl, inr,
}
use apime.Common.Map.{get, get-put}
use apime.Common.Time.{minute}
use apime.Common.Table.{first, first-update_where_self}
use apime.Message.Repo.{Message, has_id, set_sent, update}
use apime.Message.StuckDetector.{
  Detector, is_stuck, is_shared, reset_key, retry_debounce, give_up, reset, check_message,
}

-- A message looked at: whether its UPDATE is refused, the clock, the time-out, its instance.
pub record Check : Type 0 where
  pub fault : Bool
  pub now : ℕ
  pub timeout : ℕ
  pub instance_id : String
  pub message : Message

unfoldable pub checks : List Check → Detector → Detector
checks [] d = d
checks (c ∷ cs) d = checks cs (check_message c.fault c.now c.timeout c.instance_id c.message d)

-- How often a contact was reset.
unfoldable pub resets_of : String → List (String × ℕ) → ℕ
resets_of key [] = 0
resets_of key ((k, at) ∷ rs) = let rest = resets_of key rs in if k == key then suc rest else rest

check_debounced :
    (c : Check) (key : String) (last : ℕ) (d : Detector)
    → get key d.attempts ≡ some last
    → c.now < last + 5 * minute
    → let d' = check_message c.fault c.now c.timeout c.instance_id c.message d in
      (get key d'.attempts ≡ some last) × (resets_of key d'.resets ≡ resets_of key d.resets)
unfolding check_message give_up reset resets_of retry_debounce
check_debounced c key last d known soon =
    let k = reset_key c.instance_id c.message in
    ground (arith, known, soon, get-put k key c.now d.attempts, eq_iff k key)

-- After a contact was tried, no message that is looked at within the next five minutes resets it
-- again, whichever the messages and however many.
pub reset_debounced :
    (cs : List Check) (key : String) (last : ℕ) (d : Detector)
    → get key d.attempts ≡ some last
    → All (λ c. c.now < last + 5 * minute) cs
    → resets_of key (checks cs d).resets ≡ resets_of key d.resets
unfolding checks
reset_debounced [] key last d known soon = refl
reset_debounced (c ∷ cs) key last d known (now, soon) =
    let (known', same) = check_debounced c key last d known now in
    reset_debounced cs key last _ known' soon ∙ same

given_up_rests :
    (now timeout : ℕ) (m : Message) → m.status ≡ "failed_stuck" → is_stuck now timeout m ≡ false
unfolding is_stuck
given_up_rests now timeout m given = ground (
  arith,
  ap (λ (s : String). s == "sent") given,
  ap (λ (s : String). s == "retry") given,
  ap (λ (s : String). s == "delivered") given,
)

-- A stuck message to one contact that is not a retry is given up whether or not its contact is
-- reset: its row has the status `failed_stuck`, unless the UPDATE is refused.
pub stuck_ends :
    (now timeout : ℕ) (instance_id : String) (m row : Message) (d : Detector)
    → is_shared m ≡ false
    → is_stuck now timeout m ≡ true
    → (m.status == "retry") ≡ false
    → first (has_id m.id) d.table ≡ some row
    → first (has_id m.id) (check_message false now timeout instance_id m d).table
      ≡ some (set_sent (record m { status = "failed_stuck" }) row)
unfolding check_message give_up reset update
stuck_ends now timeout i m row d single stuck no_retry found =
    let live : (m.status == "failed_stuck") ≡ false =
      elim (Bool-cases (m.status == "failed_stuck")) [
        | inl given ↦ absurd (
            ground (
              arith,
              stuck,
              given_up_rests now timeout m (ground (arith, given, eq_iff m.status "failed_stuck")),
            ))
        | inr other ↦ other
      ] in
    let given_up =
      first-update_where_self (has_id m.id) (set_sent (record m { status = "failed_stuck" }))
        d.table (unfold has_id set_sent in λ r h. h) in
    ground (arith, single, stuck, no_retry, found, live, given_up)
