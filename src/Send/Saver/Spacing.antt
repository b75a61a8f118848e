-- ===== src/Send/Saver/Spacing.antt =====
-- How far apart the mutations of one instance go out.
use mathlib.Core.Path.{subst}
use apime.Common.{
  ℕ, ◌+◌, ◌*◌, ◌≤◌, ◌<◌, String, ◌≡◌, some, List, [], ◌∷◌, ◌==◌, arith, Bool-cases, inl, inr,
  eq_iff,
}
use apime.Common.Map.{Map, get, get-put}
use apime.Common.Time.{millisecond}
use apime.Send.Saver.{save_contact_min_interval, slot, throttle_save_contact}

-- A call of the throttle: when, with which jitter, for which instance.
pub record Call : Type 0 where
  pub now : ℕ
  pub jitter : ℕ
  pub instance_id : String

unfoldable pub step : Call → Map ℕ → ℕ × Map ℕ
step c last = throttle_save_contact c.now c.jitter c.instance_id last

unfoldable pub steps : List Call → Map ℕ → Map ℕ
unfolding step
steps [] last = last
steps (c ∷ cs) last = steps cs (step c last).1

-- The instance has a reserved instant, and it is at least `t`.
record Reserved (i : String) (t : ℕ) (last : Map ℕ) : Type 0 where
  at : ℕ
  held : get i last ≡ some at
  late : t ≤ at

slot-grows : (now t : ℕ) → t + save_contact_min_interval ≤ slot now (some t)
unfolding slot
slot-grows now t = ground arith

reserved :
    (c : Call) (last : Map ℕ)
    → get c.instance_id (step c last).1 ≡ some (slot c.now (get c.instance_id last))
unfolding step throttle_save_contact
reserved c last = ground (
  arith,
  get-put c.instance_id c.instance_id (slot c.now (get c.instance_id last)) last,
  eq_iff c.instance_id c.instance_id,
)

slot-Reserved :
    (now : ℕ) (i : String) (t : ℕ) (last : Map ℕ)
    → Reserved i t last
    → t + save_contact_min_interval ≤ slot now (get i last)
slot-Reserved now i t last v = rw v.held (ground (arith, slot-grows now v.at, v.late))

Reserved-step :
    (c : Call) (i : String) (t : ℕ) (last : Map ℕ)
    → Reserved i t last
    → Reserved i t (step c last).1
unfolding step throttle_save_contact
Reserved-step c i t last v = elim (Bool-cases (c.instance_id == i)) [
  | inl same ↦
      let e : c.instance_id ≡ i = ground (arith, same, eq_iff c.instance_id i) in
      record {
        at = slot c.now (get i last);
        held =
            subst (λ k. get k (step c last).1 ≡ some (slot c.now (get k last))) e (reserved c last);
        late = ground (arith, slot-Reserved c.now i t last v);
      }
  | inr other ↦ record {
    at = v.at;
    held =
        ground (
          arith,
          get-put c.instance_id i (slot c.now (get c.instance_id last)) last,
          other,
          v.held,
        );
    late = v.late;
  }
]

Reserved-steps :
    (cs : List Call) (i : String) (t : ℕ) (last : Map ℕ)
    → Reserved i t last
    → Reserved i t (steps cs last)
unfolding steps
Reserved-steps [] i t last v = v
Reserved-steps (c ∷ cs) i t last v =
    Reserved-steps cs i t (step c last).1 (Reserved-step c i t last v)

-- Two mutations of one instance, whatever calls of any instances come between and whatever the clock
-- shows: the second goes out at least 501 milliseconds after the first, where the jitter is below 500.
pub half_a_second_apart :
    (c c' : Call) (between : List Call) (last : Map ℕ)
    → c.instance_id ≡ c'.instance_id
    → c.jitter < 500
    → (step c last).0 + 501 * millisecond ≤ (step c' (steps between (step c last).1)).0
unfolding step throttle_save_contact
half_a_second_apart c c' between last same small =
    let t = slot c.now (get c.instance_id last) in
    let first : Reserved c.instance_id t (step c last).1 = record {
      at = t;
      held = reserved c last;
      late = omega arith;
    } in
    let later = Reserved-steps between c.instance_id t (step c last).1 first in
    let apart = slot-Reserved c'.now c.instance_id t (steps between (step c last).1) later in
    let apart' : t + save_contact_min_interval
        ≤ slot c'.now (get c'.instance_id (steps between (step c last).1)) =
      subst
        (λ k. t + save_contact_min_interval ≤ slot c'.now (get k (steps between (step c last).1)))
        same apart in
    omega arith
