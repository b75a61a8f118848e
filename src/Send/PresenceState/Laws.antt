-- ===== src/Send/PresenceState/Laws.antt =====
-- Which signals internal/service/message/presence_state.go asks for again.
use Prim.Native.String.{◌++◌}
use text.Mathlib.TextPositions.{starts_with-append}
use text.Mathlib.TextLemmas.{append_assoc}
use text.Mathlib.Text.{starts_with}
use apime.Common.{
  ℕ, ◌+◌, ◌<◌, String, ◌≡◌, refl, sym, ap, ◌∙◌, true, false, not, none, some, eq_iff, arith,
  Option-cases, inl, inr,
}
use apime.Common.Map.{get, put, delete, get-put, get-delete, Distinct, retain, get-retain, kept}
use apime.Send.PresenceState.{
  Presence, composing_ttl, chat_key, expired, needs_available, needs_composing, forget_composing,
  forget_instance_presence,
}

-- An opening of typing at `t` is not repeated in that chat within the next 8 seconds.
pub composing_once :
    (t now : ℕ) (instance_id chat : String) (p : Presence)
    → (needs_composing t instance_id chat p).0 ≡ true
    → now < t + composing_ttl
    → (needs_composing now instance_id chat (needs_composing t instance_id chat p).1).0 ≡ false
unfolding needs_composing expired chat_key
composing_once t now i chat p opened soon =
    let k = chat_key i chat in
    let at : get k (put k t p.composing_at) ≡ some t =
      ground (arith, get-put k k t p.composing_at, eq_iff k k) in
    ground (arith, at)

-- Once `paused` is sent, or the instance connects or disconnects, the next send opens typing in the
-- chat again, whatever was signaled before, and after the latter it shows itself available again.
pub signals_again :
    (now : ℕ) (instance_id chat : String) (p : Presence)
    → Distinct p.composing_at
    → ((needs_composing now instance_id chat (forget_composing instance_id chat p)).0 ≡ true)
      × ((needs_composing now instance_id chat (forget_instance_presence instance_id p)).0 ≡ true)
      × ((needs_available now instance_id (forget_instance_presence instance_id p)).0 ≡ true)
unfolding needs_composing needs_available expired forget_composing forget_instance_presence chat_key
signals_again now i chat p distinct =
    let k = chat_key i chat in
    let closed : get k (delete k p.composing_at) ≡ none =
      ground (arith, get-delete k k p.composing_at, eq_iff k k) in
    let keep = λ (key : String) (at : ℕ). not (starts_with key (i ++ "|")) in
    let of_instance : starts_with k (i ++ "|") ≡ true =
      ap (λ (s : String). starts_with s (i ++ "|")) (sym (append_assoc i "|" chat))
      ∙ starts_with-append (i ++ "|") chat in
    let refused : kept keep k (get k p.composing_at) ≡ none =
      elim (Option-cases (get k p.composing_at)) [
        | inl e ↦ rw e refl
        | inr (at, e) ↦ rw (e, of_instance) refl
      ] in
    let forgotten : get k (retain keep p.composing_at) ≡ none =
      get-retain keep k p.composing_at distinct ∙ refused in
    let away : get i (delete i p.available_at) ≡ none =
      ground (arith, get-delete i i p.available_at, eq_iff i i) in
    (rw closed refl, rw forgotten refl, rw away refl)
