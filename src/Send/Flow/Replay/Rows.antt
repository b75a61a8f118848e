-- ===== src/Send/Flow/Replay/Rows.antt =====
-- The row of a message after the statements of Send.
use apime.Common.{
  ℕ, String, ◌≡◌, refl, sym, ◌∙◌, Bool, true, false, ◌&&◌, none, some, List, [], ◌∷◌, ◌++◌, ◌==◌,
  Bool-cases, Option-cases, inl, inr, if◌then◌else◌, arith, eq_refl, if_false,
}
use apime.Common.Table.{update_where, first, first-append}
use apime.Message.Repo.{Message, has_id, of_instance, has_whatsapp_id, went_out, create, set_sent}
use apime.Send.Content.{SendInput}
use apime.Send.Content.Build.{Content}
use apime.Send.Flow.{SendEnv}
use apime.Send.Flow.Row.{Saved, created, created_or_not, new_message, save_row}

-- A row with this id of this instance.
unfoldable pub own_row : String → String → Message → Bool
unfolding has_id of_instance
own_row id i m = has_id id m && of_instance i m

set_sent-went_out :
    (m r : Message) (i : String)
    → m.status ≡ "sent"
    → of_instance i r ≡ true
    → went_out i m.whatsapp_id (set_sent m r) ≡ true
unfolding went_out set_sent of_instance has_whatsapp_id
set_sent-went_out m r i done own = rw (done, own, eq_refl m.whatsapp_id) refl

own_id : (id i : String) (r : Message) → own_row id i r ≡ true → has_id id r ≡ true
unfolding own_row
own_id id i r own = ground arith

own_instance : (id i : String) (r : Message) → own_row id i r ≡ true → of_instance i r ≡ true
unfolding own_row
own_instance id i r own = ground arith

-- The UPDATE of a sent message makes its row one that went out.
pub update-went_out :
    (m : Message) (i : String) (t : List Message) (r : Message)
    → m.status ≡ "sent"
    → first (own_row m.id i) t ≡ some r
    → (row : Message) × (first
          (went_out i m.whatsapp_id)
          (update_where (has_id m.id) (set_sent m) t)
        ≡ some row)
unfolding first update_where own_row
update-went_out m i [] r done found = absurd (ground arith)
update-went_out m i (x ∷ t) r done found = elim (Bool-cases (own_row m.id i x)) [
  | inl own ↦
      let here : has_id m.id x ≡ true = own_id m.id i x own in
      let went = set_sent-went_out m x i done (own_instance m.id i x own) in
      (set_sent m x, rw (here, went) refl)
  | inr other ↦
      let later : first (own_row m.id i) t ≡ some r = sym (if_false _ _ _ other) ∙ found in
      let (row, there) = update-went_out m i t r done later in
      elim (Bool-cases (went_out i m.whatsapp_id (if has_id m.id x then set_sent m x else x))) [
        | inl went ↦ (if has_id m.id x then set_sent m x else x, rw went refl)
        | inr not_yet ↦ (row, rw not_yet there)
      ]
]

unfoldable pub Owned : String → Saved → Type 0
Owned i (none, t) = Unit {0}
Owned i (some m, t) = (row : Message) × (first (own_row m.id i) t ≡ some row)

found_last :
    (p : Message → Bool) (t : List Message) (r : Message)
    → p r ≡ true
    → (row : Message) × (first p (t ++ (r ∷ [])) ≡ some row)
unfolding first
found_last p t r holds = elim (Option-cases (first p t)) [
  | inl fresh ↦ (r, first-append p t (r ∷ []) ∙ rw (fresh, holds) refl)
  | inr (row, there) ↦ (row, first-append p t (r ∷ []) ∙ rw there refl)
]

self_owned : (r : Message) → own_row r.id r.instance_id r ≡ true
unfolding own_row has_id of_instance
self_owned r = rw (eq_refl r.id, eq_refl r.instance_id) refl

create-Owned :
    (fault : Bool) (fresh : String) (now : ℕ) (m : Message) (t : List Message)
    → Owned m.instance_id (created_or_not (create fault fresh now m t))
unfolding create Owned created_or_not
create-Owned true fresh now m t = tt
create-Owned false fresh now m t =
    elim (Option-cases (first (has_id (if m.id == "" then fresh else m.id)) t)) [
      | inl free ↦ rw (free, create) (found_last _ t _ (self_owned _))
      | inr (old, taken) ↦ rw (taken, create) tt
    ]

module _ {F : Type 0} (env : SendEnv F) (input : SendInput F)
    (direct : (input.message_id == "") ≡ true) where
  pub save_row-Owned :
      (content : Content F) (t : List Message)
      → Owned input.instance_id (save_row env input content t)
  unfolding save_row created new_message
  save_row-Owned content t =
      rw (direct, save_row)
        (create-Owned env.row_faults.creates env.fresh_id env.now
          (new_message env input env.fresh_id content) t)
