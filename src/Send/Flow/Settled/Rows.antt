-- ===== src/Send/Flow/Settled/Rows.antt =====
-- The messages being sent, after a statement on their table.
use apime.Common.{
  ℕ, String, ◌++◌, ◌≡◌, refl, Bool, true, false, not, ◌&&◌, none, some, List, [], ◌∷◌, ◌==◌,
  Bool-cases, Option-cases, inl, inr, if◌then◌else◌, arith, eq_iff,
}
use apime.Common.Table.{count_where, update_where, first, count_where-append}
use apime.Message.Repo.{Message, has_id, create, update, set_sent}
use apime.Send.Content.{SendInput}
use apime.Send.Content.Build.{Content}
use apime.Send.Flow.{SendEnv}
use apime.Send.Flow.Row.{Saved, created, created_or_not, updated_or_created, new_message, save_row}

unfoldable pub is_sending : Message → Bool
is_sending m = m.status == "sending"

-- A message of another id that is being sent.
unfoldable pub others_sending : String → Message → Bool
unfolding is_sending has_id
others_sending id m = is_sending m && not (has_id id m)

-- Only the message that was saved may be being sent.
unfoldable pub Only : Saved → Type 0
Only (none, t) = count_where is_sending t ≡ 0
Only (some m, t) = count_where (others_sending m.id) t ≡ 0

pub none_other :
    (id : String) (t : List Message)
    → count_where is_sending t ≡ 0
    → count_where (others_sending id) t ≡ 0
unfolding count_where is_sending others_sending
none_other id [] h = refl
none_other id (r ∷ t) h = ground (arith, none_other id t)

pub update-settles :
    (m : Message) (t : List Message)
    → (m.status == "sending") ≡ false
    → count_where (others_sending m.id) t ≡ 0
    → count_where is_sending (update_where (has_id m.id) (set_sent m) t) ≡ 0
unfolding count_where update_where has_id set_sent is_sending others_sending
update-settles m [] h o = refl
update-settles m (r ∷ t) h o = ground (arith, update-settles m t h)

update-Only :
    (m : Message) (t : List Message)
    → count_where is_sending t ≡ 0
    → count_where (others_sending m.id) (update_where (has_id m.id) (set_sent m) t) ≡ 0
unfolding count_where update_where has_id set_sent is_sending others_sending
update-Only m [] h = refl
update-Only m (r ∷ t) h = ground (arith, update-Only m t)

others-append :
    (row : Message) (t : List Message)
    → count_where is_sending t ≡ 0
    → count_where (others_sending row.id) (t ++ (row ∷ [])) ≡ 0
unfolding count_where others_sending has_id
others-append row t h = ground (
  arith,
  none_other row.id t h,
  count_where-append (others_sending row.id) t (row ∷ []),
  eq_iff row.id row.id,
)

create-Only :
    (fault : Bool) (fresh : String) (now : ℕ) (m : Message) (t : List Message)
    → count_where is_sending t ≡ 0
    → Only (created_or_not (create fault fresh now m t))
unfolding create Only created_or_not
create-Only true fresh now m t h = h
create-Only false fresh now m t h =
    elim (Option-cases (first (has_id (if m.id == "" then fresh else m.id)) t)) [
      | inl free ↦ rw (free, create) (others-append _ t h)
      | inr (old, taken) ↦ rw (taken, create) h
    ]

pub update-settled :
    (fault : Bool) (m : Message) (t : List Message)
    → (m.status == "sending") ≡ false
    → count_where is_sending t ≡ 0
    → count_where is_sending (update fault m t).1 ≡ 0
unfolding update
update-settled true m t h s = s
update-settled false m t h s = update-settles m t h (none_other m.id t s)

module _ {F : Type 0} (env : SendEnv F) (input : SendInput F) where
  created-Only :
      (m : Message) (t : List Message) → count_where is_sending t ≡ 0 → Only (created env input m t)
  unfolding created
  created-Only m t h = create-Only env.row_faults.creates env.fresh_id env.now m t h

  updated-Only :
      (fault : Bool) (m : Message) (t : List Message)
      → count_where is_sending t ≡ 0
      → Only (updated_or_created env input m (update fault m t))
  unfolding update updated_or_created Only
  updated-Only true m t h = created-Only m t h
  updated-Only false m t h = update-Only m t h

  pub save_row-Only :
      (content : Content F) (t : List Message)
      → count_where is_sending t ≡ 0
      → Only (save_row env input content t)
  unfolding save_row
  save_row-Only content t h = elim (Bool-cases (input.message_id == "")) [
    | inl direct ↦
        rw (direct, save_row) (created-Only (new_message env input env.fresh_id content) t h)
    | inr queued ↦
        rw (queued, save_row)
          (updated-Only env.row_faults.updates (new_message env input input.message_id content) t h)
  ]
