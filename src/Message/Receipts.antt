-- ===== src/Message/Receipts.antt =====
-- The status that receipts give a message: the receipt branch of `Handle` in
-- internal/webhook/event_handler.go, and `shouldUpdateStatus` and `HandleReceipt` of
-- internal/session/whatsmeow/receipt_handler.go, which no code constructs.
use apime.Common.{
  ℕ, String, ◌≡◌, Bool, true, false, ◌||◌, Option, none, some, List, [], ◌∷◌, ◌==◌, arith, ltb,
  if◌then◌else◌, ◌&&◌, not,
}
use apime.Message.Repo.{Message, update_status_by_whatsapp_id}

-- The loop over the ids of one receipt; a refused UPDATE is logged.
unfoldable pub update_statuses :
    (String → Bool) → ℕ → List String → String → List Message → List Message
unfolding update_status_by_whatsapp_id
update_statuses fault now [] status t = t
update_statuses fault now (w ∷ ws) status t =
    update_statuses fault now ws status (update_status_by_whatsapp_id (fault w) now w status t).1

-- types.ReceiptType as far as HandleReceipt tells them apart.
pub data ReceiptType : Type 0 where
  delivered read played retry other : ReceiptType

unfoldable pub receipt_status : ReceiptType → Option String
receipt_status delivered = some "delivered"
receipt_status read = some "read"
receipt_status played = some "played"
receipt_status retry = some "retry"
receipt_status other = none

unfoldable pub handle_receipt :
    (String → Bool) → ℕ → ReceiptType → List String → List Message → List Message
unfolding receipt_status update_statuses
handle_receipt fault now kind ws t = elim (receipt_status kind) [
  | none ↦ t
  | some status ↦ update_statuses fault now ws status t
]

-- statusPriority; `some none` stands for -1.
unfoldable pub status_priority : String → Option (Option ℕ)
status_priority s =
    if s == "pending"
    then some (some 0)
    else if s == "queued"
    then some (some 1)
    else if s == "sent"
    then some (some 2)
    else if s == "retry"
    then some (some 2)
    else if s == "delivered"
    then some (some 3)
    else if s == "read"
    then some (some 4)
    else if s == "played"
    then some (some 4)
    else if s == "failed"
    then some none
    else none

abbrev above : Option (Option ℕ) → Option (Option ℕ) → Bool
above (some (some current)) (some (some new)) = ltb current new
above _ _ = false

unfoldable pub should_update_status : String → String → Bool
unfolding status_priority
should_update_status current new = above (status_priority current) (status_priority new)

above_trans : (a b c : Option (Option ℕ)) → above a b ≡ true → above b c ≡ true → above a c ≡ true
above_trans (some (some a)) (some (some b)) (some (some c)) h k = ground arith
above_trans _ _ _ h k = ground arith

above_asym : (a b : Option (Option ℕ)) → above a b ≡ true → above b a ≡ false
above_asym (some (some a)) (some (some b)) h = ground arith
above_asym _ _ h = ground arith

-- The rule orders the statuses strictly: if it lets one replace another and that a third, it lets
-- the third replace the first, and no status on the way comes back.
pub should_update_status_order :
    (a b c : String)
    → should_update_status a b ≡ true
    → should_update_status b c ≡ true
    → (should_update_status a c ≡ true)
      × (should_update_status c a ≡ false)
      × (should_update_status b a ≡ false)
unfolding should_update_status
should_update_status_order a b c up up' =
    let above_c = above_trans (status_priority a) (status_priority b) (status_priority c) up up' in
    (
      above_c,
      above_asym (status_priority a) (status_priority c) above_c,
      above_asym (status_priority a) (status_priority b) up,
    )

-- A receipt as Handle meets it: its ids, its status, and when it arrives; whether the instance has a
-- webhook then, or nobody checks it; and for which ids the database refuses the UPDATE.
pub record Receipt : Type 0 where
  pub ids : List String
  pub status : String
  pub at : ℕ
  pub has_webhook : Bool
  pub refused : String → Bool

unfoldable pub names : String → List String → Bool
names w [] = false
names w (x ∷ xs) = let rest = names w xs in x == w || rest

-- The receipt branch of Handle, after its early return.
unfoldable pub handle : Receipt → List Message → List Message
unfolding update_statuses
handle r t = if not r.has_webhook then t else update_statuses r.refused r.at r.ids r.status t

unfoldable pub handle_all : List Receipt → List Message → List Message
unfolding handle
handle_all [] t = t
handle_all (r ∷ rs) t = handle_all rs (handle r t)

-- The receipt names the id, while the instance has a webhook, and its UPDATE is run.
unfoldable pub counts : String → Receipt → Bool
unfolding names
counts w r = r.has_webhook && names w r.ids && not (r.refused w)

-- The status of the last receipt that counts for the id, or the one before.
unfoldable pub last_status : String → List Receipt → String → String
unfolding counts
last_status w [] status = status
last_status w (r ∷ rs) status = last_status w rs (if counts w r then r.status else status)
