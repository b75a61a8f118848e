-- ===== src/Message/Repo.antt =====
-- internal/storage/sqlite/message_repo.go and `Message` of internal/storage/model. The payload is
-- stored inside a JSON object and read back from it; the model stores the text itself. A statement
-- may fail and then changes nothing; `created_at` and `delivered_at` are stored in whole seconds.
use mathlib.Core.List.{reverse}
use apime.Common.{
  ℕ, String, Bool, not, ◌&&◌, ◌||◌, Option, none, some, List, [], ◌∷◌, ◌++◌, ◌==◌, take, Result, ok,
  err, if◌then◌else◌,
}
use apime.Common.Time.{rfc3339}
use apime.Common.Table.{select, first, delete_where, update_where, order_by}

pub record Message : Type 0 where
  pub id : String
  pub instance_id : String
  pub whatsapp_id : String
  pub to : String
  pub type : String
  pub payload : String
  pub status : String
  pub delivered_at : Option ℕ
  pub created_at : ℕ

pub data RepoError : Type 0 where
  database no_rows : RepoError

unfoldable pub has_id : String → Message → Bool
has_id id m = m.id == id

unfoldable pub has_whatsapp_id : String → Message → Bool
has_whatsapp_id w m = m.whatsapp_id == w

unfoldable pub of_instance : String → Message → Bool
of_instance i m = m.instance_id == i

insert_row : Option Message → Message → List Message → Result RepoError Message × List Message
insert_row (some _) m t = (err database, t)
insert_row none m t =
    (ok m, t ++ (record m { created_at = rfc3339 m.created_at; delivered_at = none } ∷ []))

-- `fresh` is the UUID that a message without an id gets.
unfoldable pub create :
    Bool → String → ℕ → Message → List Message → Result RepoError Message × List Message
unfolding insert_row first has_id
create fault fresh now msg t =
    let m = record msg { id = if msg.id == "" then fresh else msg.id; created_at = now } in
    if fault then (err database, t) else insert_row (first (has_id m.id) t) m t

abbrev stored_instant : Option ℕ → Option ℕ
stored_instant none = none
stored_instant (some t) = some (rfc3339 t)

unfoldable pub set_sent : Message → Message → Message
set_sent msg r = record r {
  status = msg.status;
  whatsapp_id = msg.whatsapp_id;
  delivered_at = stored_instant msg.delivered_at;
}

-- An UPDATE of an id that is not there succeeds and changes nothing.
unfoldable pub update : Bool → Message → List Message → Result RepoError (Unit {0}) × List Message
unfolding update_where has_id set_sent
update fault msg t =
    if fault then (err database, t) else (ok tt, update_where (has_id msg.id) (set_sent msg) t)

unfoldable pub set_status : String → ℕ → Message → Message
set_status status now r = record r { status = status; delivered_at = some (rfc3339 now) }

unfoldable pub update_status_by_whatsapp_id :
    Bool → ℕ → String → String → List Message → Result RepoError (Unit {0}) × List Message
unfolding update_where has_whatsapp_id set_status
update_status_by_whatsapp_id fault now w status t =
    if fault
    then (err database, t)
    else (ok tt, update_where (has_whatsapp_id w) (set_status status now) t)

unfoldable pub one_row : Bool → Option Message → Result RepoError Message
one_row fault found =
    if fault then err database else elim found [ none ↦ err no_rows | some m ↦ ok m ]

unfoldable pub get_by_whatsapp_id : Bool → String → List Message → Result RepoError Message
unfolding one_row first has_whatsapp_id
get_by_whatsapp_id fault w t = one_row fault (first (has_whatsapp_id w) t)

-- status NOT IN ('queued', 'sending', 'failed')
unfoldable pub went_out : String → String → Message → Bool
unfolding has_whatsapp_id of_instance
went_out i w m =
    (has_whatsapp_id w m && of_instance i m)
    && not (m.status == "queued" || m.status == "sending" || m.status == "failed")

unfoldable pub get_by_whatsapp_id_for_instance :
    Bool → String → String → List Message → Result RepoError Message
unfolding one_row first went_out
get_by_whatsapp_id_for_instance fault i w t = one_row fault (first (went_out i w) t)

unfoldable pub is_queued : Message → Bool
is_queued m = m.status == "queued"

unfoldable pub get_pending_messages : Bool → ℕ → List Message → Result RepoError (List Message)
unfolding select order_by is_queued
get_pending_messages fault limit t =
    if fault
    then err database
    else ok (take limit (order_by (λ m. m.created_at) (select is_queued t)))

-- ORDER BY created_at DESC LIMIT 100
unfoldable pub list_by_instance : Bool → String → List Message → Result RepoError (List Message)
unfolding select order_by of_instance
list_by_instance fault i t =
    if fault
    then err database
    else ok (take 100 (reverse (order_by (λ m. m.created_at) (select (of_instance i) t))))

unfoldable pub delete_by_instance_id :
    Bool → String → List Message → Result RepoError (Unit {0}) × List Message
unfolding delete_where of_instance
delete_by_instance_id fault i t =
    if fault then (err database, t) else (ok tt, delete_where (of_instance i) t)
