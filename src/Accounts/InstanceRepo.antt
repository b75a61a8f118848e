-- ===== src/Accounts/InstanceRepo.antt =====
-- internal/storage/sqlite/instance_repo.go and `Instance` of internal/storage/model. Times are kept as
-- RFC3339 writes them, in seconds.
use apime.Common.{
  ℕ, String, Bool, not, ◌||◌, Option, none, some, List, [], ◌∷◌, ◌++◌, ◌==◌, eqb, Result, ok, err,
  if◌then◌else◌,
}
use apime.Common.Table.{first, count_where, delete_where, update_where}
use apime.Common.Time.{rfc3339}
use apime.Message.Repo.{Message, of_instance}

pub record Instance : Type 0 where
  pub id : String
  pub name : String
  pub owner_user_id : String
  pub whatsapp_jid : String
  pub webhook_url : String
  pub webhook_secret : String
  pub token_hash : String
  pub token_updated_at : Option ℕ
  pub status : String
  pub session_blob : List ℕ
  pub history_sync_status : String
  pub history_sync_cycle_id : String
  pub history_sync_updated_at : Option ℕ
  pub calls_enabled : Bool
  pub created_at : ℕ
  pub updated_at : ℕ

pub record EventLog : Type 0 where
  pub instance_id : String
  pub kind : String
  pub payload : String

pub data InstanceError : Type 0 where
  invalid_name invalid_webhook not_found database reload_failed : InstanceError

-- The calls of the session manager that succeed or whose error is dropped.
pub data SessionCall : Type 0 where
  reloads deletes : String → SessionCall

pub record World : Type 0 where
  pub instances : List Instance
  pub messages : List Message
  pub events : List EventLog
  pub calls : List SessionCall

-- Which statements the database refuses, and whether ReloadClient fails.
pub record Faults : Type 0 where
  pub gets : Bool
  pub inserts : Bool
  pub updates : Bool
  pub deletes_messages : Bool
  pub deletes_events : Bool
  pub deletes_instances : Bool
  pub reload_client : Bool

unfoldable pub has_instance_id : String → Instance → Bool
has_instance_id id i = i.id == id

unfoldable pub logged_for : String → EventLog → Bool
logged_for id e = e.instance_id == id

-- A NULL owner is the empty text here, since an INSERT or UPDATE of an empty owner refers to no user and
-- is refused; the scan of a NULL into the owner's string fails.
unfoldable pub scan_instance : Instance → Result InstanceError Instance
scan_instance i = if i.owner_user_id == "" then err database else ok i

unfoldable pub get_by_id : Faults → String → World → Result InstanceError Instance
unfolding has_instance_id scan_instance
get_by_id f id w = if f.gets then err database else elim (first (has_instance_id id) w.instances) [
  | none ↦ err not_found
  | some i ↦ scan_instance i
]

-- The UPDATE sets every column but the id and the time of creation.
unfoldable pub update_row : ℕ → Instance → Instance → Instance
update_row now i row = record i {
  id = row.id;
  created_at = row.created_at;
  updated_at = rfc3339 now;
}

unfoldable pub update_instance :
    Faults → ℕ → Instance → World → Result InstanceError Instance × World
unfolding update_row has_instance_id
update_instance f now i w =
    if f.updates
    then (err database, w)
    else if eqb (count_where (has_instance_id i.id) w.instances) 0
    then (err not_found, w)
    else (
      ok (record i { updated_at = rfc3339 now }),
      record w { instances = update_where (has_instance_id i.id) (update_row now i) w.instances },
    )

-- A duplicate id is what the PRIMARY KEY refuses.
unfoldable pub create_instance :
    Faults → String → ℕ → Instance → World → Result InstanceError Instance × World
unfolding has_instance_id
create_instance f spare now i w =
    let row = record i {
      id = if i.id == "" then spare else i.id;
      created_at = rfc3339 now;
      updated_at = rfc3339 now;
      history_sync_status =
          if i.history_sync_status == "" then "pending" else i.history_sync_status;
    } in
    if f.inserts || not (eqb (count_where (has_instance_id row.id) w.instances) 0)
    then (err database, w)
    else (ok row, record w { instances = w.instances ++ (row ∷ []) })

-- The foreign keys of message_queue and event_logs are declared ON DELETE CASCADE.
unfoldable pub delete_row : Faults → String → World → Option InstanceError × World
unfolding has_instance_id logged_for of_instance
delete_row f id w =
    if f.deletes_instances
    then (some database, w)
    else if eqb (count_where (has_instance_id id) w.instances) 0
    then (some not_found, w)
    else (
      none,
      record w {
        instances = delete_where (has_instance_id id) w.instances;
        messages = delete_where (of_instance id) w.messages;
        events = delete_where (logged_for id) w.events;
      },
    )
