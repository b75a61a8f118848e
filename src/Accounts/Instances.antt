-- ===== src/Accounts/Instances.antt =====
-- internal/service/instance/service.go: the instances, their owners, and their deletion.
pub mod Lifecycle
use text.Mathlib.Text.{starts_with}
use apime.Common.{
  ℕ, String, Bool, true, false, not, ◌&&◌, ◌||◌, Option, none, some, List, [], ◌∷◌, ◌++◌, ◌==◌, eqb,
  Result, ok, err, if◌then◌else◌,
}
use apime.Common.Table.{first, count_where, delete_where, update_where}
use apime.Common.Text.{trim_space}
use apime.Common.Time.{rfc3339}
use apime.Message.Repo.{Message, of_instance}
use apime.Accounts.InstanceRepo.{
  Instance, EventLog, InstanceError, invalid_name, invalid_webhook, not_found, database,
  reload_failed, reloads, deletes, World, Faults, logged_for, get_by_id, update_instance,
  create_instance, delete_row,
}

-- The collaborators that the service was built with.
pub record Service : Type 0 where
  pub has_session : Bool
  pub has_messages : Bool
  pub has_event_logs : Bool

pub record CreateInput : Type 0 where
  pub name : String
  pub webhook_url : String
  pub webhook_secret : String
  pub owner_user_id : String

pub record UpdateInput : Type 0 where
  pub name : String
  pub webhook_url : Option String
  pub webhook_secret : Option String
  pub calls_enabled : Option Bool
  pub owner_user_id : String

unfoldable pub valid_webhook : String → Bool
valid_webhook url = url == "" || starts_with url "http"

-- `hash` is the hex SHA-256, `token` and `fresh` are two new UUIDs.
unfoldable pub create :
    (String → String)
    → Faults
    → String
    → String
    → String
    → ℕ
    → CreateInput
    → World
    → Result InstanceError Instance × World
unfolding valid_webhook create_instance
create hash f token fresh spare now input w =
    if trim_space input.name == ""
    then (err invalid_name, w)
    else if not (valid_webhook (trim_space input.webhook_url))
    then (err invalid_webhook, w)
    else create_instance f spare now
        (record {
          id = fresh;
          name = input.name;
          owner_user_id = input.owner_user_id;
          whatsapp_jid = "";
          webhook_url = trim_space input.webhook_url;
          webhook_secret = trim_space input.webhook_secret;
          token_hash = hash token;
          token_updated_at = some (rfc3339 now);
          status = "pending";
          session_blob = [];
          history_sync_status = "";
          history_sync_cycle_id = "";
          history_sync_updated_at = none;
          calls_enabled = false;
          created_at = 0;
          updated_at = 0;
        })
        w

abbrev pub or_keep {ℓ} : {A : Type ℓ} → Option A → A → A
or_keep none old = old
or_keep (some new) old = new

abbrev pub trimmed : Option String → Option String
trimmed none = none
trimmed (some s) = some (trim_space s)

abbrev pub webhook_ok : Option String → Bool
webhook_ok none = true
webhook_ok (some url) = valid_webhook (trim_space url)

unfoldable pub apply_update : UpdateInput → Instance → Result InstanceError Instance
unfolding valid_webhook
apply_update input i =
    if trim_space input.name == ""
    then err invalid_name
    else if not (webhook_ok input.webhook_url)
    then err invalid_webhook
    else ok (record i {
      webhook_url = or_keep (trimmed input.webhook_url) i.webhook_url;
      webhook_secret = or_keep (trimmed input.webhook_secret) i.webhook_secret;
      calls_enabled = or_keep input.calls_enabled i.calls_enabled;
      name = trim_space input.name;
    })

abbrev pub differs : Bool → Bool → Bool
differs true b = not b
differs false b = b

-- The instance that comes with `reload_failed` is not kept.
unfoldable pub reload :
    Service
    → Faults
    → Bool
    → Result InstanceError Instance × World
    → Result InstanceError Instance × World
reload s f were_enabled (err e, w) = (err e, w)
reload s f were_enabled (ok i, w) =
    if differs i.calls_enabled were_enabled && s.has_session
    then (if f.reload_client
        then (err reload_failed, w)
        else (ok i, record w { calls = w.calls ++ (reloads i.id ∷ []) }))
    else (ok i, w)

-- applyUpdate, and saveAndReload.
unfoldable pub apply_and_save :
    Service → Faults → ℕ → UpdateInput → Instance → World → Result InstanceError Instance × World
unfolding apply_update update_instance reload
apply_and_save s f now input i w = elim (apply_update input i) [
  | err e ↦ (err e, w)
  | ok i' ↦ reload s f i.calls_enabled (update_instance f now i' w)
]

unfoldable pub update :
    Service → Faults → ℕ → String → UpdateInput → World → Result InstanceError Instance × World
unfolding get_by_id apply_and_save
update s f now id input w = elim (get_by_id f id w) [
  | err e ↦ (err e, w)
  | ok i ↦ apply_and_save s f now input i w
]

-- The caller is `admin` or the user's id.
unfoldable pub update_by_user :
    Service → Faults → ℕ → String → UpdateInput → World → Result InstanceError Instance × World
unfolding get_by_id apply_and_save
update_by_user s f now id input w = elim (get_by_id f id w) [
  | err e ↦ (err e, w)
  | ok i ↦
      if not (input.owner_user_id == "admin") && not (i.owner_user_id == input.owner_user_id)
      then (err not_found, w)
      else apply_and_save s f now input i w
]

-- userRole != "admin" && instance.OwnerUserID != userID
unfoldable pub is_stranger : String → String → Instance → Bool
is_stranger user role i = not (role == "admin") && not (i.owner_user_id == user)

unfoldable pub get_by_user :
    Faults → String → String → String → World → Result InstanceError Instance
unfolding get_by_id is_stranger
get_by_user f id user role w = elim (get_by_id f id w) [
  | err e ↦ err e
  | ok i ↦ if is_stranger user role i then err not_found else ok i
]

unfoldable pub delete_events : Service → Faults → String → World → Option InstanceError × World
unfolding delete_row logged_for
delete_events s f id w =
    if s.has_event_logs
    then (if f.deletes_events
        then (some database, w)
        else delete_row f id (record w { events = delete_where (logged_for id) w.events }))
    else delete_row f id w

unfoldable pub delete_messages : Service → Faults → String → World → Option InstanceError × World
unfolding delete_events of_instance
delete_messages s f id w =
    if s.has_messages
    then (if f.deletes_messages
        then (some database, w)
        else delete_events s f id
            (record w { messages = delete_where (of_instance id) w.messages }))
    else delete_events s f id w

-- The body that Delete and DeleteByUser share; the error of DeleteSession is dropped.
unfoldable pub purge : Service → Faults → String → World → Option InstanceError × World
unfolding delete_messages
purge s f id w =
    delete_messages s f id
      (if s.has_session then record w { calls = w.calls ++ (deletes id ∷ []) } else w)

unfoldable pub delete : Service → Faults → String → World → Option InstanceError × World
unfolding get_by_id purge
delete s f id w = elim (get_by_id f id w) [ err e ↦ (some e, w) | ok i ↦ purge s f id w ]

unfoldable pub delete_by_user :
    Service → Faults → String → String → String → World → Option InstanceError × World
unfolding get_by_id purge is_stranger
delete_by_user s f id user role w = elim (get_by_id f id w) [
  | err e ↦ (some e, w)
  | ok i ↦ if is_stranger user role i then (some not_found, w) else purge s f id w
]

-- rotateToken; `plain` is the new UUID that it returns.
unfoldable pub rotate :
    (String → String) → Faults → String → ℕ → Instance → World → Result InstanceError String × World
unfolding update_instance
rotate hash f plain now i w =
    let i' = record i { token_hash = hash plain; token_updated_at = some (rfc3339 now) } in
    let (saved, w') = update_instance f now i' w in
    elim saved [ err e ↦ (err e, w') | ok _ ↦ (ok plain, w') ]

unfoldable pub rotate_token :
    (String → String) → Faults → String → ℕ → String → World → Result InstanceError String × World
unfolding get_by_id rotate
rotate_token hash f plain now id w = elim (get_by_id f id w) [
  | err e ↦ (err e, w)
  | ok i ↦ rotate hash f plain now i w
]

unfoldable pub rotate_token_by_user :
    (String → String)
    → Faults
    → String
    → ℕ
    → String
    → String
    → String
    → World
    → Result InstanceError String × World
unfolding get_by_id rotate is_stranger
rotate_token_by_user hash f plain now id user role w = elim (get_by_id f id w) [
  | err e ↦ (err e, w)
  | ok i ↦ if is_stranger user role i then (err not_found, w) else rotate hash f plain now i w
]
