-- ===== src/Examples/Accounts.antt =====
-- Runs of the accounts.
use Prim.Native.String.{len}
use apime.Common.{ℕ, String, ◌≡◌, refl, true, false, Option, none, some, List, [], ◌∷◌, arith}
use apime.Common.Table.{first, count_where}
use apime.Message.Repo.{Message, of_instance}
use apime.Message.Outbox.{queued_message}
use apime.Accounts.InstanceRepo.{Instance, EventLog, World, Faults, has_instance_id, logged_for}
use apime.Accounts.Instances.{Service, delete}
use apime.Accounts.Instances.Lifecycle.{delete_leaves_nothing}
use apime.Accounts.Users.{User, UserFaults, is_admin}
use apime.Accounts.Users.Admins as Admins

abbrev instance_one : Instance
instance_one = record {
  id = "one";
  name = "n";
  owner_user_id = "ana";
  whatsapp_jid = "";
  webhook_url = "http://a";
  webhook_secret = "s";
  token_hash = "h";
  token_updated_at = none;
  status = "pending";
  session_blob = [];
  history_sync_status = "pending";
  history_sync_cycle_id = "";
  history_sync_updated_at = none;
  calls_enabled = false;
  created_at = 1;
  updated_at = 1;
}

abbrev world : World
world = record { instances = instance_one ∷ []; messages = []; events = []; calls = [] }

abbrev healthy : Faults
healthy = record {
  gets = false;
  inserts = false;
  updates = false;
  deletes_messages = false;
  deletes_events = false;
  deletes_instances = false;
  reload_client = false;
}

abbrev service : Service
service = record { has_session = true; has_messages = true; has_event_logs = true }

abbrev message_to : String → Message
message_to id =
    queued_message "m" (record { instance_id = id; to = "chat"; type = "text"; payload = "hi" })

abbrev log_of : String → EventLog
log_of id = record { instance_id = id; kind = "connected"; payload = "" }

abbrev busy_world : World
busy_world = record world {
  messages = message_to "one" ∷ message_to "two" ∷ [];
  events = log_of "two" ∷ log_of "one" ∷ [];
}

delete_leaves_nothing_example :
    (first (has_instance_id "one") (delete service healthy "one" busy_world).1.instances ≡ none)
    × (count_where (of_instance "one") (delete service healthy "one" busy_world).1.messages ≡ 0)
    × (count_where (logged_for "one") (delete service healthy "one" busy_world).1.events ≡ 0)
unfolding delete first count_where
delete_leaves_nothing_example = delete_leaves_nothing service healthy "one" busy_world refl

abbrev admin : User
admin = record { id = "ana"; email = "ana@a"; password_hash = "h"; role = "admin"; created_at = 1 }

abbrev no_faults : UserFaults
no_faults = record {
  gets = false;
  lists = false;
  inserts = false;
  updates = false;
  reads_role = false;
  counts = false;
  deletes = false;
}

abbrev requests : List Admins.Op
requests =
    Admins.creates no_faults "eva" 3
      (record { email = "eva@a"; password = "12345678"; role = "user" })
    ∷ Admins.changes_password no_faults "eva" "87654321"
    ∷ Admins.removes service healthy false no_faults "ana" world
    ∷ []

admin-IsValid : Admins.IsValid (admin ∷ [])
unfolding count_where is_admin
admin-IsValid = (omega arith, λ j. ground arith)

abbrev bytes : String → ℕ
bytes s = len s

abbrev hashed : String → Option String
hashed s = some "hash"

abbrev same : String → String
same s = s

admin_stays_example : Admins.IsValid (Admins.steps same bytes hashed requests (admin ∷ []))
admin_stays_example = Admins.admin_stays same bytes hashed requests (admin ∷ []) admin-IsValid
