-- ===== src/Examples/Flows.antt =====
-- Runs of whole sends.
use apime.Common.{◌||◌, ℕ, ◌≡◌, refl, true, false, none, some, List, [], ◌∷◌, ◌==◌, ok, err, arith}
use apime.Common.Map.{Distinct}
use apime.Common.Table.{count_where}
use apime.Message.Repo.{Message, create, update}
use apime.Send.Resolver.{Jid, Jids, resolve_jid, destination}
use apime.Send.Reachout.{reachout_blocked}
use apime.Send.Reachout.Trace as Trace
use apime.Send.Attempts.{accepted, refused as answers_error, run_attempts, report}
use apime.Common.Text.{contains, trim_space, codes}
use apime.Send.Content.{SendInput, Client, wants_context, is_nil, same_jid, has_chat_presence}
use apime.Send.Flow.{
  SendEnv, admit, write_status, ready, Session, Service, refused, sent, replayed,
  contact_reachout_locked, valid_whatsapp_id,
}
use apime.Send.Flow.Row.{
  deliver, deliver_saved, save_row, created, created_or_not, new_message, finish, after_attempts,
  attempt_env, attempt_send, guard_contact,
}
use apime.Send.Flow.Whole.{send, send_once, already_sent, send_fresh, send_ready, send_to}
use apime.Send.Saver.{auto_save_contact}
use apime.Send.Flow.Contact.{prepare_contact, go_online, close_composing}
use apime.Send.Content.Build.{build_content, build_text}
use apime.Send.Flow.Settled.{none_left_sending}
use apime.Send.Flow.Settled.Rows.{is_sending}
use apime.Send.Flow.Blocked.{meanwhile, no_second_try}
use apime.Send.Flow.Replay.{repeat_replayed}

abbrev jids : Jids
jids = record {
  parse = λ s. ok (record { user = s; server = "s.whatsapp.net"; device = 0 });
  text = λ j. j.user;
  to_non_ad = λ j. record j { device = 0 };
  is_empty = λ j. j.server == "";
}

abbrev ana : Jid
ana = record { user = "ana"; server = "s.whatsapp.net"; device = 0 }

abbrev client : Client ℕ
client = record {
  jids = jids;
  own_jid = ana;
  own_lid = ana;
  group_mode = λ j. none;
  upload = λ kind bytes. err "down";
  extensions_by_type = λ t. [];
  ptt_waveform = λ n. [];
  format_float = λ f. "0";
  to_lower = λ s. s;
  now_unix = 7;
}

abbrev hello : SendInput ℕ
hello = record {
  instance_id = "one";
  to = "ana@lid";
  type = "text";
  text = "hello";
  media_data = [];
  media_type = "";
  caption = "";
  file_name = "";
  seconds = 0;
  ptt = false;
  message_id = "";
  quoted = "";
  participant = "";
  quoted_text = "";
  quoted_from_me = false;
  mentioned_jids = [];
  mark_read_message_id = "";
  mark_read_sender = "";
  display_name = "";
  vcard = "";
  contacts = [];
  latitude = 0;
  longitude = 0;
  background_argb = 0;
  text_argb = 0;
  font = "";
  location_name = "";
  address = "";
  whatsapp_id = "";
}

abbrev live : Session
live = record {
  has_manager = true;
  stored_status = some "active";
  client = some (record { logged_in = true; connected = true });
  since_connected = 90_000_000_000;
  polls = record { elapsed = 0; ready = true; pre_keys = 9; later = 0 } ∷ [];
  logged_in_later = true;
}

abbrev env : SendEnv ℕ
env = record {
  session = live;
  client = client;
  is_on_whatsapp = λ phone. ok [];
  contact_faults = record { gets = false; upserts = false };
  config = record { negative_ttl_days = 1; positive_db_ttl_days = 1; positive_ttl_hours = 1 };
  store = record {
    present = false;
    has_lids = false;
    get_pn_for_lid = λ j. none;
    get_lid_for_pn = λ j. none;
    get_contact = λ j. (true, record { full_name = ""; first_name = ""; push_name = "" });
  };
  save_disabled = true;
  save_refused = false;
  save_jitter = 0;
  normalize = λ s. s;
  now = 100;
  later = 200;
  row_faults = record { reads = false; updates = false; creates = false; finishes = false };
  fresh_id = "row1";
  generated_id = "3EB00123456789AB";
  answers = λ n. accepted "3EB00123456789AB";
  clock = λ n. n;
  reconnects = λ n d. true;
}

abbrev empty_service : Service
empty_service = record {
  messages = [];
  statuses = [];
  resolver = record { cache = []; contacts = []; has_repo = false };
  saver = record { seen = []; last = []; mutations = [] };
  blocks = [];
  tracker = record { entries = []; last_at = [] };
  presence = record { available_at = []; composing_at = [] };
  outages = [];
  signals = [];
  effects = [];
}

none_left_sending_example : count_where is_sending (send env hello empty_service).1.messages ≡ 0
unfolding count_where
none_left_sending_example = none_left_sending env hello refl empty_service refl

abbrev cold : SendEnv ℕ
cold = record env {
  answers = λ n.
      answers_error (record {
        text = "server returned error 463";
        socket_down = false;
        not_on_whatsapp = false;
      });
}

abbrev row : Message
row = record {
  id = "row1";
  instance_id = "one";
  whatsapp_id = "";
  to = "ana";
  type = "text";
  payload = "hello";
  status = "sending";
  delivered_at = none;
  created_at = 0;
}

abbrev busy : List Trace.Op
busy = Trace.checks 8 "one" "ana" ∷ Trace.releases "two" "ana" ∷ Trace.cleans 9 ∷ []

nothing_blocked : Trace.IsValid []
nothing_blocked = record { distinct = Distinct.nil; sets = tt }

no_second_try_example :
    ((guard_contact env hello ana
        (meanwhile busy (attempt_send cold hello ana row empty_service).1)).0
      ≡ refused contact_reachout_locked)
    × ((guard_contact env hello ana
          (meanwhile busy (attempt_send cold hello ana row empty_service).1)).1.effects
        ≡ (attempt_send cold hello ana row empty_service).1.effects)
    × ((guard_contact env hello ana
          (meanwhile busy (attempt_send cold hello ana row empty_service).1)).1.signals
        ≡ (attempt_send cold hello ana row empty_service).1.signals)
unfolding run_attempts attempt_env has_chat_presence contains
no_second_try_example =
    no_second_try cold env hello hello busy ana ana row empty_service nothing_blocked refl refl refl
      (omega arith, (refl, (omega arith, tt))) (omega arith) refl

abbrev again : SendInput ℕ
again = record hello { whatsapp_id = "3EB00123456789AB" }

abbrev sent_row : Message
sent_row = record {
  id = "row1";
  instance_id = "one";
  whatsapp_id = "3EB00123456789AB";
  to = "ana@lid";
  type = "text";
  payload = "hello";
  status = "sent";
  delivered_at = none;
  created_at = 100;
}

went_out : (send env hello empty_service).0 ≡ sent sent_row
unfolding send send_once already_sent send_fresh admit write_status send_ready ready send_to
    resolve_jid destination trim_space contains auto_save_contact guard_contact reachout_blocked
    has_chat_presence deliver prepare_contact go_online build_content build_text wants_context
    is_nil deliver_saved save_row created create created_or_not new_message attempt_send attempt_env
    run_attempts report finish after_attempts close_composing update same_jid
went_out = refl

repeat_replayed_example :
    (stored : Message) × (send env again (send env hello empty_service).1
      ≡ (replayed stored, (send env hello empty_service).1))
    × (stored.whatsapp_id ≡ sent_row.whatsapp_id)
    × (stored.instance_id ≡ hello.instance_id)
    × ((stored.status == "queued" || stored.status == "sending" || stored.status == "failed")
        ≡ false)
unfolding valid_whatsapp_id codes
repeat_replayed_example =
    repeat_replayed env hello refl refl env again sent_row empty_service went_out refl refl refl
      refl refl refl refl
