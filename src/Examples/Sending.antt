-- ===== src/Examples/Sending.antt =====
-- Runs of whole sends, of the building of their content, and of the two idempotency tables.
use apime.Common.{
  ℕ, zero, suc, ◌+◌, ◌*◌, ◌≤◌, ◌≡◌, refl, Bool, true, false, not, ◌&&◌, none, some, List, [], ◌∷◌,
  ◌==◌, ok, err, arith,
}
use apime.Common.Time.{second}
use apime.Common.Text.{codes, contains}
use apime.Send.Sticker.{dimensions, inspect_sticker}
use apime.Send.Sticker.Headers.{encode, vp8x, sides_decide}
use apime.Send.Ready.{ReadyPoll, wait_ready}
use apime.Send.Ready.Ends.{any_ready, ready_ends}
use apime.Send.Resolver.{Jid, Jids}
use apime.Send.Content.{
  SendInput, Client, ContextInfo, Upload, same_jid, context_info, participant_of, has_chat_presence,
  is_nil,
}
use apime.Send.Content.Build.{
  Content, audio, uploaded, audio_context, audio_mimetype, build_audio, build_content,
}
use apime.Send.Content.Quotes.{context_of, Names, quote_kept}
use apime.Send.Content.Uploads.{IsFrugal, build_content-IsFrugal}

sides_decide_example : inspect_sticker (encode 22 10 (vp8x 2 511 499 [])) ≡ err (dimensions 512 500)
unfolding codes
sides_decide_example =
    sides_decide 22 10 (vp8x 2 511 499 []) (omega arith, omega arith) (omega arith)

-- A session that gets its prekeys in the third second.
abbrev polls : ℕ → ℕ → List ReadyPoll
polls zero at = []
polls (suc n) at =
    record { elapsed = at * second; ready = true; pre_keys = 4 * at; later = at * second + 1 }
    ∷ polls n (at + 1)

ready_ends_example :
    (is_ready : Bool) × (pokes : ℕ) × (wait_ready 20 false (polls 31 0) ≡ some (is_ready, pokes))
    × (pokes ≤ 1)
    × ((is_ready && not (any_ready 20 (polls 31 0))) ≡ false)
ready_ends_example =
    ready_ends 20 (record { elapsed = 0; ready = true; pre_keys = 0; later = 1 }) (polls 30 1)
      (omega arith) (omega arith)

abbrev jids : Jids
jids = record {
  parse = λ s. ok (record { user = s; server = "s.whatsapp.net"; device = 0 });
  text = λ j. j.user;
  to_non_ad = λ j. record j { device = 0 };
  is_empty = λ j. j.server == "";
}

abbrev own : Jid
own = record { user = "me"; server = "lid"; device = 3 }

abbrev ana : Jid
ana = record { user = "ana"; server = "s.whatsapp.net"; device = 0 }

abbrev file : Upload
file = record {
  url = "u";
  direct_path = "d";
  media_key = [];
  file_enc_sha256 = [];
  file_sha256 = [];
  file_length = 3;
  streaming_sidecar = [];
}

abbrev client : Client ℕ
client = record {
  jids = jids;
  own_jid = own;
  own_lid = own;
  group_mode = λ j. none;
  upload = λ kind bytes. ok file;
  extensions_by_type = λ t. [];
  ptt_waveform = λ n. [];
  format_float = λ f. "0";
  to_lower = λ s. s;
  now_unix = 7;
}

abbrev reply : SendInput ℕ
reply = record {
  instance_id = "one";
  to = "ana";
  type = "audio";
  text = "";
  media_data = 1 ∷ 2 ∷ 3 ∷ [];
  media_type = "audio/ogg";
  caption = "";
  file_name = "";
  seconds = 4;
  ptt = true;
  message_id = "";
  quoted = "Q1";
  participant = "";
  quoted_text = "when?";
  quoted_from_me = false;
  mentioned_jids = [];
  mark_read_message_id = "";
  mark_read_sender = "";
  display_name = "";
  vcard = "";
  contacts = [];
  latitude = 0;
  longitude = 0;
  background_argb = 0;
  text_argb = 0;
  font = "";
  location_name = "";
  address = "";
  whatsapp_id = "";
}

build_content-IsFrugal_example : IsFrugal (build_content client reply ana)
build_content-IsFrugal_example = build_content-IsFrugal client reply ana

abbrev reply_context : ContextInfo
reply_context = record {
  stanza_id = some "Q1";
  participant = some "ana";
  quoted_message = none;
  mentioned_jid = [];
  expiration = some 0;
}

abbrev zeros : List ℕ
zeros = 0 ∷ 0 ∷ 0 ∷ 0 ∷ 0 ∷ 0 ∷ 0 ∷ 0 ∷ 0 ∷ 0 ∷ 0 ∷ 0 ∷ 0 ∷ 0 ∷ 0 ∷ 0 ∷ []

abbrev reply_content : Content ℕ
reply_content = record {
  message =
      audio
        (record {
          file = file;
          mimetype = "audio/ogg; codecs=opus";
          caption = none;
          context_info = some reply_context;
        })
        true 4 [] zeros 7;
  type = "audio";
  payload = "audio:audio/ogg";
}

quote_kept_example :
    (context : ContextInfo) × (context_of reply_content.message ≡ some context)
    × Names client reply ana none context
unfolding build_content build_audio uploaded audio_context audio_mimetype contains context_info
    participant_of has_chat_presence same_jid is_nil
quote_kept_example = quote_kept client reply ana refl reply_content refl refl
