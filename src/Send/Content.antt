-- ===== src/Send/Content.antt =====
-- What Send in internal/service/message/send.go puts into a message: SendInput, the context of a quote,
-- and the parts of the protobuf message that are set. `F` stands for float64. What the WhatsApp client
-- and Go's mime package answer is a record of functions; bytes and protobuf fields that are absent are
-- an empty list or none.
pub mod Build
pub mod Quotes
pub mod Uploads
use Prim.Native.String.{◌++◌}
use mathlib.Core.List.{map as map_list}
use apime.Common.{
  ℕ, String, Bool, true, false, not, ◌&&◌, ◌||◌, Option, none, some, List, [], ◌∷◌, ◌==◌, eqb,
  Result, ok, err, if◌then◌else◌,
}
use apime.Common.Text.{contains, trim_space}
use apime.Common.Map.{Map, get}
use apime.Send.Resolver.{Jid, Jids, default_user_server}
use apime.Send.Saver.{hidden_user_server}

pub record ContactEntry : Type 0 where
  pub display_name : String
  pub vcard : String

pub record SendInput (F : Type 0) : Type 0 where
  pub instance_id : String
  pub to : String
  pub type : String
  pub text : String
  pub media_data : List ℕ
  pub media_type : String
  pub caption : String
  pub file_name : String
  pub seconds : ℕ
  pub ptt : Bool
  pub message_id : String
  pub quoted : String
  pub participant : String
  pub quoted_text : String
  pub quoted_from_me : Bool
  pub mentioned_jids : List String
  pub mark_read_message_id : String
  pub mark_read_sender : String
  pub display_name : String
  pub vcard : String
  pub contacts : List ContactEntry
  pub latitude : F
  pub longitude : F
  pub background_argb : ℕ
  pub text_argb : ℕ
  pub font : String
  pub location_name : String
  pub address : String
  pub whatsapp_id : String

-- whatsmeow.MediaType and UploadResponse
pub data MediaKind : Type 0 where
  media_image media_video media_audio media_document : MediaKind

pub record Upload : Type 0 where
  pub url : String
  pub direct_path : String
  pub media_key : List ℕ
  pub file_enc_sha256 : List ℕ
  pub file_sha256 : List ℕ
  pub file_length : ℕ
  pub streaming_sidecar : List ℕ

-- `group_mode`: whether the group is addressed by LID; none where GetGroupInfo fails.
pub record Client (F : Type 0) : Type 0 where
  pub jids : Jids
  pub own_jid : Jid
  pub own_lid : Jid
  pub group_mode : Jid → Option Bool
  pub upload : MediaKind → List ℕ → Result String Upload
  pub extensions_by_type : String → List String
  pub ptt_waveform : ℕ → List ℕ
  pub format_float : F → String
  pub to_lower : String → String
  pub now_unix : ℕ

-- `quoted_message` is the Conversation of the quoted message.
pub record ContextInfo : Type 0 where
  pub stanza_id : Option String
  pub participant : Option String
  pub quoted_message : Option String
  pub mentioned_jid : List String
  pub expiration : Option ℕ

abbrev pub group_server : String
group_server = "g.us"

-- types.StatusBroadcastJID
abbrev pub status_broadcast : Jid
status_broadcast = record { user = "status"; server = "broadcast"; device = 0 }

unfoldable pub same_jid : Jid → Jid → Bool
same_jid a b = a.user == b.user && a.server == b.server && eqb a.device b.device

unfoldable pub has_chat_presence : Jid → Bool
has_chat_presence to = to.server == default_user_server || to.server == hidden_user_server

-- What a build asks of the client, in order.
pub data Ask : Type 0 where
  queries_group : Jid → Ask
  uploads : MediaKind → List ℕ → Ask

module _ {F : Type 0} (client : Client F) where
  -- The JID of the own messages in the chat, and what is asked for it.
  unfoldable pub own_jid_for_chat : Jid → List Ask × Jid
  own_jid_for_chat to =
      if client.jids.is_empty client.own_lid
      then ([], client.own_jid)
      else if to.server == group_server
      then (
        queries_group to ∷ [],
        elim (client.group_mode to) [
          | none ↦ client.own_jid
          | some by_lid ↦ if by_lid then client.own_lid else client.own_jid
        ],
      )
      else ([], client.own_lid)

  unfoldable pub with_server : String → String
  with_server jid = if not (contains jid "@") then jid ++ "@s.whatsapp.net" else jid

  unfoldable pub given_participant : String → String
  unfolding with_server
  given_participant participant = elim (client.jids.parse (with_server participant)) [
    | ok jid ↦ client.jids.text (client.jids.to_non_ad jid)
    | err message ↦ with_server participant
  ]

  unfoldable pub participant_of : SendInput F → Jid → Option String
  unfolding own_jid_for_chat given_participant has_chat_presence
  participant_of input to =
      if input.quoted_from_me
      then some (client.jids.text (client.jids.to_non_ad (own_jid_for_chat to).1))
      else if not (input.participant == "")
      then some (given_participant input.participant)
      else if has_chat_presence to
      then some (client.jids.text (client.jids.to_non_ad to))
      else none

  -- buildContextInfo, with the arguments that every branch gives it.
  unfoldable pub context_info : SendInput F → Jid → ContextInfo
  unfolding participant_of with_server
  context_info input to = record {
    stanza_id = if not (input.quoted == "") then some input.quoted else none;
    participant = if not (input.quoted == "") then participant_of input to else none;
    quoted_message =
        if not (input.quoted == "") && not (input.quoted_text == "")
        then some input.quoted_text
        else none;
    mentioned_jid = map_list with_server input.mentioned_jids;
    expiration = none;
  }

  unfoldable pub context_asks : SendInput F → Jid → List Ask
  unfolding own_jid_for_chat
  context_asks input to =
      if not (input.quoted == "") && input.quoted_from_me then (own_jid_for_chat to).0 else []

unfoldable pub is_nil {ℓ} : {A : Type ℓ} → List A → Bool
is_nil [] = true
is_nil (_ ∷ _) = false

unfoldable pub wants_context : {F : Type 0} → SendInput F → Bool
unfolding is_nil
wants_context input = not (input.quoted == "") || not (is_nil input.mentioned_jids)

pub data Font : Type 0 where
  system system_text system_bold fb_script morningbreeze_regular calistoga_regular : Font
  exo2_extrabold courierprime_bold : Font

unfoldable pub status_fonts : Map Font
status_fonts =
    ("system", system)
    ∷ ("system_text", system_text)
    ∷ ("system_bold", system_bold)
    ∷ ("fb_script", fb_script)
    ∷ ("morningbreeze_regular", morningbreeze_regular)
    ∷ ("calistoga_regular", calistoga_regular)
    ∷ ("exo2_extrabold", exo2_extrabold)
    ∷ ("courierprime_bold", courierprime_bold)
    ∷ []

unfoldable pub status_font : (String → String) → String → Font
unfolding status_fonts get
status_font to_lower name = elim (get (to_lower (trim_space name)) status_fonts) [
  | none ↦ system
  | some font ↦ font
]
