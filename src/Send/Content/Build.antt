-- ===== src/Send/Content/Build.antt =====
-- The branches of Send in internal/service/message/send.go by the type of the message, and
-- buildStatusText of internal/service/message/status.go.
use Prim.Native.String.{◌++◌}
use apime.Common.{
  ℕ, ◌%◌, ◌^◌, String, Bool, true, not, ◌&&◌, ◌||◌, Option, none, some, List, [], ◌∷◌, ◌==◌, eqb,
  Result, ok, err, if◌then◌else◌,
}
use apime.Common.Text.{contains}
use apime.Send.Resolver.{Jid}
use apime.Send.Sticker.{StickerInfo, StickerError, inspect_sticker, sticker_mime_type}
use apime.Send.Content.{
  ContactEntry, SendInput, MediaKind, media_image, media_video, media_audio, media_document, Upload,
  Client, ContextInfo, status_broadcast, same_jid, Ask, uploads, context_info, context_asks, is_nil,
  wants_context, Font, status_font,
}

-- The fields that every uploaded file has.
pub record Attachment : Type 0 where
  pub file : Upload
  pub mimetype : String
  pub caption : Option String
  pub context_info : Option ContextInfo

-- waE2E.Message, as far as Send sets it.
pub data WaMessage (F : Type 0) : Type 0 where
  conversation : String → WaMessage F
  extended_text : String → Option ContextInfo → WaMessage F
  status_text : String → ℕ → ℕ → Font → WaMessage F
  image : Attachment → WaMessage F
  video : Attachment → Bool → WaMessage F
  audio : Attachment → Bool → ℕ → List ℕ → List ℕ → ℕ → WaMessage F
  sticker : Attachment → StickerInfo → ℕ → WaMessage F
  document : Attachment → String → WaMessage F
  contacts_array : String → List ContactEntry → Option ContextInfo → WaMessage F
  contact : ContactEntry → Option ContextInfo → WaMessage F
  location : F → F → Option String → Option String → Option ContextInfo → WaMessage F

-- waMessage, messageType and payload.
pub record Content (F : Type 0) : Type 0 where
  pub message : WaMessage F
  pub type : String
  pub payload : String

pub data ContentError : Type 0 where
  invalid_payload missing_vcard : ContentError
  bad_sticker : StickerError → ContentError
  upload_failed unsupported : String → ContentError

-- What was asked of the client, and the outcome.
abbrev pub Built : Type 0 → Type 0
Built F = List Ask × Result ContentError (Content F)

unfoldable pub some_text : String → Option String
some_text s = if not (s == "") then some s else none

unfoldable pub all_have_vcard : List ContactEntry → Bool
all_have_vcard [] = true
all_have_vcard (c ∷ cs) = not (c.vcard == "") && all_have_vcard cs

unfoldable pub default_argb : ℕ → ℕ → ℕ
default_argb default given = if eqb given 0 then default else given

module _ {F : Type 0} (client : Client F) (input : SendInput F) (to : Jid) where
  -- The context of the branches that set it only where there is something to say.
  unfoldable pub optional_context : Option ContextInfo
  unfolding wants_context context_info
  optional_context = if wants_context input then some (context_info client input to) else none

  unfoldable pub optional_asks : List Ask
  unfolding wants_context context_asks
  optional_asks = if wants_context input then context_asks client input to else []

  unfoldable pub build_status_text : WaMessage F
  unfolding default_argb status_font
  build_status_text =
      status_text input.text (default_argb 0xFF25D366 input.background_argb)
        (default_argb 0xFFFFFFFF input.text_argb) (status_font client.to_lower input.font)

  unfoldable pub build_text : Built F
  unfolding same_jid build_status_text
  build_text =
      if input.text == ""
      then ([], err invalid_payload)
      else if same_jid to status_broadcast
      then ([], ok (record { message = build_status_text; type = "text"; payload = input.text }))
      else if wants_context input
      then (
        optional_asks,
        ok (record {
          message = extended_text input.text optional_context;
          type = "text";
          payload = input.text;
        }),
      )
      else (
        [],
        ok (record { message = conversation input.text; type = "text"; payload = input.text }),
      )

  unfoldable pub attach : Upload → String → Option String → Attachment
  unfolding optional_context
  attach file mimetype caption = record {
    file = file;
    mimetype = mimetype;
    caption = caption;
    context_info = optional_context;
  }

  -- The upload, and what is made of its answer.
  unfoldable pub uploaded : MediaKind → (Upload → Content F) → Built F
  unfolding optional_asks
  uploaded kind make = elim (client.upload kind input.media_data) [
    | err message ↦ (uploads kind input.media_data ∷ [], err (upload_failed message))
    | ok file ↦ (uploads kind input.media_data ∷ optional_asks, ok (make file))
  ]

  unfoldable pub build_visual : Built F
  unfolding uploaded attach some_text is_nil
  build_visual =
      if is_nil input.media_data
      then ([], err invalid_payload)
      else if input.type == "image"
      then uploaded media_image (λ file. record {
        message = image (attach file input.media_type (some_text input.caption));
        type = input.type;
        payload = "media:" ++ input.media_type;
      })
      else uploaded media_video (λ file. record {
        message =
            video (attach file input.media_type (some_text input.caption)) (input.type == "gif");
        type = input.type;
        payload = "media:" ++ input.media_type;
      })

  -- The context of an audio always stands, and takes three fields of that of a quote.
  unfoldable pub audio_context : ContextInfo
  unfolding wants_context context_info
  audio_context =
      if wants_context input
      then record {
        stanza_id = (context_info client input to).stanza_id;
        participant = (context_info client input to).participant;
        quoted_message = none;
        mentioned_jid = (context_info client input to).mentioned_jid;
        expiration = some 0;
      }
      else record {
        stanza_id = none;
        participant = none;
        quoted_message = none;
        mentioned_jid = [];
        expiration = some 0;
      }

  unfoldable pub audio_mimetype : String
  audio_mimetype =
      if input.ptt && contains input.media_type "audio/ogg"
      then "audio/ogg; codecs=opus"
      else input.media_type

  abbrev zeros : List ℕ
  zeros = 0 ∷ 0 ∷ 0 ∷ 0 ∷ 0 ∷ 0 ∷ 0 ∷ 0 ∷ 0 ∷ 0 ∷ 0 ∷ 0 ∷ 0 ∷ 0 ∷ 0 ∷ 0 ∷ []

  unfoldable pub build_audio : Built F
  unfolding uploaded audio_context audio_mimetype is_nil
  build_audio =
      if is_nil input.media_data
      then ([], err invalid_payload)
      else uploaded media_audio (λ file. record {
        message =
            audio
              (record {
                file = file;
                mimetype = audio_mimetype;
                caption = none;
                context_info = some audio_context;
              })
              input.ptt (input.seconds % 2 ^ 32)
              (if input.ptt then client.ptt_waveform input.seconds else [])
              (if input.ptt then zeros else []) client.now_unix;
        type = "audio";
        payload = "audio:" ++ input.media_type;
      })

  unfoldable pub build_sticker : Built F
  unfolding uploaded attach inspect_sticker is_nil
  build_sticker =
      if is_nil input.media_data
      then ([], err invalid_payload)
      else elim (inspect_sticker input.media_data) [
        | err e ↦ ([], err (bad_sticker e))
        | ok info ↦ uploaded media_image (λ file. record {
          message = sticker (attach file sticker_mime_type none) info client.now_unix;
          type = "sticker";
          payload = "sticker:" ++ sticker_mime_type;
        })
      ]

  unfoldable pub file_name_of : List String → String
  file_name_of [] = "document"
  file_name_of (ext ∷ _) = "document" ++ ext

  unfoldable pub document_name : String
  unfolding file_name_of
  document_name =
      if input.file_name == ""
      then file_name_of (client.extensions_by_type input.media_type)
      else input.file_name

  unfoldable pub build_document : Built F
  unfolding uploaded attach document_name some_text is_nil
  build_document =
      if is_nil input.media_data
      then ([], err invalid_payload)
      else uploaded media_document (λ file. record {
        message = document (attach file input.media_type (some_text input.caption)) document_name;
        type = "document";
        payload = "document:" ++ document_name ++ ":" ++ input.media_type;
      })

  unfoldable pub contact_message : List ContactEntry → WaMessage F
  unfolding optional_context
  contact_message [] =
      contact (record { display_name = input.display_name; vcard = input.vcard }) optional_context
  contact_message (c ∷ []) = contact c optional_context
  contact_message (c ∷ d ∷ cs) = contacts_array input.display_name (c ∷ d ∷ cs) optional_context

  unfoldable pub build_contact : Built F
  unfolding contact_message optional_asks all_have_vcard is_nil
  build_contact =
      if input.vcard == "" && is_nil input.contacts
      then ([], err invalid_payload)
      else if not (all_have_vcard input.contacts)
      then ([], err missing_vcard)
      else (
        optional_asks,
        ok (record {
          message = contact_message input.contacts;
          type = "contact";
          payload = "contact:" ++ input.display_name;
        }),
      )

  unfoldable pub build_location : Built F
  unfolding optional_context optional_asks some_text
  build_location = (
    optional_asks,
    ok (record {
      message =
          location input.latitude input.longitude (some_text input.location_name)
            (some_text input.address) optional_context;
      type = "location";
      payload =
          "location:"
          ++ client.format_float input.latitude
          ++ ","
          ++ client.format_float input.longitude;
    }),
  )

  -- The switch over the type.
  unfoldable pub build_content : Built F
  build_content =
      if input.type == "text"
      then build_text
      else if input.type == "image" || input.type == "video" || input.type == "gif"
      then build_visual
      else if input.type == "audio"
      then build_audio
      else if input.type == "sticker"
      then build_sticker
      else if input.type == "document"
      then build_document
      else if input.type == "contact"
      then build_contact
      else if input.type == "location"
      then build_location
      else ([], err (unsupported input.type))
