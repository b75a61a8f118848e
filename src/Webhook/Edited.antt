-- ===== src/Webhook/Edited.antt =====
-- internal/webhook/edited_text.go: the text of an edited message.
pub mod Wrapped
use apime.Common.{ℕ, zero, suc, String, Bool, not, Option, none, some, ◌==◌, if◌then◌else◌}

-- The carriers of a text in waE2E.Message: an image and an instant image with their captions, if they
-- are there, and of the others the text, empty where the field is not set.
pub record Texts : Type 0 where
  pub conversation : String
  pub extended_text : String
  pub image_message : Option String
  pub instant_image_message : Option String
  pub video_caption : String
  pub document_caption : String

-- waE2E.Message: the fields that wrap a message, each nil or with a message, and the texts.
mutual
  pub data Inner : Type 0 where
    nil_message : Inner
    holds : WaMessage → Inner

  pub data WaMessage : Type 0 where
    message :
        (edited protocol device_sent ephemeral view_once view_once_v2 with_caption : Inner)
        → Texts
        → WaMessage

abbrev pub max_unwrap_depth : ℕ
max_unwrap_depth = 4

unfoldable pub or_else : Inner → Inner → Inner
or_else nil_message m = m
or_else (holds m) m' = holds m

-- The first wrapper that has a message, in the order of the switch.
unfoldable pub first_inner : WaMessage → Inner
unfolding or_else
first_inner
      (message edited protocol device_sent ephemeral view_once view_once_v2 with_caption texts) =
    or_else edited (
      or_else protocol (
        or_else device_sent
          (or_else ephemeral (or_else view_once (or_else view_once_v2 with_caption)))))

-- The rounds of the loop that are left.
unfoldable pub unwrap_rounds : ℕ → WaMessage → WaMessage
unwrap_rounds zero m = m
unwrap_rounds (suc n) m = elim (first_inner m) [ nil_message ↦ m | holds m' ↦ unwrap_rounds n m' ]

unfoldable pub unwrap_edited : Inner → Inner
unwrap_edited nil_message = nil_message
unwrap_edited (holds m) = holds (unwrap_rounds max_unwrap_depth m)

unfoldable pub caption_of : Option String → String
caption_of none = ""
caption_of (some caption) = caption

unfoldable pub image_of : Texts → Option String
image_of t = elim t.image_message [ some caption ↦ some caption | none ↦ t.instant_image_message ]

unfoldable pub text_of : Texts → String
unfolding caption_of image_of
text_of t =
    if not (t.conversation == "")
    then t.conversation
    else if not (t.extended_text == "")
    then t.extended_text
    else if not (caption_of (image_of t) == "")
    then caption_of (image_of t)
    else if not (t.video_caption == "")
    then t.video_caption
    else if not (t.document_caption == "")
    then t.document_caption
    else ""

abbrev pub texts_of : WaMessage → Texts
texts_of (message edited protocol device_sent ephemeral view_once view_once_v2 with_caption texts) =
    texts

unfoldable pub edited_text : Inner → String
unfolding text_of
edited_text decrypted = elim (unwrap_edited decrypted) [
  | nil_message ↦ ""
  | holds m ↦ text_of (texts_of m)
]
