-- ===== src/Webhook/Edited/Wrapped.antt =====
-- Wrapped messages, for internal/webhook/edited_text.go.
use apime.Common.{
  ℕ, zero, suc, ◌≡◌, refl, true, false, none, List, [], ◌∷◌, length, leb, if◌then◌else◌, arith,
}
use apime.Webhook.Edited.{
  Texts, nil_message, holds, WaMessage, message, first_inner, unwrap_rounds, unwrap_edited, text_of,
  texts_of, edited_text,
}

pub data Wrapper : Type 0 where
  edited protocol device_sent ephemeral view_once view_once_v2 with_caption : Wrapper

abbrev pub no_texts : Texts
no_texts = record {
  conversation = "";
  extended_text = "";
  image_message = none;
  instant_image_message = none;
  video_caption = "";
  document_caption = "";
}

-- A message that has only this wrapper.
unfoldable pub wrap : Wrapper → WaMessage → WaMessage
wrap edited m =
    message (holds m) nil_message nil_message nil_message nil_message nil_message nil_message
      no_texts
wrap protocol m =
    message nil_message (holds m) nil_message nil_message nil_message nil_message nil_message
      no_texts
wrap device_sent m =
    message nil_message nil_message (holds m) nil_message nil_message nil_message nil_message
      no_texts
wrap ephemeral m =
    message nil_message nil_message nil_message (holds m) nil_message nil_message nil_message
      no_texts
wrap view_once m =
    message nil_message nil_message nil_message nil_message (holds m) nil_message nil_message
      no_texts
wrap view_once_v2 m =
    message nil_message nil_message nil_message nil_message nil_message (holds m) nil_message
      no_texts
wrap with_caption m =
    message nil_message nil_message nil_message nil_message nil_message nil_message (holds m)
      no_texts

-- The first wrapper is the outermost.
unfoldable pub wrap_all : List Wrapper → WaMessage → WaMessage
wrap_all [] m = m
wrap_all (w ∷ ws) m = wrap w (wrap_all ws m)

first_inner-wrap : (w : Wrapper) (m : WaMessage) → first_inner (wrap w m) ≡ holds m
unfolding first_inner wrap
first_inner-wrap edited m = refl
first_inner-wrap protocol m = refl
first_inner-wrap device_sent m = refl
first_inner-wrap ephemeral m = refl
first_inner-wrap view_once m = refl
first_inner-wrap view_once_v2 m = refl
first_inner-wrap with_caption m = refl

texts_of-wrap : (w : Wrapper) (m : WaMessage) → texts_of (wrap w m) ≡ no_texts
unfolding wrap
texts_of-wrap edited m = refl
texts_of-wrap protocol m = refl
texts_of-wrap device_sent m = refl
texts_of-wrap ephemeral m = refl
texts_of-wrap view_once m = refl
texts_of-wrap view_once_v2 m = refl
texts_of-wrap with_caption m = refl

leb-zero : (n : ℕ) → leb zero n ≡ true
leb-zero n = ground arith

leb-over : (n : ℕ) → leb (suc n) zero ≡ false
leb-over n = ground arith

leb-suc : (m n : ℕ) → leb (suc m) (suc n) ≡ leb m n
leb-suc m n = ground arith

text_of-none : text_of no_texts ≡ ""
unfolding text_of
text_of-none = refl

-- The text after n rounds.
text_after :
    (n : ℕ) (ws : List Wrapper) (m : WaMessage)
    → first_inner m ≡ nil_message
    → text_of (texts_of (unwrap_rounds n (wrap_all ws m)))
      ≡ (if leb (length ws) n then text_of (texts_of m) else "")
unfolding wrap_all unwrap_rounds
text_after zero [] m bare = refl
text_after (suc n) [] m bare = rw (bare, unwrap_rounds, leb-zero (suc n)) refl
text_after zero (w ∷ ws) m bare =
    rw (texts_of-wrap w (wrap_all ws m), leb-over (length ws)) text_of-none
text_after (suc n) (w ∷ ws) m bare =
    rw (first_inner-wrap w (wrap_all ws m), unwrap_rounds, leb-suc (length ws) n)
      (text_after n ws m bare)

-- A message that wraps no other, under any wrappers in any order: up to four of them its text, or
-- caption, is read as the edit's, and under more than four none is.
pub edited_text-wrap :
    (ws : List Wrapper) (m : WaMessage)
    → first_inner m ≡ nil_message
    → edited_text (holds (wrap_all ws m)) ≡ (if leb (length ws) 4 then text_of (texts_of m) else "")
unfolding edited_text unwrap_edited
edited_text-wrap ws m bare = text_after 4 ws m bare
