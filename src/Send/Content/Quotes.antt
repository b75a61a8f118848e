-- ===== src/Send/Content/Quotes.antt =====
-- What of a quote reaches the message, whatever its type.
use mathlib.Core.Path.{subst}
use apime.Common.{
  String, ◌≡◌, refl, sym, eq_iff, ◌∙◌, Bool, true, false, not, ◌&&◌, ◌||◌, Option, none, some, List,
  [], ◌∷◌, ◌==◌, ok, err, Result-cases, Bool-cases, inl, inr, if◌then◌else◌, arith,
}
use apime.Send.Resolver.{Jid}
use apime.Send.Sticker.{inspect_sticker}
use apime.Send.Content.{
  SendInput, MediaKind, Upload, Client, ContextInfo, ContactEntry, status_broadcast, same_jid,
  context_info, participant_of, wants_context, is_nil,
}
use apime.Send.Content.Build.{
  WaMessage, conversation, extended_text, status_text, image, video, audio, sticker, document,
  contacts_array, contact, location, Content, ContentError, Built, optional_context, uploaded,
  audio_context, contact_message, build_text, build_visual, build_audio, build_sticker,
  build_document, build_contact, build_location, build_content, attach, all_have_vcard,
}

abbrev pub context_of : {F : Type 0} → WaMessage F → Option ContextInfo
context_of (conversation text) = none
context_of (extended_text text context) = context
context_of (status_text text background colour font) = none
context_of (image a) = a.context_info
context_of (video a gif) = a.context_info
context_of (audio a ptt seconds waveform sidecar at) = a.context_info
context_of (sticker a info at) = a.context_info
context_of (document a name) = a.context_info
context_of (contacts_array name contacts context) = context
context_of (contact c context) = context
context_of (location lat long name address context) = context

module _ {F : Type 0} (client : Client F) (input : SendInput F) (to : Jid) where
  -- The context names the quoted message and its author, and holds this text of it.
  pub record Names (text : Option String) (context : ContextInfo) : Type 0 where
    pub quoted : context.stanza_id ≡ some input.quoted
    pub author : context.participant ≡ participant_of client input to
    pub quoted_text : context.quoted_message ≡ text

  Quotes : Option String → Content F → Type 0
  Quotes text c =
      (context : ContextInfo) × (context_of c.message ≡ some context) × Names text context

  Kept : Option String → Built F → Type 0
  Kept text (asks, err e) = Unit {0}
  Kept text (asks, ok c) = Quotes text c

  abbrev whole : Option String
  whole = if not (input.quoted_text == "") then some input.quoted_text else none

  module _ (quotes : (input.quoted == "") ≡ false) where
    Names-context_info : Names whole (context_info client input to)
    unfolding context_info
    Names-context_info =
        rw (quotes, context_info) (record { quoted = refl; author = refl; quoted_text = refl })

    wanted : wants_context input ≡ true
    unfolding wants_context
    wanted = rw quotes refl

    optional : optional_context client input to ≡ some (context_info client input to)
    unfolding optional_context wants_context
    optional = rw quotes refl

    Kept-uploaded :
        (text : Option String) (kind : MediaKind) (make : Upload → Content F)
        → ((file : Upload) → Quotes text (make file))
        → Kept text (uploaded client input to kind make)
    unfolding uploaded Kept
    Kept-uploaded text kind make h = elim (Result-cases (client.upload kind input.media_data)) [
      | inl (message, e) ↦ rw (e, uploaded) tt
      | inr (file, e) ↦ rw (e, uploaded) (h file)
    ]

    from_optional :
        (c : Content F) → context_of c.message ≡ optional_context client input to → Quotes whole c
    unfolding Quotes
    from_optional c e = (context_info client input to, e ∙ optional, Names-context_info)

    Kept-text : same_jid to status_broadcast ≡ false → Kept whole (build_text client input to)
    unfolding build_text Kept
    Kept-text other = elim (Bool-cases (input.text == "")) [
      | inl blank ↦ rw (blank, build_text) tt
      | inr given ↦ rw (given, other, wanted, build_text) (from_optional _ refl)
    ]

    Kept-visual : Kept whole (build_visual client input to)
    unfolding build_visual Kept attach
    Kept-visual = elim (Bool-cases (is_nil input.media_data)) [
      | inl blank ↦ rw (blank, build_visual) tt
      | inr given ↦ elim (Bool-cases (input.type == "image")) [
        | inl still ↦
            rw (given, still, build_visual) (Kept-uploaded whole _ _ (λ file. from_optional _ refl))
        | inr moving ↦
            rw (given, moving, build_visual)
              (Kept-uploaded whole _ _ (λ file. from_optional _ refl))
      ]
    ]

    voice : Names none (audio_context client input to)
    unfolding audio_context wants_context context_info
    voice = rw (quotes, audio_context) (record { quoted = refl; author = refl; quoted_text = refl })

    Kept-audio : Kept none (build_audio client input to)
    unfolding build_audio Kept Quotes audio_context wants_context
    Kept-audio = elim (Bool-cases (is_nil input.media_data)) [
      | inl blank ↦ rw (blank, build_audio) tt
      | inr given ↦
          rw (given, build_audio)
            (Kept-uploaded none _ _ (λ file. (audio_context client input to, refl, voice)))
    ]

    Kept-sticker : Kept whole (build_sticker client input to)
    unfolding build_sticker Kept attach
    Kept-sticker = elim (Bool-cases (is_nil input.media_data)) [
      | inl blank ↦ rw (blank, build_sticker) tt
      | inr given ↦ elim (Result-cases (inspect_sticker input.media_data)) [
        | inl (e, bad) ↦ rw (given, bad, build_sticker) tt
        | inr (info, good) ↦
            rw (given, good, build_sticker) (Kept-uploaded whole _ _ (λ file. from_optional _ refl))
      ]
    ]

    Kept-document : Kept whole (build_document client input to)
    unfolding build_document Kept attach
    Kept-document = elim (Bool-cases (is_nil input.media_data)) [
      | inl blank ↦ rw (blank, build_document) tt
      | inr given ↦
          rw (given, build_document) (Kept-uploaded whole _ _ (λ file. from_optional _ refl))
    ]

    contact_context :
        (cs : List ContactEntry)
        → context_of (contact_message client input to cs) ≡ optional_context client input to
    unfolding contact_message
    contact_context [] = refl
    contact_context (c ∷ []) = refl
    contact_context (c ∷ d ∷ cs) = refl

    Kept-contact : Kept whole (build_contact client input to)
    unfolding build_contact Kept
    Kept-contact = elim (Bool-cases (input.vcard == "" && is_nil input.contacts)) [
      | inl blank ↦ rw (blank, build_contact) tt
      | inr given ↦ elim (Bool-cases (all_have_vcard input.contacts)) [
        | inl full ↦
            rw (given, full, build_contact) (from_optional _ (contact_context input.contacts))
        | inr lacking ↦ rw (given, lacking, build_contact) tt
      ]
    ]

    Kept-location : Kept whole (build_location client input to)
    unfolding build_location Kept
    Kept-location = from_optional _ refl

    -- What the message holds of the quoted text: nothing where it is an audio.
    abbrev pub kept_text : Option String
    kept_text = if input.type == "audio" then none else whole

    other_type :
        (s : String)
        → (input.type == "audio") ≡ true
        → ("audio" == s) ≡ false
        → (input.type == s) ≡ false
    other_type s is_audio differs =
        subst (λ t. (t == s) ≡ false) (sym ((eq_iff input.type "audio").0 is_audio)) differs

    second_false : (a b : Bool) → (a && b) ≡ false → a ≡ true → b ≡ false
    second_false a b h first = ground arith

    refused-Kept : (e : ContentError) → Kept whole ([], err e)
    unfolding Kept
    refused-Kept e = tt

    Kept-content :
        ((input.type == "text") && same_jid to status_broadcast) ≡ false
        → Kept kept_text (build_content client input to)
    unfolding build_content
    Kept-content other = elim (Bool-cases (input.type == "audio")) [
      | inl is_audio ↦
          rw
            (
              is_audio,
              other_type "text" is_audio refl,
              other_type "image" is_audio refl,
              other_type "video" is_audio refl,
              other_type "gif" is_audio refl,
            )
            Kept-audio
      | inr silent ↦ elim (Bool-cases (input.type == "text")) [
        | inl is_text ↦
            rw (silent, is_text, build_content)
              (Kept-text
                (second_false (input.type == "text") (same_jid to status_broadcast) other is_text))
        | inr not_text ↦
            elim (Bool-cases
              (input.type == "image" || input.type == "video" || input.type == "gif")) [
                | inl is_visual ↦ rw (silent, not_text, is_visual, build_content) (Kept-visual)
                | inr not_visual ↦ elim (Bool-cases (input.type == "sticker")) [
                  | inl is_sticker ↦
                      rw (silent, not_text, not_visual, is_sticker, build_content) (Kept-sticker)
                  | inr not_sticker ↦ elim (Bool-cases (input.type == "document")) [
                    | inl is_document ↦
                        rw (silent, not_text, not_visual, not_sticker, is_document, build_content)
                          (Kept-document)
                    | inr not_document ↦ elim (Bool-cases (input.type == "contact")) [
                      | inl is_contact ↦
                          rw
                            (
                              silent, not_text, not_visual, not_sticker, not_document, is_contact,
                              build_content,
                            )
                            (Kept-contact)
                      | inr not_contact ↦ elim (Bool-cases (input.type == "location")) [
                        | inl is_location ↦
                            rw
                              (
                                silent, not_text, not_visual, not_sticker, not_document,
                                not_contact, is_location, build_content,
                              )
                              (Kept-location)
                        | inr not_location ↦
                            rw
                              (
                                silent, not_text, not_visual, not_sticker, not_document,
                                not_contact, not_location, build_content,
                              )
                              (refused-Kept _)
                      ]
                    ]
                  ]
                ]
              ]
      ]
    ]

    -- Any message that is built with a quote, but a text status: its context names the quoted message
    -- and the author that Send found for it. It holds the quoted text if one is given, except that an
    -- audio never does.
    pub quote_kept :
        (c : Content F)
        → ((input.type == "text") && same_jid to status_broadcast) ≡ false
        → (build_content client input to).1 ≡ ok c
        → (context : ContextInfo) × (context_of c.message ≡ some context)
          × Names (if input.type == "audio" then none else whole) context
    unfolding Kept Quotes
    quote_kept c other built =
        subst (λ r. Kept kept_text ((build_content client input to).0, r)) built
          (Kept-content other)
