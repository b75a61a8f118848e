-- ===== src/Send/Content/Uploads.antt =====
-- How often a file is uploaded for one message.
use apime.Common.{
  ℕ, suc, ◌≤◌, String, ◌≡◌, refl, Bool, true, false, List, [], ◌∷◌, ◌==◌, Result, ok, err,
  Result-cases, Bool-cases, inl, inr, if◌then◌else◌, arith, ◌||◌,
}
use apime.Send.Resolver.{Jid}
use apime.Send.Sticker.{inspect_sticker}
use apime.Send.Content.{
  SendInput, MediaKind, Upload, Client, Ask, queries_group, uploads, is_nil, own_jid_for_chat,
  context_asks,
}
use apime.Send.Content.Build.{
  Content, ContentError, upload_failed, invalid_payload, missing_vcard, unsupported, Built,
  uploaded, optional_asks, build_text, build_visual, build_audio, build_sticker, build_document,
  build_contact, build_location, build_content,
}

abbrev pub upload_count : List Ask → ℕ
upload_count [] = 0
upload_count (queries_group jid ∷ asks) = upload_count asks
upload_count (uploads kind bytes ∷ asks) = suc (upload_count asks)

-- A message that is refused without an upload error asked nothing of WhatsApp, a failed upload was the
-- only thing asked, and a message that is built took at most one upload.
unfoldable pub IsFrugal : {F : Type 0} → List Ask × Result ContentError (Content F) → Type 0
IsFrugal (asks, ok c) = upload_count asks ≤ 1
IsFrugal (asks, err (upload_failed message)) = upload_count asks ≡ 1
IsFrugal (asks, err e) = asks ≡ []

module _ {F : Type 0} (client : Client F) (input : SendInput F) (to : Jid) where
  no_uploads : upload_count (optional_asks client input to) ≡ 0
  unfolding optional_asks context_asks own_jid_for_chat
  no_uploads = ground arith

  IsFrugal-uploaded :
      (kind : MediaKind) (make : Upload → Content F) → IsFrugal (uploaded client input to kind make)
  unfolding uploaded IsFrugal
  IsFrugal-uploaded kind make = elim (Result-cases (client.upload kind input.media_data)) [
    | inl (message, e) ↦ rw (e, uploaded) refl
    | inr (file, e) ↦ rw (e, uploaded) (omega (arith, no_uploads))
  ]

  few : upload_count (optional_asks client input to) ≤ 1
  few = omega (arith, no_uploads)

  none_few : upload_count [] ≤ 1
  none_few = omega arith

  lacking : IsFrugal {F = F} ([], err missing_vcard)
  unfolding IsFrugal
  lacking = refl

  unknown : (type : String) → IsFrugal {F = F} ([], err (unsupported type))
  unfolding IsFrugal
  unknown type = refl

  of_few : (asks : List Ask) (c : Content F) → upload_count asks ≤ 1 → IsFrugal (asks, ok c)
  unfolding IsFrugal
  of_few asks c h = h

  by_test : (b : Bool) (x y : Built F) → IsFrugal x → IsFrugal y → IsFrugal (if b then x else y)
  by_test true x y hx hy = hx
  by_test false x y hx hy = hy

  invalid : IsFrugal {F = F} ([], err invalid_payload)
  unfolding IsFrugal
  invalid = refl

  IsFrugal-sticker : IsFrugal (build_sticker client input to)
  unfolding build_sticker IsFrugal
  IsFrugal-sticker = elim (Bool-cases (is_nil input.media_data)) [
    | inl blank ↦ rw (blank, build_sticker) refl
    | inr given ↦ elim (Result-cases (inspect_sticker input.media_data)) [
      | inl (e, bad) ↦ rw (given, bad, build_sticker) refl
      | inr (info, good) ↦ rw (given, good, build_sticker) (IsFrugal-uploaded _ _)
    ]
  ]

  IsFrugal-text : IsFrugal (build_text client input to)
  unfolding build_text
  IsFrugal-text = by_test _ _ _ invalid (
      by_test _ _ _ (of_few [] _ none_few)
        (by_test _ _ _ (of_few (optional_asks client input to) _ few) (of_few [] _ none_few)))

  IsFrugal-contact : IsFrugal (build_contact client input to)
  unfolding build_contact
  IsFrugal-contact =
      by_test _ _ _ invalid (by_test _ _ _ lacking (of_few (optional_asks client input to) _ few))

  IsFrugal-visual : IsFrugal (build_visual client input to)
  unfolding build_visual
  IsFrugal-visual =
      by_test _ _ _ invalid (by_test _ _ _ (IsFrugal-uploaded _ _) (IsFrugal-uploaded _ _))

  IsFrugal-audio : IsFrugal (build_audio client input to)
  unfolding build_audio
  IsFrugal-audio = by_test _ _ _ invalid (IsFrugal-uploaded _ _)

  IsFrugal-document : IsFrugal (build_document client input to)
  unfolding build_document
  IsFrugal-document = by_test _ _ _ invalid (IsFrugal-uploaded _ _)

  IsFrugal-location : IsFrugal (build_location client input to)
  unfolding build_location
  IsFrugal-location = of_few (optional_asks client input to) _ few

  -- The building of a message's content, of any type, taken by itself: when it is refused for another
  -- reason than a failed upload, the building asked nothing of WhatsApp; when an upload failed, it was
  -- the only one; and when it succeeds, it uploaded at most one file.
  pub build_content-IsFrugal : IsFrugal (build_content client input to)
  unfolding build_content
  build_content-IsFrugal = by_test (input.type == "text") _ _ IsFrugal-text (
      by_test (input.type == "image" || input.type == "video" || input.type == "gif") _ _
        IsFrugal-visual
        (by_test (input.type == "audio") _ _ IsFrugal-audio (
          by_test (input.type == "sticker") _ _ IsFrugal-sticker (
            by_test (input.type == "document") _ _ IsFrugal-document (
              by_test (input.type == "contact") _ _ IsFrugal-contact
                (by_test (input.type == "location") _ _ IsFrugal-location (unknown input.type)))))))
