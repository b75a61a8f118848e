-- ===== src/Send/Resolver/Variants.antt =====
-- The two spellings of a Brazilian mobile number in internal/service/message/jid_resolver.go.
use Prim.Native.Char.{Char}
use Prim.Native.String.{◌++◌}
use text.Mathlib.Text.{starts_with}
use text.Mathlib.TextLemmas.{nil-append, cons-append, head-eq_of_cons-eq, tail-eq_of_cons-eq}
use text.Mathlib.TextEquality.{starts_with_iff}
use apime.Common.{suc, String, ◌≡◌, refl, ap, ◌∙◌, sym, true, arith}
use apime.Common.Text.{take_text, drop_text, text_length}
use apime.Send.Resolver.{variant_of, is_mobile}

length-nine : (s : String) → text_length ("9" ++ s) ≡ suc (text_length s)
unfolding text_length
length-nine s = ap text_length (cons-append "9" "" s) ∙ ap (λ t. suc (text_length t)) (nil-append s)

two :
    (a b : Char) (s : String) → String.◌∷◌ a (String.◌∷◌ b "") ++ s ≡ String.◌∷◌ a (String.◌∷◌ b s)
two a b s =
    cons-append a (String.◌∷◌ b "") s
    ∙ ap (String.◌∷◌ a) (cons-append b "" s ∙ ap (String.◌∷◌ b) (nil-append s))

-- Whether a text starts with "55" depends on its first two characters only.
starts_55 :
    (a b : Char) (s t : String)
    → starts_with (String.◌∷◌ a (String.◌∷◌ b s)) "55" ≡ true
    → starts_with (String.◌∷◌ a (String.◌∷◌ b t)) "55" ≡ true
starts_55 a b s t h =
    let (u, e) = (starts_with_iff (String.◌∷◌ a (String.◌∷◌ b s)) "55").0 h in
    let e' : String.◌∷◌ "5" (String.◌∷◌ "5" u) ≡ String.◌∷◌ a (String.◌∷◌ b s) =
      sym (two "5" "5" u) ∙ e in
    let same_a = head-eq_of_cons-eq e' in
    let same_b = head-eq_of_cons-eq (tail-eq_of_cons-eq e') in
    (starts_with_iff (String.◌∷◌ a (String.◌∷◌ b t)) "55").1
      (t, two "5" "5" t ∙ rw (← same_a, ← same_b) refl)

abbrev four_then : Char → Char → Char → Char → String → String
four_then a b c d s = String.◌∷◌ a (String.◌∷◌ b (String.◌∷◌ c (String.◌∷◌ d s)))

four_append :
    (a b c d : Char) (s t : String) → take_text 4 (four_then a b c d s) ++ t ≡ four_then a b c d t
unfolding take_text
four_append a b c d s t =
    cons-append a (String.◌∷◌ b (String.◌∷◌ c (String.◌∷◌ d ""))) t
    ∙ ap (String.◌∷◌ a) (
        cons-append b (String.◌∷◌ c (String.◌∷◌ d "")) t
        ∙ ap (String.◌∷◌ b) (
            cons-append c (String.◌∷◌ d "") t
            ∙ ap (String.◌∷◌ c) (cons-append d "" t ∙ ap (String.◌∷◌ d) (nil-append t))))

drop-nine : (s : String) → drop_text 1 ("9" ++ s) ≡ s
unfolding drop_text
drop-nine s = ap (drop_text 1) (cons-append "9" "" s) ∙ nil-append s

without_nine :
    (phone : String)
    → text_length phone ≡ 13
    → starts_with phone "55" ≡ true
    → variant_of phone ≡ take_text 4 phone ++ drop_text 5 phone
unfolding variant_of
without_nine phone h brazil = rw (h, brazil, variant_of) refl

with_nine :
    (phone : String)
    → text_length phone ≡ 12
    → starts_with phone "55" ≡ true
    → is_mobile (drop_text 4 phone) ≡ true
    → variant_of phone ≡ take_text 4 phone ++ ("9" ++ drop_text 4 phone)
unfolding variant_of
with_nine phone h brazil mobile = rw (h, brazil, mobile, variant_of) refl

by_parts :
    (a b c d : Char) (rest : String)
    → text_length (four_then a b c d rest) ≡ 12
    → starts_with (four_then a b c d rest) "55" ≡ true
    → is_mobile rest ≡ true
    → (text_length (variant_of (four_then a b c d rest)) ≡ 13)
      × (variant_of (variant_of (four_then a b c d rest)) ≡ four_then a b c d rest)
unfolding drop_text text_length
by_parts a b c d rest h brazil mobile =
    let long = four_then a b c d ("9" ++ rest) in
    let is_long : variant_of (four_then a b c d rest) ≡ long =
      with_nine (four_then a b c d rest) h brazil mobile ∙ four_append a b c d rest ("9" ++ rest) in
    let thirteen : text_length long ≡ 13 = omega (arith, h, length-nine rest) in
    let brazil' =
      starts_55 a b (String.◌∷◌ c (String.◌∷◌ d rest)) (String.◌∷◌ c (String.◌∷◌ d ("9" ++ rest)))
        brazil in
    let back : variant_of long ≡ four_then a b c d rest =
      without_nine long thirteen brazil'
      ∙ ap (λ t. take_text 4 long ++ t) (drop-nine rest)
      ∙ four_append a b c d ("9" ++ rest) rest in
    rw is_long (thirteen, back)

-- For a Brazilian mobile number of 12 digits the variant is one digit longer, and the variant of the
-- variant is the number itself: the two spellings lead to each other.
pub variant-variant :
    (phone : String)
    → text_length phone ≡ 12
    → starts_with phone "55" ≡ true
    → is_mobile (drop_text 4 phone) ≡ true
    → (text_length (variant_of phone) ≡ 13) × (variant_of (variant_of phone) ≡ phone)
unfolding drop_text text_length
variant-variant (String.◌∷◌ a (String.◌∷◌ b (String.◌∷◌ c (String.◌∷◌ d rest)))) h brazil mobile =
    by_parts a b c d rest h brazil mobile
variant-variant String.[] h brazil mobile = absurd (omega (arith, h))
variant-variant (String.◌∷◌ a String.[]) h brazil mobile = absurd (omega (arith, h))
variant-variant (String.◌∷◌ a (String.◌∷◌ b String.[])) h brazil mobile = absurd (omega (arith, h))
variant-variant (String.◌∷◌ a (String.◌∷◌ b (String.◌∷◌ c String.[]))) h brazil mobile =
    absurd (omega (arith, h))
