-- ===== src/Common/Text.antt =====
-- The functions of Go's `strings` that the program calls.
use Prim.Native.Nat.{ℕ, zero, suc}
use Prim.Native.Char.{code}
use Prim.Native.String.{String}
use mathlib.Core.Bool.{Bool, ◌&&◌, ◌||◌}
use mathlib.Core.List.{List, [], ◌∷◌}
use text.Mathlib.Text.{◌==◌, starts_with}
use apime.Common.Tests.{leb, eqb, if◌then◌else◌}

-- The code points of a text: its bytes, if it is ASCII.
unfoldable pub codes : String → List ℕ
codes String.[] = []
codes (String.◌∷◌ c s) = code c ∷ codes s

-- unicode.IsSpace on the code points below U+0100.
unfoldable pub is_space : ℕ → Bool
is_space c = (leb 9 c && leb c 13) || eqb c 32 || eqb c 133 || eqb c 160

unfoldable pub trim_left : String → String
unfolding is_space
trim_left String.[] = String.[]
trim_left (String.◌∷◌ c s) =
    let rest = trim_left s in if is_space (code c) then rest else String.◌∷◌ c s

unfoldable pub trim_right : String → String
unfolding is_space
trim_right String.[] = String.[]
trim_right (String.◌∷◌ c s) =
    let rest = trim_right s in
    if is_space (code c) && rest == "" then String.[] else String.◌∷◌ c rest

-- strings.TrimSpace
unfoldable pub trim_space : String → String
unfolding trim_left trim_right
trim_space s = trim_right (trim_left s)

-- strings.Contains(s, sub)
unfoldable pub contains : String → String → Bool
contains String.[] sub = sub == ""
contains (String.◌∷◌ c s) sub =
    let rest = contains s sub in starts_with (String.◌∷◌ c s) sub || rest

-- strings.HasSuffix(s, suffix)
unfoldable pub has_suffix : String → String → Bool
has_suffix String.[] suffix = suffix == ""
has_suffix (String.◌∷◌ c s) suffix =
    let rest = has_suffix s suffix in String.◌∷◌ c s == suffix || rest

-- strings.TrimSuffix(s, suffix)
unfoldable pub trim_suffix : String → String → String
trim_suffix String.[] suffix = String.[]
trim_suffix (String.◌∷◌ c s) suffix =
    let rest = trim_suffix s suffix in
    if String.◌∷◌ c s == suffix then String.[] else String.◌∷◌ c rest

-- s[:n] and s[n:] for an ASCII text of at least n characters.
unfoldable pub take_text : ℕ → String → String
take_text zero s = String.[]
take_text (suc n) String.[] = String.[]
take_text (suc n) (String.◌∷◌ c s) = String.◌∷◌ c (take_text n s)

unfoldable pub drop_text : ℕ → String → String
drop_text zero s = s
drop_text (suc n) String.[] = String.[]
drop_text (suc n) (String.◌∷◌ c s) = drop_text n s

-- len(s) for an ASCII text.
unfoldable pub text_length : String → ℕ
text_length String.[] = 0
text_length (String.◌∷◌ c s) = suc (text_length s)

-- strings.Map that keeps '0' to '9'.
unfoldable pub digits_only : String → String
digits_only String.[] = String.[]
digits_only (String.◌∷◌ c s) =
    let rest = digits_only s in
    if leb 48 (code c) && leb (code c) 57 then String.◌∷◌ c rest else rest
