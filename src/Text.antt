-- ===== src/Text.antt =====
-- Go's strings as lists of bytes, with what the program takes from the packages `strings`,
-- `strconv` and `fmt`: HasPrefix, Split, TrimSpace, ToUpper, Atoi, ParseBool, and `%d`.
pub mod Prefix
pub mod Separator
pub mod Commas
pub mod Decimal
use Prim.Native.Char.{code}
use Prim.Native.String.{String}
use mathlib.Core.List.{reverse}
use cloud_provider_opentelek.Base.{
  ℕ, zero, suc, ◌+◌, ◌-◌, ◌*◌, ◌/◌, ◌%◌, ◌^◌, ◌≡◌, Bool, true, false, ◌&&◌, ◌||◌, List, [], ◌∷◌,
  Option, none, some, if◌then◌else◌, ◌==◌, Eq, nat_beq, ltb, leb, list_beq, list_beq_sound,
  list_beq_refl, nat_eq, length, take, ◌↔◌, subst, map,
}

abbrev pub Text : Type 0
Text = List ℕ

-- A literal; every literal of the source is ASCII, so its code points are its bytes.
abbrev pub codes : String → Text
codes String.[] = []
codes (String.◌∷◌ c s) = code c ∷ codes s

unfoldable pub text_beq : Text → Text → Bool
unfolding list_beq
text_beq = list_beq

pub text_beq_iff : (s t : Text) → (text_beq s t ≡ true) ↔ (s ≡ t)
unfolding text_beq
text_beq_iff s t = (list_beq_sound s t, λ e. subst (λ u. list_beq s u ≡ true) e (list_beq_refl s))

instance abbrev pub text_eq : Eq Text
text_eq = record { test = text_beq; test_iff = text_beq_iff }

-- strings.HasPrefix(s, prefix)
unfoldable pub has_prefix : Text → Text → Bool
has_prefix s [] = true
has_prefix [] (_ ∷ _) = false
has_prefix (c ∷ s) (d ∷ prefix) = c == d && has_prefix s prefix

-- `cutString`: at most `n` bytes.
unfoldable pub cut_string : Text → ℕ → Text
cut_string s n = if ltb n (length s) then take n s else s

cons_head : ℕ → List Text → List Text
cons_head c [] = (c ∷ []) ∷ []
cons_head c (part ∷ parts) = (c ∷ part) ∷ parts

-- strings.Split(s, ",")
unfoldable pub split_comma : Text → List Text
unfolding cons_head
split_comma [] = [] ∷ []
split_comma (c ∷ s) =
    let parts = split_comma s in if c == b',' then [] ∷ parts else cons_head c parts

-- The UTF-8 encodings of the runes with unicode.IsSpace, of one, two and three bytes.
abbrev space_1 : ℕ → Bool
space_1 a = leb 9 a && leb a 13 || nat_beq a 32

abbrev space_2 : ℕ → ℕ → Bool
space_2 a b = nat_beq a 0xc2 && (nat_beq b 0x85 || nat_beq b 0xa0)

abbrev space_3 : ℕ → ℕ → ℕ → Bool
space_3 a b c =
    nat_beq a 0xe1 && nat_beq b 0x9a && nat_beq c 0x80
    || nat_beq a 0xe2
      && (nat_beq b 0x80
            && (leb 0x80 c && leb c 0x8a || nat_beq c 0xa8 || nat_beq c 0xa9 || nat_beq c 0xaf)
          || nat_beq b 0x81 && nat_beq c 0x9f)
    || nat_beq a 0xe3 && nat_beq b 0x80 && nat_beq c 0x80

-- Drops the runes at the front that the three tests accept.
trim_front : (ℕ → ℕ → Bool) → (ℕ → ℕ → ℕ → Bool) → Text → Text
trim_front two three [] = []
trim_front two three (a ∷ []) = if space_1 a then [] else a ∷ []
trim_front two three (a ∷ b ∷ []) =
    let rest = trim_front two three (b ∷ []) in
    if space_1 a then rest else if two a b then [] else a ∷ b ∷ []
trim_front two three (a ∷ b ∷ c ∷ s) =
    let after_1 = trim_front two three (b ∷ c ∷ s) in
    let after_2 = trim_front two three (c ∷ s) in
    let after_3 = trim_front two three s in
    if space_1 a
    then after_1
    else if two a b
    then after_2
    else if three a b c
    then after_3
    else a ∷ b ∷ c ∷ s

trim_left : Text → Text
unfolding trim_front
trim_left = trim_front space_2 space_3

-- From the back the bytes of a rune come in reverse order.
trim_right : Text → Text
unfolding trim_front
trim_right s = reverse (trim_front (λ b a. space_2 a b) (λ c b a. space_3 a b c) (reverse s))

-- strings.TrimSpace(s)
unfoldable pub trim_space : Text → Text
unfolding trim_left trim_right
trim_space s = trim_right (trim_left s)

-- strings.ToUpper(s), as far as ASCII results go: the two other runes whose upper case is ASCII are
-- U+0131 (I) and U+017F (S); every other rune has an upper case outside ASCII and stays here.
unfoldable pub to_upper : Text → Text
to_upper [] = []
to_upper (a ∷ []) = (if leb b'a' a && leb a b'z' then a - 32 else a) ∷ []
to_upper (a ∷ b ∷ s) =
    let after_1 = to_upper (b ∷ s) in
    let after_2 = to_upper s in
    if nat_beq a 0xc4 && nat_beq b 0xb1
    then b'I' ∷ after_2
    else if nat_beq a 0xc5 && nat_beq b 0xbf
    then b'S' ∷ after_2
    else (if leb b'a' a && leb a b'z' then a - 32 else a) ∷ after_1

-- Is `s` one of the listed texts? The `case` list of a `switch`.
unfoldable pub one_of : List Text → Text → Bool
one_of [] s = false
one_of (t ∷ ts) s = s == t || one_of ts s

-- strconv.ParseBool(s)
unfoldable pub parse_bool : Text → Option Bool
unfolding one_of
parse_bool s =
    if one_of (map codes ("1" ∷ "t" ∷ "T" ∷ "true" ∷ "TRUE" ∷ "True" ∷ [])) s
    then some true
    else if one_of (map codes ("0" ∷ "f" ∷ "F" ∷ "false" ∷ "FALSE" ∷ "False" ∷ [])) s
    then some false
    else none
