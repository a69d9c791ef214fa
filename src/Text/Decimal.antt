-- ===== src/Text/Decimal.antt =====
-- Numbers as decimal text: `%d` of fmt and strconv.Atoi.
pub mod RoundTrip
use cloud_provider_opentelek.Base.{
  ℕ, zero, suc, ◌+◌, ◌-◌, ◌*◌, ◌/◌, ◌%◌, ◌^◌, ◌≡◌, refl, Bool, true, ◌&&◌, [], ◌∷◌, Option, none,
  some, if◌then◌else◌, nat_beq, ltb, leb,
}
use cloud_provider_opentelek.Base.Int.{ℤ, pos, negsuc}
use cloud_provider_opentelek.Text.{Text, codes}

-- Each round divides `n` by ten, so `n` rounds are enough.
emit : ℕ → ℕ → Text → Text
emit zero n out = out
emit (suc rounds) n out =
    let more = emit rounds (n / 10) ((b'0' + n % 10) ∷ out) in if nat_beq n 0 then out else more

-- `%d` of a number that is not negative.
unfoldable pub format_nat : ℕ → Text
unfolding emit
format_nat n = if nat_beq n 0 then b'0' ∷ [] else emit n n []

abbrev pub is_digit : ℕ → Bool
is_digit c = leb b'0' c && leb c b'9'

all_digits : Text → Bool
all_digits [] = true
all_digits (c ∷ s) = is_digit c && all_digits s

value : ℕ → Text → ℕ
value n [] = n
value n (c ∷ s) = value (n * 10 + (c - b'0')) s

-- At least one digit, and nothing but digits.
digits : Text → Option ℕ
unfolding all_digits value
digits [] = none
digits (c ∷ s) = if all_digits (c ∷ s) then some (value 0 (c ∷ s)) else none

-- The range of a 64-bit int, for a number with its sign.
positive : Option ℕ → Option ℤ
positive none = none
positive (some n) = if ltb n (2 ^ 63) then some (pos n) else none

negative : Option ℕ → Option ℤ
negative none = none
negative (some zero) = some (pos 0)
negative (some (suc n)) = if ltb n (2 ^ 63) then some (negsuc n) else none

-- strconv.Atoi(s): `none` for a syntax error and for a number out of range.
unfoldable pub atoi : Text → Option ℤ
unfolding digits positive negative
atoi [] = none
atoi (c ∷ s) =
    if nat_beq c b'-'
    then negative (digits s)
    else if nat_beq c b'+'
    then positive (digits s)
    else positive (digits (c ∷ s))

atoi_limits :
    (atoi (codes "-9223372036854775808") ≡ some (negsuc 9223372036854775807))
    × (atoi (codes "9223372036854775808") ≡ none)
    × (atoi (codes "+7") ≡ some (pos 7))
    × (atoi (codes "-") ≡ none)
    × (atoi (codes "1_0") ≡ none)
unfolding atoi
atoi_limits = (refl, refl, refl, refl, refl)
