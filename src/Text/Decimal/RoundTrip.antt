-- ===== src/Text/Decimal/RoundTrip.antt =====
-- What `%d` prints is read back by Atoi, so two numbers that print alike are equal.
use cloud_provider_opentelek.Base.{
  ℕ, zero, suc, ◌+◌, ◌/◌, ◌%◌, ◌^◌, ◌≤◌, ◌<◌, ◌≡◌, refl, ap, ◌≢◌, true, [], ◌∷◌, some, arith,
}
use cloud_provider_opentelek.Base.Int.{pos}
use cloud_provider_opentelek.Text.{Text}
use cloud_provider_opentelek.Text.Decimal.{emit, format_nat, all_digits, value, atoi}

value-emit : (rounds n : ℕ) (out : Text) → n ≤ rounds → value 0 (emit rounds n out) ≡ value n out
unfolding emit value
value-emit zero zero out h = refl
value-emit zero (suc n) out h = absurd (omega arith)
value-emit (suc rounds) n out h = ground (arith, value-emit rounds (n / 10) ((b'0' + n % 10) ∷ out))

all_digits-emit :
    (rounds n : ℕ) (out : Text) → all_digits out ≡ true → all_digits (emit rounds n out) ≡ true
unfolding emit all_digits
all_digits-emit zero n out h = h
all_digits-emit (suc rounds) n out h =
    ground (arith, all_digits-emit rounds (n / 10) ((b'0' + n % 10) ∷ out))

all_digits-format_nat : (n : ℕ) → all_digits (format_nat n) ≡ true
unfolding format_nat all_digits
all_digits-format_nat n = ground (arith, all_digits-emit n n [])

value-format_nat : (n : ℕ) → value 0 (format_nat n) ≡ n
unfolding format_nat value
value-format_nat n = ground (arith, value-emit n n [])

emit-nonempty : (rounds n : ℕ) (out : Text) → out ≢ [] → emit rounds n out ≢ []
unfolding emit
emit-nonempty zero n out h = h
emit-nonempty (suc rounds) n out h =
    ground (arith, emit-nonempty rounds (n / 10) ((b'0' + n % 10) ∷ out))

format_nat-nonempty : (n : ℕ) → format_nat n ≢ []
unfolding format_nat emit
format_nat-nonempty zero = λ e. cc
format_nat-nonempty (suc n) =
    ground (arith, emit-nonempty n (suc n / 10) ((b'0' + suc n % 10) ∷ []))

-- A text of digits is read as its value.
atoi-digits :
    (n : ℕ) (s : Text)
    → all_digits s ≡ true
    → value 0 s ≡ n
    → s ≢ []
    → n < 2 ^ 63
    → atoi s ≡ some (pos n)
unfolding atoi all_digits
atoi-digits n [] a v ne h = absurd (ne refl)
atoi-digits n (c ∷ s) a v ne h = ground arith

-- `Atoi` reads back what `%d` prints.
pub atoi-format_nat : (n : ℕ) → n < 2 ^ 63 → atoi (format_nat n) ≡ some (pos n)
atoi-format_nat n h =
    atoi-digits n (format_nat n) (all_digits-format_nat n) (value-format_nat n)
      (format_nat-nonempty n) h

-- Different numbers print differently.
pub format_nat-injective : (m n : ℕ) → format_nat m ≡ format_nat n → m ≡ n
format_nat-injective m n e = cc (value-format_nat m, value-format_nat n, ap (value 0) e)
