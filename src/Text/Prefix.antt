-- ===== src/Text/Prefix.antt =====
-- `has_prefix` and `cut_string` against concatenation.
use cloud_provider_opentelek.Base.{
  ℕ, zero, suc, ◌≤◌, ◌≡◌, refl, ap, true, [], ◌∷◌, ◌++◌, arith, length, length-take,
}
use cloud_provider_opentelek.Base.{take, length-append}
use cloud_provider_opentelek.Text.{Text, has_prefix, cut_string}

pub has_prefix-nil : (s : Text) → has_prefix s [] ≡ true
unfolding has_prefix
has_prefix-nil [] = refl
has_prefix-nil (c ∷ s) = refl

pub has_prefix-append : (p s : Text) → has_prefix (p ++ s) p ≡ true
unfolding has_prefix
has_prefix-append [] [] = refl
has_prefix-append [] (_ ∷ _) = refl
has_prefix-append (c ∷ p) s = ground (arith, has_prefix-append p s)

-- A text with the prefix is the prefix and a rest.
pub has_prefix-split : (s p : Text) → has_prefix s p ≡ true → (rest : Text) × (s ≡ p ++ rest)
unfolding has_prefix
has_prefix-split s [] h = (s, refl)
has_prefix-split [] (_ ∷ _) h = cc
has_prefix-split (c ∷ s) (d ∷ p) h =
    let (rest, e) = has_prefix-split s p (ground arith) in (rest, ground (arith, e))

pub length-cut_string : (s : Text) (n : ℕ) → length (cut_string s n) ≤ n
unfolding cut_string
length-cut_string s n = ground (arith, length-take n s)

pub cut_string-short : (s : Text) (n : ℕ) → length s ≤ n → cut_string s n ≡ s
unfolding cut_string
cut_string-short s n h = ground arith

has_prefix-take : (n : ℕ) (p s : Text) → length p ≤ n → has_prefix (take n (p ++ s)) p ≡ true
unfolding has_prefix
has_prefix-take zero [] s h = refl
has_prefix-take zero (c ∷ p) s h = absurd (omega arith)
has_prefix-take (suc n) [] s h = has_prefix-nil (take (suc n) s)
has_prefix-take (suc n) (c ∷ p) s h = ground (arith, has_prefix-take n p s)

-- A text with a prefix is at least as long.
pub length-has_prefix : (s p : Text) → has_prefix s p ≡ true → length p ≤ length s
length-has_prefix s p h =
    let (rest, e) = has_prefix-split s p h in omega (arith, ap length e, length-append p rest)

-- A cut that leaves the prefix whole leaves it in front.
pub has_prefix-cut_string :
    (n : ℕ) (p s : Text) → length p ≤ n → has_prefix (cut_string (p ++ s) n) p ≡ true
unfolding cut_string
has_prefix-cut_string n p s h = ground (arith, has_prefix-take n p s h, has_prefix-append p s)
