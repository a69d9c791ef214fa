-- ===== src/Elb/IpGroups/Compare.antt =====
-- ipListEqual compares lengths and looks for each wanted range among the current ones.
use cloud_provider_opentelek.Base.{
  suc, ◌≡◌, ◌≢◌, refl, true, false, List, [], ◌∷◌, arith, length, ◌↔◌, if◌then◌else◌, ◌==◌,
}
use cloud_provider_opentelek.Text.{Text, text_eq, text_beq_iff}
use cloud_provider_opentelek.Maps.{contains}
use cloud_provider_opentelek.Elb.IpGroups.{all_in, ip_list_equal}

-- No text is listed twice.
abbrev pub Distinct : List Text → Type 0
Distinct [] = Unit
Distinct (t ∷ ts) = (contains ts t ≡ false) × Distinct ts

without : Text → List Text → List Text
without t [] = []
without t (x ∷ xs) = if x == t then xs else x ∷ without t xs

length-without :
    (t : Text) (xs : List Text) → contains xs t ≡ true → length xs ≡ suc (length (without t xs))
unfolding contains without
length-without t [] h = cc
length-without t (x ∷ xs) h = ground (arith, length-without t xs)

contains-without :
    (t y : Text) (xs : List Text)
    → contains xs t ≡ true
    → contains xs y ≡ (if t == y then true else contains (without t xs) y)
unfolding contains without
contains-without t y [] h = cc
contains-without t y (x ∷ xs) h =
    ground (arith, contains-without t y xs, text_beq_iff x t, text_beq_iff t y, text_beq_iff x y)

all_in-without :
    (t : Text) (xs ts : List Text)
    → contains ts t ≡ false
    → contains xs t ≡ true
    → all_in xs ts ≡ true
    → all_in (without t xs) ts ≡ true
unfolding all_in contains
all_in-without t xs [] lacks has h = refl
all_in-without t xs (r ∷ ts) lacks has h =
    ground (
      arith,
      contains-without t r xs has,
      text_beq_iff t r,
      text_beq_iff r t,
      all_in-without t xs ts,
    )

same_elements :
    (xs ts : List Text)
    → length xs ≡ length ts
    → all_in xs ts ≡ true
    → Distinct ts
    → (y : Text) → contains xs y ≡ contains ts y
unfolding all_in contains
same_elements [] [] n h d y = refl
same_elements (x ∷ xs) [] n h d y = absurd (omega arith)
same_elements xs (t ∷ ts) n h d y =
    let has : contains xs t ≡ true = ground arith in
    ground (
      arith,
      contains-without t y xs has,
      same_elements (without t xs) ts (omega (arith, length-without t xs has))
          (all_in-without t xs ts d.0 has (ground arith)) d.1 y,
    )

all_in-of-same :
    (xs ts : List Text)
    → ((y : Text) → contains ts y ≡ true → contains xs y ≡ true)
    → all_in xs ts ≡ true
unfolding all_in contains
all_in-of-same xs [] f = refl
all_in-of-same xs (t ∷ ts) f =
    ground (arith, f t, text_beq_iff t t, all_in-of-same xs ts (λ y h. ground (arith, f y)))

-- Without duplicates among the wanted ranges, the lists count as equal exactly when they are as long
-- and hold the same ranges, in any order.
pub ip_list_equal-exact :
    (current ranges : List Text)
    → Distinct ranges
    → (ip_list_equal current ranges ≡ true)
      ↔ ((length current ≡ length ranges) × ((y : Text) → contains current y ≡ contains ranges y))
unfolding ip_list_equal
ip_list_equal-exact current ranges d = (
  λ h. (ground arith, same_elements current ranges (ground arith) (ground arith) d),
  λ h. ground (arith, h.0, all_in-of-same current ranges (λ y c. rw h.1 c)),
)

-- A duplicate among the wanted ranges hides another range that is to go: the lists count as equal.
pub ip_list_equal_duplicate :
    (wanted stale : Text)
    → wanted ≢ stale
    → (ip_list_equal (wanted ∷ stale ∷ []) (wanted ∷ wanted ∷ []) ≡ true)
      × (contains (wanted ∷ stale ∷ []) stale ≡ true)
      × (contains (wanted ∷ wanted ∷ []) stale ≡ false)
unfolding ip_list_equal contains
ip_list_equal_duplicate wanted stale differ =
    ground (arith, text_beq_iff wanted wanted, text_beq_iff stale stale, text_beq_iff wanted stale)
