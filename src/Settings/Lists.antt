-- ===== src/Settings/Lists.antt =====
-- An annotation that lists values between commas is read back as that list.
use cloud_provider_opentelek.Base.{◌≡◌, refl, ap, false, List, [], ◌∷◌, In, first, later, arith}
use cloud_provider_opentelek.Text.{Text, trim_space}
use cloud_provider_opentelek.Text.Separator.{Lacks}
use cloud_provider_opentelek.Text.Commas.{join_comma, split_comma-join_comma}
use cloud_provider_opentelek.Config.{is_empty}
use cloud_provider_opentelek.Settings.{ann_value, keep_nonempty, split_trim, ann_list}

-- A value without a comma and without white space around it.
pub record IsEntry (x : Text) : Type 0 where
  pub whole : Lacks b',' x
  pub trimmed : trim_space x ≡ x
  pub filled : is_empty x ≡ false

keep_nonempty-IsEntry :
    (xs : List Text) → ((y : Text) → In y xs → IsEntry y) → keep_nonempty xs ≡ xs
unfolding keep_nonempty
keep_nonempty-IsEntry [] all = refl
keep_nonempty-IsEntry (x ∷ xs) all =
    rw ((all x first).trimmed, (all x first).filled)
      (ap (λ ys. x ∷ ys) (keep_nonempty-IsEntry xs (λ y i. all y (later _ i))))

join_comma-filled :
    (x : Text) (xs : List Text) → is_empty x ≡ false → is_empty (join_comma (x ∷ xs)) ≡ false
join_comma-filled x [] filled = filled
join_comma-filled [] (y ∷ xs) filled = absurd (ground arith)
join_comma-filled (c ∷ x) (y ∷ xs) filled = refl

-- An annotation whose value joins some values by commas is read as those values, in order, where none of them is
-- empty, holds a comma, or has white space around it.
pub ann_list-join_comma :
    (ann : List (Text × Text)) (key : Text) (field : List Text) (x : Text) (xs : List Text)
    → ((y : Text) → In y (x ∷ xs) → IsEntry y)
    → ann_value ann key ≡ join_comma (x ∷ xs)
    → ann_list ann key field ≡ x ∷ xs
unfolding ann_list split_trim
ann_list-join_comma ann key field x xs all given =
    rw
      (
        given,
        join_comma-filled x xs (all x first).filled,
        split_comma-join_comma x xs (λ y i. (all y i).whole),
      )
      (keep_nonempty-IsEntry (x ∷ xs) all)
