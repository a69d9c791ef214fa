-- ===== src/Text/Commas.antt =====
-- strings.Split at commas, on texts that commas join.
use cloud_provider_opentelek.Base.{◌≡◌, refl, ap, ◌∙◌, List, [], ◌∷◌, ◌++◌, In, first, later}
use cloud_provider_opentelek.Text.{Text, split_comma, cons_head}
use cloud_provider_opentelek.Text.Separator.{Lacks}

-- Values as one writes them: between commas.
abbrev pub join_comma : List Text → Text
join_comma [] = []
join_comma (x ∷ []) = x
join_comma (x ∷ y ∷ xs) = x ++ (b',' ∷ join_comma (y ∷ xs))

split_comma-Lacks : (x : Text) → Lacks b',' x → split_comma x ≡ x ∷ []
unfolding split_comma cons_head
split_comma-Lacks [] h = refl
split_comma-Lacks (c ∷ x) h = rw (h.0, split_comma-Lacks x h.1) refl

split_comma-append :
    (x rest : Text) → Lacks b',' x → split_comma (x ++ (b',' ∷ rest)) ≡ x ∷ split_comma rest
unfolding split_comma cons_head
split_comma-append [] rest h = refl
split_comma-append (c ∷ x) rest h = rw (h.0, split_comma-append x rest h.1) refl

pub split_comma-join_comma :
    (x : Text) (xs : List Text)
    → ((y : Text) → In y (x ∷ xs) → Lacks b',' y)
    → split_comma (join_comma (x ∷ xs)) ≡ x ∷ xs
split_comma-join_comma x [] all = split_comma-Lacks x (all x first)
split_comma-join_comma x (y ∷ xs) all =
    split_comma-append x (join_comma (y ∷ xs)) (all x first)
    ∙ ap (λ ys. x ∷ ys) (split_comma-join_comma y xs (λ z i. all z (later _ i)))
