-- ===== src/Text/Separator.antt =====
-- Texts joined by a separator byte are told apart at its first place.
use cloud_provider_opentelek.Base.{ℕ, ◌≡◌, refl, false, [], ◌∷◌, ◌++◌, arith, nat_beq}
use cloud_provider_opentelek.Text.{Text}

-- The byte does not occur in the text.
abbrev pub Lacks : ℕ → Text → Type 0
Lacks c [] = Unit
Lacks c (d ∷ s) = (nat_beq d c ≡ false) × Lacks c s

pub split_at_first :
    (c : ℕ) (x y u v : Text) → Lacks c x → Lacks c y → x ++ c ∷ u ≡ y ++ c ∷ v → (x ≡ y) × (u ≡ v)
split_at_first c [] [] u v hx hy e = (refl, ground arith)
split_at_first c [] (d ∷ y) u v hx hy e = absurd (ground arith)
split_at_first c (d ∷ x) [] u v hx hy e = absurd (ground arith)
split_at_first c (d ∷ x) (d' ∷ y) u v hx hy e =
    let ih = split_at_first c x y u v hx.1 hy.1 (ground arith) in (ground (arith, ih), ih.1)

pub append_cancel : (p u v : Text) → p ++ u ≡ p ++ v → u ≡ v
append_cancel [] u v e = e
append_cancel (c ∷ p) u v e = append_cancel p u v (ground arith)
