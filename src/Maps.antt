-- ===== src/Maps.antt =====
-- Go's `map[string]V` as an association list with one entry for each key.
use cloud_provider_opentelek.Base.{
  ◌≡◌, refl, Bool, true, false, List, [], ◌∷◌, Option, none, some, if◌then◌else◌, ◌==◌, arith,
}
use cloud_provider_opentelek.Text.{Text, text_eq, text_beq_iff}

abbrev pub Dict {ℓ} : Type ℓ → Type ℓ
Dict V = List (Text × V)

module _ {ℓ} {V : Type ℓ} where
  unfoldable pub lookup : Text → Dict V → Option V
  lookup k [] = none
  lookup k ((j, v) ∷ m) = if j == k then some v else lookup k m

  -- `m[k] = v`
  unfoldable pub insert : Text → V → Dict V → Dict V
  insert k v [] = (k, v) ∷ []
  insert k v ((j, u) ∷ m) = if j == k then (k, v) ∷ m else (j, u) ∷ insert k v m

  -- `delete(m, k)`
  unfoldable pub erase : Text → Dict V → Dict V
  erase k [] = []
  erase k ((j, u) ∷ m) = if j == k then m else (j, u) ∷ erase k m

  unfoldable pub keys : Dict V → List Text
  keys [] = []
  keys ((k, _) ∷ m) = k ∷ keys m

  abbrev pub is_some : Option V → Bool
  is_some none = false
  is_some (some _) = true

  pub lookup-insert :
      (k j : Text) (v : V) (m : Dict V)
      → lookup j (insert k v m) ≡ (if k == j then some v else lookup j m)
  unfolding lookup insert
  lookup-insert k j v [] = refl
  lookup-insert k j v ((i, u) ∷ m) =
      ground (arith, text_beq_iff k j, text_beq_iff i k, text_beq_iff i j, lookup-insert k j v m)

-- Is `k` among the texts? The lookup of a `map[string]bool`.
unfoldable pub contains : List Text → Text → Bool
contains [] k = false
contains (t ∷ ts) k = if t == k then true else contains ts k
