-- ===== src/Cloud/Exec/Orders.antt =====
-- The order in which a range over a Go map visits the keys, which the language leaves open.
use mathlib.Core.Bool.{Bool-set}
use mathlib.Core.Logic.{∥∥₁_elim}
use mathlib.Core.List.Perm
use mathlib.Core.List.{Memᴰ}
use cloud_provider_opentelek.Base.{
  ◌≡◌, ◌≢◌, refl, sym, true, List, [], ◌∷◌, none, arith, ◌==◌, inl, inr, Bool-cases,
}
use cloud_provider_opentelek.Text.{Text, text_eq, text_beq_iff}
use cloud_provider_opentelek.Maps.{Dict, lookup, keys, contains}
use cloud_provider_opentelek.Cloud.Calls.{Call}
use cloud_provider_opentelek.Cloud.Exec.{World, OrderLaws}

contains-Mem : (ks : List Text) (key : Text) → Memᴰ key ks → contains ks key ≡ true
unfolding contains
contains-Mem [] key m = elim m [ ]
contains-Mem (k ∷ ks) key (Memᴰ.head e) = ground (arith, text_beq_iff k key)
contains-Mem (k ∷ ks) key (Memᴰ.tail m) = ground (arith, contains-Mem ks key m)

Mem-keys : {V : Type 0} (m : Dict V) (key : Text) → lookup key m ≢ none → Memᴰ key (keys m)
unfolding lookup keys
Mem-keys [] key there = absurd (there refl)
Mem-keys ((k, v) ∷ m) key there = elim (Bool-cases (k == key)) [
  | inl hit ↦ Memᴰ.head (sym ((text_beq_iff k key).0 hit))
  | inr miss ↦ Memᴰ.tail (Mem-keys m key (rw miss at there))
]

-- A range over a map visits each key that the map holds.
pub contains-key_order :
    {V : Type 0} {w : World} (laws : OrderLaws w) (h : List Call) (key : Text) (m : Dict V)
    → lookup key m ≢ none
    → contains (w.key_order h (keys m)) key ≡ true
contains-key_order {V} {w} laws h key m there =
    ∥∥₁_elim ((Perm.mem_iff (laws.permutes h (keys m))).1 ∣ Mem-keys m key there ∣₁)
      (Bool-set (contains (w.key_order h (keys m)) key) true)
      (λ d. contains-Mem (w.key_order h (keys m)) key d)
