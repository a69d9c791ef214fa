-- ===== src/Cloud/Fallible.antt =====
-- A pure function that may fail: the bind of `Result`.
use cloud_provider_opentelek.Base.{Bool, if◌then◌else◌}
use cloud_provider_opentelek.Cloud.Errors.{Error, Result, ok, err, panic}

infixl 5 ◌>>=◌ ◌>>◌
abbrev pub ◌>>=◌ : {A B : Type 0} → Result A → (A → Result B) → Result B
panic >>= next = panic
err e >>= next = err e
ok a >>= next = next a

abbrev pub ◌>>◌ : {B : Type 0} (first : Result (Unit {0})) (next : Result B) → Result B
first >> next = first >>= (λ done. next)

-- `if b { return err }`
abbrev pub reject_if : Bool → Error → Result (Unit {0})
reject_if b e = if b then err e else ok tt
