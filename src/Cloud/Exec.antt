-- ===== src/Cloud/Exec.antt =====
-- A run of the provider. Its state is the list of the calls made so far, newest first, and the two
-- local variables that closures of pkg/elb write to.
pub mod Sends
pub mod Answers
pub mod Orders
pub mod Ends
pub mod Gone
pub mod Done
use cloud_provider_opentelek.Base.{
  ℕ, zero, suc, ◌≤◌, ◌≡◌, Bool, true, false, List, ◌∷◌, Option, Perm, if◌then◌else◌,
}
use cloud_provider_opentelek.Text.{Text}
use cloud_provider_opentelek.Cloud.Errors.{
  Reason, Error, interrupted, wrap, Result, ok, err, panic, is_not_found,
}
use cloud_provider_opentelek.Cloud.Resources.{Listener, Pool}
use cloud_provider_opentelek.Cloud.Calls.{Call, Reply}

pub record State : Type 0 where
  pub calls : List Call
  pub listener : Option Listener
  pub pool : Option Pool

-- The state comes back after an error too: a call that was sent stays sent.
abbrev pub M : Type 0 → Type 0
M A = State → Result A × State

-- What is not in the repository. `answer` is the cloud, which other clients use too: it may depend
-- in any way on the calls so far. `failed_pool` is the pointer that `Extract` returns beside an
-- error. `poll` and `backoff` are those of the wait package; `key_order` is the order in which
-- `range` visits the keys of a map.
pub record World : Type 0 where
  pub answer : (c : Call) → List Call → Result (Reply c)
  pub failed_pool : List Call → Option Pool
  pub poll : ℕ → ℕ → M Bool → M Unit
  pub backoff : ℕ → ℕ → ℕ → M Bool → M Unit
  pub key_order : List Call → List Text → List Text

module _ {A : Type 0} where
  abbrev pub caught : Result A × State → Result (Result A) × State
  caught (ok a, s) = (ok (ok a), s)
  caught (err e, s) = (ok (err e), s)
  caught (panic, s) = (panic, s)

  abbrev pub wrapped : Reason → Result A → Result A
  wrapped r (ok a) = ok a
  wrapped r (err e) = err (wrap r e)
  wrapped r panic = panic

abbrev pub tolerated : Reason → Result (Unit {0}) → Result (Unit {0})
tolerated r (ok a) = ok a
tolerated r (err e) = if is_not_found e then ok tt else err (wrap r e)
tolerated r panic = panic

module _ {A : Type 0} where
  unfoldable pub pure : A → M A
  pure a s = (ok a, s)

  unfoldable pub throw : Error → M A
  throw e s = (err e, s)

  unfoldable pub lift : Result A → M A
  lift r s = (r, s)

  unfoldable pub gets : (State → A) → M A
  gets f s = (ok (f s), s)

  -- `v, err := m`, where the code goes on with `err` in hand.
  unfoldable pub attempt : M A → M (Result A)
  attempt m s = caught (m s)

  -- `if err != nil { return fmt.Errorf("…: %w", err) }`
  unfoldable pub or_wrap : Reason → M A → M A
  or_wrap r m s = let (x, s') = m s in (wrapped r x, s')

unfoldable pub modify : (State → State) → M Unit
modify f s = (ok tt, f s)

-- `if err != nil && !isNotFound(err) { return fmt.Errorf("…: %w", err) }`
unfoldable pub or_gone : Reason → M Unit → M Unit
or_gone r m s = let (x, s') = m s in (tolerated r x, s')

module _ {A B : Type 0} where
  abbrev pub continue : Result A → (A → M B) → M B
  continue (ok a) f s = f a s
  continue (err e) f s = (err e, s)
  continue panic f s = (panic, s)

  infixl 10 ◌>>=◌ ◌>>◌
  -- Opening this opens the ways to build an action too.
  unfoldable pub ◌>>=◌ : M A → (A → M B) → M B
  unfolding pure throw lift gets modify attempt or_wrap or_gone
  ◌>>=◌ m f s = let (r, s') = m s in continue r f s'

  abbrev pub ◌>>◌ : M A → M B → M B
  m >> n = m >>= λ _. n

-- Sends one call: it is recorded, and the cloud answers.
unfoldable pub send : World → (c : Call) → M (Reply c)
send w c s = (w.answer c s.calls, record s { calls = c ∷ s.calls })

-- `_, err := …`: the reply is not read.
unfoldable pub ignore : {A : Type 0} → M A → M Unit
unfolding ◌>>=◌
ignore m = do m; pure tt

-- What the wait package documents of its loops: the condition is tried until it holds or fails, and
-- some number of times at most.
abbrev pub tried : Result Bool × State → M Unit → Result (Unit {0}) × State
tried (ok true, s) more = (ok tt, s)
tried (ok false, s) more = more s
tried (err e, s) more = (err e, s)
tried (panic, s) more = (panic, s)

unfoldable pub attempts : ℕ → M Bool → M Unit
attempts zero test s = (err interrupted, s)
attempts (suc n) test s = tried (test s) (attempts n test)

pub record WaitLaws (w : World) : Type 0 where
  pub polls :
      (i t : ℕ) (test : M Bool) (s : State) → (n : ℕ) × (w.poll i t test s ≡ attempts n test s)
  pub backs_off :
      (d f steps : ℕ) (test : M Bool) (s : State)
      → (n : ℕ) × (n ≤ steps) × (w.backoff d f steps test s ≡ attempts n test s)

-- A `range` over a map visits each key once, in some order.
pub record OrderLaws (w : World) : Type 0 where
  pub permutes : (h : List Call) (keys : List Text) → Perm (w.key_order h keys) keys
