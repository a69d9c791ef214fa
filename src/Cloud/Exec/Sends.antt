-- ===== src/Cloud/Exec/Sends.antt =====
-- Which calls an action sends, one rule for each way to build an action. A call is judged by the
-- calls before it, so that a permission can rest on what the cloud has answered.
use cloud_provider_opentelek.Base.{
  ℕ, zero, suc, ◌≡◌, refl, sym, subst, Bool, true, false, List, ◌∷◌, if◌then◌else◌,
}
use cloud_provider_opentelek.Cloud.Errors.{Reason, Error, Result, ok, err, panic}
use cloud_provider_opentelek.Cloud.Calls.{Call}
use cloud_provider_opentelek.Cloud.Exec.{
  State, M, World, WaitLaws, pure, throw, lift, gets, modify, attempt, or_wrap, or_gone, ◌>>=◌,
  send, ignore, attempts, caught, continue, tried,
}

-- The calls `h'` are those of `h` with later ones before them, each permitted by `F` when it came.
pub data Extends (F : List Call → Call → Type 0) (h : List Call) : List Call → Type 0 where
  same : Extends F h h
  more : {h' : List Call} (c : Call) → Extends F h h' → F h' c → Extends F h (c ∷ h')

module _ {F : List Call → Call → Type 0} where
  pub Extends-trans : {h h' h'' : List Call} → Extends F h h' → Extends F h' h'' → Extends F h h''
  Extends-trans e same = e
  Extends-trans e (more c e' p) = more c (Extends-trans e e') p

-- A permission may be traded for another, with the calls so far in hand.
pub Extends-mono :
    {F G : List Call → Call → Type 0} {h h' : List Call}
    → ((k : List Call) (c : Call) → Extends F h k → F k c → G k c)
    → Extends F h h'
    → Extends G h h'
Extends-mono f same = same
Extends-mono f (more c e p) = more c (Extends-mono f e) (f _ c e p)

-- Run from `s`, the action `m` sends only calls that `F` permits, whether it succeeds or not.
pub record Sends {A : Type 0} (F : List Call → Call → Type 0) (m : M A) (s : State) : Type 0 where
  pub trace : Extends F s.calls (m s).1.calls

pub Sends-mono :
    {A : Type 0} {F G : List Call → Call → Type 0} {m : M A} {s : State}
    → ((k : List Call) (c : Call) → Extends F s.calls k → F k c → G k c)
    → Sends F m s
    → Sends G m s
Sends-mono f k = record { trace = Extends-mono f k.trace }

module _ {F : List Call → Call → Type 0} {A : Type 0} (s : State) where
  pub Sends-pure : (a : A) → Sends F (pure a) s
  unfolding pure
  Sends-pure a = record { trace = same }

  pub Sends-throw : (e : Error) → Sends F (throw {A = A} e) s
  unfolding throw
  Sends-throw e = record { trace = same }

  pub Sends-lift : (r : Result A) → Sends F (lift r) s
  unfolding lift
  Sends-lift r = record { trace = same }

  pub Sends-gets : (f : State → A) → Sends F (gets f) s
  unfolding gets
  Sends-gets f = record { trace = same }

  pub Sends-or_wrap : (r : Reason) (m : M A) → Sends F m s → Sends F (or_wrap r m) s
  unfolding or_wrap
  Sends-or_wrap r m k = record { trace = k.trace }

calls-caught : {A : Type 0} (x : Result A × State) → (caught x).1.calls ≡ x.1.calls
calls-caught (ok a, s) = refl
calls-caught (err e, s) = refl
calls-caught (panic, s) = refl

module _ {F : List Call → Call → Type 0} (s : State) where
  pub Sends-attempt : {A : Type 0} (m : M A) → Sends F m s → Sends F (attempt m) s
  unfolding attempt
  Sends-attempt m k = record { trace = rw calls-caught k.trace }

  pub Sends-or_gone : (r : Reason) (m : M Unit) → Sends F m s → Sends F (or_gone r m) s
  unfolding or_gone
  Sends-or_gone r m k = record { trace = k.trace }

  pub Sends-modify : (f : State → State) → (f s).calls ≡ s.calls → Sends F (modify f) s
  unfolding modify
  Sends-modify f e = record { trace = subst (Extends F s.calls) (sym e) same }

  pub Sends-send : (w : World) (c : Call) → F s.calls c → Sends F (send w c) s
  unfolding send
  Sends-send w c p = record { trace = more c same p }

  pub Sends-if :
      {A : Type 0} (b : Bool) (m n : M A)
      → (b ≡ true → Sends F m s)
      → (b ≡ false → Sends F n s)
      → Sends F (if b then m else n) s
  Sends-if true m n km kn = km refl
  Sends-if false m n km kn = kn refl

-- The state after `m`, with how it was reached.
pub record Reached {A : Type 0} (F : List Call → Call → Type 0) (m : M A) (s : State) (a : A)
    (s' : State) : Type 0 where
  pub result : m s ≡ (ok a, s')
  pub trace : Extends F s.calls s'.calls

module _ {F : List Call → Call → Type 0} {A B : Type 0} (s : State) where
  continue-Extends :
      (m : M A) (f : A → M B) (x : Result A × State)
      → m s ≡ x
      → Extends F s.calls x.1.calls
      → ((a : A) (s' : State) → Reached F m s a s' → Sends F (f a) s')
      → Extends F s.calls (continue x.0 f x.1).1.calls
  continue-Extends m f (ok a, s') e k kf =
      Extends-trans k (kf a s' (record { result = e; trace = k })).trace
  continue-Extends m f (err e', s') e k kf = k
  continue-Extends m f (panic, s') e k kf = k

  -- The rest may use what the first part returned.
  pub Sends-bind :
      (m : M A) (f : A → M B)
      → Sends F m s
      → ((a : A) (s' : State) → Reached F m s a s' → Sends F (f a) s')
      → Sends F (m >>= f) s
  unfolding ◌>>=◌
  Sends-bind m f k kf = record { trace = continue-Extends m f (m s) refl k.trace kf }

-- A loop is permitted what its body is, wherever the loop may have got to.
abbrev pub Always : {A : Type 0} → (List Call → Call → Type 0) → M A → State → Type 0
Always F m s = (s' : State) → Extends F s.calls s'.calls → Sends F m s'

module _ {F : List Call → Call → Type 0} where
  pub Sends-ignore : {A : Type 0} (s : State) (m : M A) → Sends F m s → Sends F (ignore m) s
  unfolding ignore
  Sends-ignore s m k = Sends-bind s m (λ _. pure tt) k (λ a s' r. Sends-pure s' tt)

  tried-Extends :
      (h : List Call) (x : Result Bool × State) (again : M Unit)
      → Extends F h x.1.calls
      → ((s' : State) → Extends F h s'.calls → Extends F h (again s').1.calls)
      → Extends F h (tried x again).1.calls
  tried-Extends h (ok true, s') again k go_on = k
  tried-Extends h (ok false, s') again k go_on = go_on s' k
  tried-Extends h (err e, s') again k go_on = k
  tried-Extends h (panic, s') again k go_on = k

  attempts-Extends :
      (h : List Call) (n : ℕ) (test : M Bool)
      → ((s' : State) → Extends F h s'.calls → Sends F test s')
      → (s : State) → Extends F h s.calls
      → Extends F h (attempts n test s).1.calls
  unfolding attempts
  attempts-Extends h zero test k s e = e
  attempts-Extends h (suc n) test k s e =
      tried-Extends h (test s) (attempts n test) (Extends-trans e (k s e).trace)
        (attempts-Extends h n test k)

  module _ {w : World} (laws : WaitLaws w) where
    pub Sends-poll :
        (i t : ℕ) (test : M Bool) (s : State) → Always F test s → Sends F (w.poll i t test) s
    Sends-poll i t test s k = record {
      trace = let (n, e) = laws.polls i t test s in rw e (attempts-Extends s.calls n test k s same);
    }

    pub Sends-backoff :
        (d f n : ℕ) (test : M Bool) (s : State) → Always F test s → Sends F (w.backoff d f n test) s
    Sends-backoff d f steps test s k = record {
      trace =
          let (n, _, e) = laws.backs_off d f steps test s in
          rw e (attempts-Extends s.calls n test k s same);
    }

pub ruleset sends_rules = (
  Sends-pure, Sends-throw, Sends-lift, Sends-gets, Sends-or_wrap, Sends-attempt, Sends-or_gone,
  Sends-if, Sends-ignore, Sends-bind, Sends-send, tt,
)
