-- ===== src/Cloud/Exec/Ends.antt =====
-- What holds of the calls when an action ends well, one rule for each way to build an action. The
-- trace comes with it, so that what the cloud has answered earlier stays answered.
use cloud_provider_opentelek.Base.{
  ◌≡◌, refl, Bool, true, false, List, ◌∷◌, if◌then◌else◌, arith, subst,
}
use cloud_provider_opentelek.Cloud.Errors.{Reason, Error, Result, ok, err, panic}
use cloud_provider_opentelek.Cloud.Calls.{Call, Reply}
use cloud_provider_opentelek.Cloud.Exec.{
  State, M, World, pure, throw, lift, attempt, or_wrap, ◌>>=◌, send, caught,
}
use cloud_provider_opentelek.Cloud.Exec.Sends.{
  Extends, Extends-trans, same, more, Sends, Sends-mono, Sends-bind, Sends-attempt, Sends-send,
}
use cloud_provider_opentelek.Cloud.Exec.Answers.{bind-eq-ok, or_wrap-eq-ok}

-- Any call.
abbrev pub Any : List Call → Call → Type 0
Any h c = Unit

-- `Q` of an outcome that is a success.
abbrev On : {A : Type 0} → (A → List Call → Type 0) → Result A × State → Type 0
On Q (ok a, s) = Q a s.calls
On Q (err e, s) = Unit
On Q (panic, s) = Unit

-- Whatever the action sends, and `Q` of the result and the calls where it ends well.
pub record Ends {A : Type 0} (Q : A → List Call → Type 0) (m : M A) (s : State) : Type 0 where
  pub trace : Extends Any s.calls (m s).1.calls
  pub goal : (a : A) (s' : State) → m s ≡ (ok a, s') → Q a s'.calls

pub Any-trace :
    {F : List Call → Call → Type 0} {A : Type 0} {m : M A} {s : State}
    → Sends F m s
    → Extends Any s.calls (m s).1.calls
Any-trace k = (Sends-mono (λ h c _ _. tt) k).trace

-- A fact that no later call takes back.
abbrev pub Lasts : (List Call → Type 0) → Type 0
Lasts R = (h h' : List Call) → Extends Any h h' → R h → R h'

pub Lasts-implies : {P : Type 0} {R : List Call → Type 0} → Lasts R → Lasts (λ h. P → R h)
Lasts-implies keeps h h' e f p = keeps h h' e (f p)

pub Lasts-both : {P R : List Call → Type 0} → Lasts P → Lasts R → Lasts (λ h. P h × R h)
Lasts-both keeps keeps' h h' e both = (keeps h h' e both.0, keeps' h h' e both.1)

module _ {A : Type 0} where
  pub Ends-mono :
      {Q R : A → List Call → Type 0} {m : M A} {s : State}
      → ((a : A) (h : List Call) → Q a h → R a h)
      → Ends Q m s
      → Ends R m s
  Ends-mono f k = record { trace = k.trace; goal = λ a s' e. f a s'.calls (k.goal a s' e) }

  -- What held before still holds after.
  pub Ends-frame :
      {Q : A → List Call → Type 0} {R : List Call → Type 0} {m : M A} {s : State}
      → Lasts R
      → R s.calls
      → Ends Q m s
      → Ends (λ a h. R h × Q a h) m s
  Ends-frame {Q} {R} {m} {s} keeps r k = record {
    trace = k.trace;
    goal = λ a s' e. (
      keeps s.calls s'.calls (subst (λ x. Extends Any s.calls x.1.calls) e k.trace) r,
      k.goal a s' e,
    );
  }

  module _ (Q : A → List Call → Type 0) (s : State) where
    pub Ends-pure : (a : A) → Q a s.calls → Ends Q (pure a) s
    unfolding pure
    Ends-pure a q = record { trace = same; goal = λ b s' e. subst (On Q) e q }

    pub Ends-throw : (e : Error) → Ends Q (throw e) s
    unfolding throw
    Ends-throw e = record { trace = same; goal = λ b s' p. absurd (ground arith) }

    lifted : (r : Result A) → ((a : A) → r ≡ ok a → Q a s.calls) → On Q (r, s)
    lifted (ok a) q = q a refl
    lifted (err e) q = tt
    lifted panic q = tt

    pub Ends-lift : (r : Result A) → ((a : A) → r ≡ ok a → Q a s.calls) → Ends Q (lift r) s
    unfolding lift
    Ends-lift r q = record { trace = same; goal = λ b s' e. subst (On Q) e (lifted r q) }

    pub Ends-or_wrap : (reason : Reason) (m : M A) → Ends Q m s → Ends Q (or_wrap reason m) s
    unfolding or_wrap
    Ends-or_wrap reason m k = record {
      trace = k.trace;
      goal = λ a s' e. k.goal a s' (or_wrap-eq-ok reason m s s' a e);
    }

    pub Ends-if :
        (b : Bool) (m n : M A)
        → (b ≡ true → Ends Q m s)
        → (b ≡ false → Ends Q n s)
        → Ends Q (if b then m else n) s
    Ends-if true m n km kn = km refl
    Ends-if false m n km kn = kn refl

module _ (w : World) (c : Call) (s : State) where
  answered :
      (Q : Reply c → List Call → Type 0) (r : Result (Reply c))
      → ((a : Reply c) → r ≡ ok a → Q a (c ∷ s.calls))
      → On Q (r, record s { calls = c ∷ s.calls })
  answered Q (ok a) q = q a refl
  answered Q (err e) q = tt
  answered Q panic q = tt

  attempted :
      (Q : Result (Reply c) → List Call → Type 0) (r : Result (Reply c))
      → Q r (c ∷ s.calls)
      → On Q (caught (r, record s { calls = c ∷ s.calls }))
  attempted Q (ok a) q = q
  attempted Q (err e) q = q
  attempted Q panic q = tt

  pub Ends-send :
      (Q : Reply c → List Call → Type 0)
      → ((a : Reply c) → w.answer c s.calls ≡ ok a → Q a (c ∷ s.calls))
      → Ends Q (send w c) s
  unfolding send
  Ends-send Q q = record {
    trace = more c same tt;
    goal = λ a s' e. subst (On Q) e (answered Q (w.answer c s.calls) q);
  }

  pub Ends-attempt_send :
      (Q : Result (Reply c) → List Call → Type 0)
      → ((r : Result (Reply c)) → w.answer c s.calls ≡ r → Q r (c ∷ s.calls))
      → Ends Q (attempt (send w c)) s
  unfolding attempt send
  Ends-attempt_send Q q = record {
    trace = Any-trace (Sends-attempt {F = Any} s (send w c) (Sends-send s w c tt));
    goal =
        λ a s' e. subst (On Q) e (attempted Q (w.answer c s.calls) (q (w.answer c s.calls) refl));
  }

module _ {A B : Type 0} {R : A → List Call → Type 0} (Q : B → List Call → Type 0) (s : State) where
  pub Ends-bind :
      (m : M A) (f : A → M B)
      → Ends R m s
      → ((a : A) (s' : State) → m s ≡ (ok a, s') → R a s'.calls → Ends Q (f a) s')
      → Ends Q (m >>= f) s
  Ends-bind m f k kf = record {
    trace = Any-trace (
        Sends-bind {F = Any} s m f (record { trace = k.trace })
          (λ a s' r. record { trace = (kf a s' r.result (k.goal a s' r.result)).trace }));
    goal = λ b s'' e.
        let (a, s', e1, e2) = bind-eq-ok m f s s'' b e in
        (kf a s' e1 (k.goal a s' e1)).goal b s'' e2;
  }

  -- The same, with the calls since a point before it.
  pub Ends-bind_since :
      {start : List Call} (begun : Extends Any start s.calls) (m : M A) (f : A → M B)
      → Ends R m s
      → ((a : A) (s' : State) → Extends Any start s'.calls → R a s'.calls → Ends Q (f a) s')
      → Ends Q (m >>= f) s
  Ends-bind_since begun m f k kf = Ends-bind m f k (λ a s' e r.
      kf a s' (Extends-trans begun (subst (λ x. Extends Any s.calls x.1.calls) e k.trace)) r)
