-- ===== src/Cloud/Exec/Answers.antt =====
-- What the cloud has answered in the course of a run.
use cloud_provider_opentelek.Base.{◌≡◌, refl, ap, subst, ◌∙◌, sym, List, ◌∷◌, arith}
use cloud_provider_opentelek.Cloud.Errors.{Reason, Error, Result, ok, err, panic}
use cloud_provider_opentelek.Cloud.Calls.{Call, Reply}
use cloud_provider_opentelek.Cloud.Exec.{
  State, M, World, or_wrap, attempt, send, caught, wrapped, ◌>>=◌, lift, throw, continue,
}
use cloud_provider_opentelek.Cloud.Exec.Sends.{Extends, same, more}

-- Among the calls is `c`, and the cloud answered it with `r`.
pub data Answered (w : World) (c : Call) (r : Reply c) : List Call → Type 0 where
  now : {h : List Call} → w.answer c h ≡ ok r → Answered w c r (c ∷ h)
  before : {h : List Call} (d : Call) → Answered w c r h → Answered w c r (d ∷ h)

pub Answered-Extends :
    {F : List Call → Call → Type 0} {w : World} (c : Call) (r : Reply c) {h h' : List Call}
    → Extends F h h'
    → Answered w c r h
    → Answered w c r h'
Answered-Extends c r same a = a
Answered-Extends c r (more d e p) a = before d (Answered-Extends c r e a)

pub send-Answered :
    (w : World) (c : Call) (s s' : State) (r : Reply c)
    → send w c s ≡ (ok r, s')
    → Answered w c r s'.calls
unfolding send
send-Answered w c s s' r e = subst (Answered w c r) (ap (λ x. x.1.calls) e) (now (ap (λ x. x.0) e))

pub or_wrap-eq-ok :
    {A : Type 0} (reason : Reason) (m : M A) (s s' : State) (a : A)
    → or_wrap reason m s ≡ (ok a, s')
    → m s ≡ (ok a, s')
unfolding or_wrap
or_wrap-eq-ok {A} reason m s s' a e = go (m s) e
  where
    go :
        (x : Result A × State)
        → ◌≡◌ {A = Result A × State} (wrapped reason x.0, x.1) (ok a, s')
        → x ≡ (ok a, s')
    go (ok b, t) p = p
    go (err f, t) p = ground arith
    go (panic, t) p = ground arith

pub attempt-eq-ok :
    {A : Type 0} (m : M A) (s s' : State) (a : A) → attempt m s ≡ (ok (ok a), s') → m s ≡ (ok a, s')
unfolding attempt
attempt-eq-ok {A} m s s' a e = go (m s) e
  where
    go : (x : Result A × State) → caught x ≡ (ok (ok a), s') → x ≡ (ok a, s')
    go (ok b, t) p = ground arith
    go (err f, t) p = ground arith
    go (panic, t) p = ground arith

pub or_wrap-send-Answered :
    (w : World) (c : Call) (reason : Reason) (s s' : State) (r : Reply c)
    → or_wrap reason (send w c) s ≡ (ok r, s')
    → Answered w c r s'.calls
or_wrap-send-Answered w c reason s s' r e =
    send-Answered w c s s' r (or_wrap-eq-ok reason (send w c) s s' r e)

pub attempt-send-Answered :
    (w : World) (c : Call) (s s' : State) (r : Reply c)
    → attempt (send w c) s ≡ (ok (ok r), s')
    → Answered w c r s'.calls
attempt-send-Answered w c s s' r e = send-Answered w c s s' r (attempt-eq-ok (send w c) s s' r e)

-- A read adds one call, also where it fails.
pub calls-attempt-send :
    (w : World) (c : Call) (s s' : State) (r : Result (Result (Reply c)))
    → attempt (send w c) s ≡ (r, s')
    → s'.calls ≡ c ∷ s.calls
unfolding attempt send
calls-attempt-send w c s s' r e = sym (ap (λ x. x.1.calls) e) ∙ go (w.answer c s.calls)
  where
    go :
        (x : Result (Reply c))
        → (caught (x, record s { calls = c ∷ s.calls })).1.calls ≡ c ∷ s.calls
    go (ok a) = refl
    go (err f) = refl
    go panic = refl

-- A successful run of two parts is a successful run of each.
pub bind-eq-ok :
    {A B : Type 0} (m : M A) (f : A → M B) (s s'' : State) (b : B)
    → (m >>= f) s ≡ (ok b, s'')
    → (a : A) × (s' : State) × (m s ≡ (ok a, s')) × (f a s' ≡ (ok b, s''))
unfolding ◌>>=◌
bind-eq-ok {A} {B} m f s s'' b e = go (m s) refl e
  where
    go :
        (x : Result A × State)
        → m s ≡ x
        → continue x.0 f x.1 ≡ (ok b, s'')
        → (a : A) × (s' : State) × (m s ≡ (ok a, s')) × (f a s' ≡ (ok b, s''))
    go (ok a, s') p q = (a, s', p, q)
    go (err f, s') p q = ground arith
    go (panic, s') p q = ground arith

pub bind-lift_ok : {A B : Type 0} (a : A) (f : A → M B) → (lift (ok a) >>= f) ≡ f a
unfolding ◌>>=◌ lift
bind-lift_ok a f = refl

pub bind-lift_err : {A B : Type 0} (e : Error) (f : A → M B) → (lift (err e) >>= f) ≡ throw e
unfolding ◌>>=◌ lift throw
bind-lift_err e f = refl
