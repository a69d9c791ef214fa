-- ===== src/Elb/Wait/Last.antt =====
-- How a retried function ended: the loop ends with what its last run returned, or is interrupted.
use cloud_provider_opentelek.Base.{
  ℕ, zero, suc, ◌≡◌, refl, sym, subst, ◌∙◌, List, arith, inl, inr, ◌⊎◌, Bool-cases,
}
use cloud_provider_opentelek.Text.{Text}
use cloud_provider_opentelek.Cloud.{
  World, WaitLaws, State, M, attempt, lift, Reason, Call, Error, Result, ok, err, panic, attempts,
  is_conflict, is_not_found, interrupted, tried, ◌>>=◌, or_gone, continue,
}
use cloud_provider_opentelek.Cloud.Exec.Sends.{Extends, Extends-mono, Sends, Sends-or_gone}
use cloud_provider_opentelek.Cloud.Exec.Ends.{Any, Lasts, Ends, Ends-bind, Any-trace}
use cloud_provider_opentelek.Cloud.Exec.Gone.{IsGone, or_gone-eq-ok}
use cloud_provider_opentelek.Elb.Wait.{
  wait_for_active, mutate, retry_on_conflict, retry_test, settled,
}
use cloud_provider_opentelek.Elb.Wait.Sent.{
  wait_for_active-Sends, retry_on_conflict-Sends, mutate-Sends,
}

-- The last run of the retried function, from a state that the earlier runs leave as `Inv` says.
pub record Last (Inv : State → Type 0) (fn : M Unit) (r : Result (Unit {0})) (s' : State)
    : Type 0 where
  pub start : State
  pub inv : Inv start
  pub result : fn start ≡ (r, s')

-- Each run of the function that fails keeps `Inv`.
abbrev pub Keeps : (State → Type 0) → M Unit → Type 0
Keeps Inv fn = (t t' : State) (e : Error) → Inv t → fn t ≡ (err e, t') → Inv t'

-- Nothing is asked of the states.
abbrev pub Anywhere : State → Type 0
Anywhere s = Unit

module _ {Inv : State → Type 0} (fn : M Unit) (keeps : Keeps Inv fn) where
  tested :
      (s s' : State) (r x : Result (Unit {0})) (t : State) (again : M Unit)
      → Inv s
      → fn s ≡ (x, t)
      → tried (retry_test fn s) again ≡ (r, s')
      → Last Inv fn r s' ⊎ ((f : Error) × (x ≡ err f) × (again t ≡ (r, s')))
  unfolding retry_test settled attempt lift ◌>>=◌
  tested s s' r (ok u) t again inv run e =
      inl (record { start = s; inv = inv; result = run ∙ (rw run at e) })
  tested s s' r panic t again inv run e =
      inl (record { start = s; inv = inv; result = run ∙ (rw run at e) })
  tested s s' r (err f) t again inv run e = elim (Bool-cases (is_conflict f)) [
    | inl conflict ↦ inr (f, refl, rw (run, conflict) at e)
    | inr other ↦ inl (record { start = s; inv = inv; result = run ∙ (rw (run, other) at e) })
  ]

  attempts-Last :
      (n : ℕ) (s s' : State) (r : Result (Unit {0}))
      → Inv s
      → attempts n (retry_test fn) s ≡ (r, s')
      → Last Inv fn r s' ⊎ (r ≡ err interrupted)
  unfolding attempts
  attempts-Last zero s s' r inv e = inr (ground arith)
  attempts-Last (suc n) s s' r inv e =
      elim (tested s s' r (fn s).0 (fn s).1 (attempts n (retry_test fn)) inv refl e) [
        | inl last ↦ inl last
        | inr (f, failed, later) ↦
            attempts-Last n (fn s).1 s' r
              (keeps s (fn s).1 f inv (subst (λ y. fn s ≡ (y, (fn s).1)) failed refl)) later
      ]

  pub retry-Last :
      {w : World} (laws : WaitLaws w) (s s' : State) (r : Result (Unit {0}))
      → Inv s
      → retry_on_conflict w fn s ≡ (r, s')
      → Last Inv fn r s' ⊎ (r ≡ err interrupted)
  unfolding retry_on_conflict
  retry-Last laws s s' r inv e =
      let (n, _, same_loop) = laws.backs_off 2000 150 6 (retry_test fn) s in
      attempts-Last n s s' r inv (sym same_loop ∙ e)

-- The function settles `Q`: wherever it runs and is done or finds nothing to do, `Q` holds of the calls.
pub record Settles (Q : List Call → Type 0) (fn : M Unit) : Type 0 where
  pub sends : (s : State) → Sends Any fn s
  pub settles : (s s' : State) (r : Result (Unit {0})) → fn s ≡ (r, s') → IsGone r → Q s'.calls

-- The calls of the wait for ACTIVE.
pub data Waits (lb_id : Text) (h : List Call) : Call → Type 0 where
  waits : Waits lb_id h (Call.get_balancer lb_id)

-- A fact that the wait does not take back.
abbrev pub Awaits : Text → (List Call → Type 0) → Type 0
Awaits lb_id Q = (h h' : List Call) → Extends (Waits lb_id) h h' → Q h → Q h'

Lasts-Awaits : {Q : List Call → Type 0} (lb_id : Text) → Lasts Q → Awaits lb_id Q
Lasts-Awaits lb_id keeps h h' e = keeps h h' (Extends-mono (λ _ _ _ _. tt) e)

interrupted_not-IsGone : (r : Result (Unit {0})) → r ≡ err interrupted → ¬ IsGone r
unfolding is_not_found
interrupted_not-IsGone r e gone =
    let bad : IsGone {A = Unit {0}} (err interrupted) = subst IsGone e gone in absurd (ground arith)

module _ {w : World} (laws : WaitLaws w) {Q : List Call → Type 0} where
  retry_gone :
      (fn : M Unit) (s s' : State) (r : Result (Unit {0}))
      → Settles Q fn
      → retry_on_conflict w fn s ≡ (r, s')
      → IsGone r
      → Q s'.calls
  retry_gone fn s s' r k e gone =
      elim (retry-Last {Inv = Anywhere} fn (λ t t' x _ _. tt) laws s s' r tt e) [
        | inl last ↦ k.settles last.start s' r last.result gone
        | inr late ↦ absurd (interrupted_not-IsGone r late gone)
      ]

  mutate_gone :
      (lb_id : Text) (fn : M Unit) (s s' : State) (r : Result (Unit {0}))
      → Awaits lb_id Q
      → Settles Q fn
      → mutate w lb_id fn s ≡ (r, s')
      → IsGone r
      → Q s'.calls
  unfolding mutate ◌>>=◌
  mutate_gone lb_id fn s s' r keeps k e gone = go (retry_on_conflict w fn s) refl e
    where
      go :
          (x : Result (Unit {0}) × State)
          → retry_on_conflict w fn s ≡ x
          → continue x.0 (λ _. wait_for_active w lb_id) x.1 ≡ (r, s')
          → Q s'.calls
      go (ok u, t) run later =
          keeps t.calls s'.calls
            (subst (λ y. Extends (Waits lb_id) t.calls y.1.calls) later
              (wait_for_active-Sends laws lb_id (λ h. waits) t).trace)
            (retry_gone fn s t (ok u) k run tt)
      go (err f, t) run later = retry_gone fn s s' r k (run ∙ later) gone
      go (panic, t) run later = retry_gone fn s s' r k (run ∙ later) gone

  module _ (reason : Reason) (s : State) where
    pub Ends-gone_retry :
        (fn : M Unit) → Settles Q fn → Ends (λ _ h. Q h) (or_gone reason (retry_on_conflict w fn)) s
    Ends-gone_retry fn k = record {
      trace = Any-trace (
          Sends-or_gone {F = Any} s reason (retry_on_conflict w fn)
            (retry_on_conflict-Sends laws fn s (λ t _. k.sends t)));
      goal = λ _ s' e.
          let (r, run, gone) = or_gone-eq-ok reason (retry_on_conflict w fn) s s' e in
          retry_gone fn s s' r k run gone;
    }

    pub Ends-gone_mutate_await :
        (lb_id : Text) (fn : M Unit)
        → Awaits lb_id Q
        → Settles Q fn
        → Ends (λ _ h. Q h) (or_gone reason (mutate w lb_id fn)) s
    Ends-gone_mutate_await lb_id fn keeps k = record {
      trace = Any-trace (
          Sends-or_gone {F = Any} s reason (mutate w lb_id fn)
            (mutate-Sends laws lb_id (λ h. tt) fn s (λ t _. k.sends t)));
      goal = λ _ s' e.
          let (r, run, gone) = or_gone-eq-ok reason (mutate w lb_id fn) s s' e in
          mutate_gone lb_id fn s s' r keeps k run gone;
    }

    pub Ends-gone_mutate :
        (lb_id : Text) (fn : M Unit)
        → Lasts Q
        → Settles Q fn
        → Ends (λ _ h. Q h) (or_gone reason (mutate w lb_id fn)) s
    Ends-gone_mutate lb_id fn keeps = Ends-gone_mutate_await lb_id fn (Lasts-Awaits lb_id keeps)

  -- The success of a retried function, when only that matters.
  pub Ends-retry :
      (s : State) (fn : M Unit)
      → ((t : State) → Ends (λ _ h. Q h) fn t)
      → Ends (λ _ h. Q h) (retry_on_conflict w fn) s
  Ends-retry s fn k = record {
    trace =
        Any-trace
          (retry_on_conflict-Sends {F = Any} laws fn s (λ t _. record { trace = (k t).trace }));
    goal = λ _ s' e.
        elim (retry-Last {Inv = Anywhere} fn (λ t t' x _ _. tt) laws s s' (ok tt) tt e) [
          | inl last ↦ (k last.start).goal tt s' last.result
          | inr late ↦ absurd (ground arith)
        ];
  }

  pub Ends-mutate_await :
      (lb_id : Text) (s : State) (fn : M Unit)
      → Awaits lb_id Q
      → ((t : State) → Ends (λ _ h. Q h) fn t)
      → Ends (λ _ h. Q h) (mutate w lb_id fn) s
  unfolding mutate
  Ends-mutate_await lb_id s fn keeps k =
      Ends-bind (λ _ h. Q h) s (retry_on_conflict w fn) (λ _. wait_for_active w lb_id)
        (Ends-retry s fn k)
        (λ _ t _ q. record {
          trace = (wait_for_active-Sends {F = Any} laws lb_id (λ h. tt) t).trace;
          goal = λ _ s' e.
              keeps t.calls s'.calls
                (subst (λ y. Extends (Waits lb_id) t.calls y.1.calls) e
                  (wait_for_active-Sends laws lb_id (λ h. waits) t).trace)
                q;
        })

  pub Ends-mutate :
      (lb_id : Text) (s : State) (fn : M Unit)
      → Lasts Q
      → ((t : State) → Ends (λ _ h. Q h) fn t)
      → Ends (λ _ h. Q h) (mutate w lb_id fn) s
  Ends-mutate lb_id s fn keeps = Ends-mutate_await lb_id s fn (Lasts-Awaits lb_id keeps)
