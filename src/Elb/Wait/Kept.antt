-- ===== src/Elb/Wait/Kept.antt =====
-- Waiting changes no variable that a closure has assigned; so after a mutation that succeeds the
-- variables are those that the last run of the function left.
use cloud_provider_opentelek.Base.{
  ℕ, zero, suc, ◌≡◌, refl, subst, ◌∙◌, Bool, true, false, ◌∷◌, arith, inl, inr, Bool-cases, ◌==◌,
}
use cloud_provider_opentelek.Text.{Text, text_eq}
use cloud_provider_opentelek.Cloud.{
  World, WaitLaws, State, M, Call, Result, ok, err, panic, attempts, tried, send, pure, throw,
  ◌>>=◌, continue, LoadBalancer,
}
use cloud_provider_opentelek.Cloud.Exec.Sends.{Extends}
use cloud_provider_opentelek.Cloud.Exec.Answers.{bind-eq-ok}
use cloud_provider_opentelek.Cloud.Exec.Ends.{Any}
use cloud_provider_opentelek.Elb.Wait.{
  active_status, active_test, wait_for_active, mutate, retry_on_conflict, status_active,
  status_error,
}
use cloud_provider_opentelek.Elb.Wait.Sent.{wait_for_active-Sends}
use cloud_provider_opentelek.Elb.Wait.Last.{Keeps, retry-Last}

-- The variables are the same.
pub record SameVars (s t : State) : Type 0 where
  pub listener : t.listener ≡ s.listener
  pub pool : t.pool ≡ s.pool

SameVars-trans : {s t u : State} → SameVars s t → SameVars t u → SameVars s u
SameVars-trans p q = record { listener = q.listener ∙ p.listener; pool = q.pool ∙ p.pool }

active_status-Same :
    (lb_id : Text) (b : LoadBalancer) (s : State) → SameVars s (active_status lb_id b s).1
unfolding active_status pure throw
active_status-Same lb_id b s = elim (Bool-cases (b.provisioning_status == status_active)) [
  | inl active ↦ rw active (record { listener = refl; pool = refl })
  | inr other ↦ elim (Bool-cases (b.provisioning_status == status_error)) [
    | inl broken ↦ rw (other, broken) (record { listener = refl; pool = refl })
    | inr pending ↦ rw (other, pending) (record { listener = refl; pool = refl })
  ]
]

module _ (w : World) (lb_id : Text) where
  active_test-Same : (s : State) → SameVars s (active_test w lb_id s).1
  unfolding active_test send ◌>>=◌
  active_test-Same s = go (w.answer (Call.get_balancer lb_id) s.calls)
    where
      go :
          (r : Result LoadBalancer)
          → SameVars s
              (continue r
                (active_status lb_id)
                (record s { calls = Call.get_balancer lb_id ∷ s.calls })).1
      go (ok b) =
          let k =
            active_status-Same lb_id b (record s { calls = Call.get_balancer lb_id ∷ s.calls }) in
          record { listener = k.listener; pool = k.pool }
      go (err e) = record { listener = refl; pool = refl }
      go panic = record { listener = refl; pool = refl }

  tried-Same :
      (s : State) (x : Result Bool × State) (again : M Unit)
      → SameVars s x.1
      → ((t : State) → SameVars t (again t).1)
      → SameVars s (tried x again).1
  tried-Same s (ok true, t) again k go_on = k
  tried-Same s (ok false, t) again k go_on = SameVars-trans k (go_on t)
  tried-Same s (err e, t) again k go_on = k
  tried-Same s (panic, t) again k go_on = k

  attempts-Same : (n : ℕ) (s : State) → SameVars s (attempts n (active_test w lb_id) s).1
  unfolding attempts
  attempts-Same zero s = record { listener = refl; pool = refl }
  attempts-Same (suc n) s =
      tried-Same s (active_test w lb_id s) (attempts n (active_test w lb_id)) (active_test-Same s)
        (attempts-Same n)

module _ {w : World} (laws : WaitLaws w) (lb_id : Text) where
  wait_for_active-Same : (s : State) → SameVars s (wait_for_active w lb_id s).1
  unfolding wait_for_active
  wait_for_active-Same s =
      let (n, same_loop) = laws.polls 3000 300000 (active_test w lb_id) s in
      rw same_loop (attempts-Same w lb_id n s)

  -- The last run of the function in a mutation that succeeds.
  pub record Final (Inv : State → Type 0) (fn : M Unit) (s' : State) : Type 0 where
    pub start : State
    pub end : State
    pub inv : Inv start
    pub result : fn start ≡ (ok tt, end)
    pub trace : Extends Any end.calls s'.calls
    pub same_vars : SameVars end s'

  pub mutate-Final :
      (Inv : State → Type 0) (fn : M Unit) (s s' : State)
      → Keeps Inv fn
      → Inv s
      → mutate w lb_id fn s ≡ (ok tt, s')
      → Final Inv fn s'
  unfolding mutate
  mutate-Final Inv fn s s' keeps inv e =
      let (_, t, e1, e2) =
        bind-eq-ok (retry_on_conflict w fn) (λ _. wait_for_active w lb_id) s s' tt e in
      elim (retry-Last fn keeps laws s t (ok tt) inv e1) [
        | inl last ↦ record {
          start = last.start;
          end = t;
          inv = last.inv;
          result = last.result;
          trace =
              subst (λ y. Extends Any t.calls y.1.calls) e2
                (wait_for_active-Sends laws lb_id (λ h. tt) t).trace;
          same_vars = subst (λ y. SameVars t y.1) e2 (wait_for_active-Same t);
        }
        | inr late ↦ absurd (ground arith)
      ]
