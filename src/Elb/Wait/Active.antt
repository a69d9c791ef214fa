-- ===== src/Elb/Wait/Active.antt =====
-- What a mutation guarantees when it succeeds.
use cloud_provider_opentelek.Base.{
  ℕ, zero, suc, ◌≡◌, Bool, true, false, List, ◌∷◌, ◌==◌, arith, Bool-cases, inl, inr, ◌⊎◌, ◌∙◌, sym,
  ap,
}
use cloud_provider_opentelek.Text.{Text, text_eq, text_beq_iff}
use cloud_provider_opentelek.Cloud.{
  World, WaitLaws, State, M, send, pure, throw, lift, attempt, ◌>>=◌, Call, Result, ok, err, panic,
  Error, LoadBalancer, attempts, tried, is_conflict,
}
use cloud_provider_opentelek.Cloud.Exec.Answers.{bind-eq-ok}
use cloud_provider_opentelek.Elb.Wait.{
  active_status, active_test, wait_for_active, mutate, status_active, retry_on_conflict, retry_test,
  settled,
}

-- The last call read the load balancer, and the cloud said that it is active.
pub record IsActive (w : World) (lb_id : Text) (calls : List Call) : Type 0 where
  pub earlier : List Call
  pub balancer : LoadBalancer
  pub last : calls ≡ Call.get_balancer lb_id ∷ earlier
  pub answer : w.answer (Call.get_balancer lb_id) earlier ≡ ok balancer
  pub status : balancer.provisioning_status ≡ status_active

active_status-true :
    (lb_id : Text) (b : LoadBalancer) (s s' : State)
    → active_status lb_id b s ≡ (ok true, s')
    → (b.provisioning_status ≡ status_active) × (s ≡ s')
unfolding active_status pure throw
active_status-true lb_id b s s' e = elim (Bool-cases (b.provisioning_status == status_active)) [
  | inl active ↦ (ground (arith, text_beq_iff b.provisioning_status status_active), ground arith)
  | inr other ↦ absurd (ground arith)
]

active_test-true :
    (w : World) (lb_id : Text) (s s' : State)
    → active_test w lb_id s ≡ (ok true, s')
    → IsActive w lb_id s'.calls
unfolding active_test send
active_test-true w lb_id s s' e =
    let (b, s1, e1, e2) =
      bind-eq-ok (send w (Call.get_balancer lb_id)) (active_status lb_id) s s' true e in
    let (active, same_state) = active_status-true lb_id b s1 s' e2 in
    record {
      earlier = s.calls;
      balancer = b;
      last = ap (λ t. t.calls) (sym same_state) ∙ ap (λ x. x.1.calls) (sym e1);
      answer = ap (λ x. x.0) e1;
      status = active;
    }

-- A loop that ends well ends on a test that said so.
pub tried-ok :
    (x : Result Bool × State) (again : M Unit) (s' : State)
    → tried x again ≡ (ok tt, s')
    → (x ≡ (ok true, s')) ⊎ ((t : State) × (again t ≡ (ok tt, s')))
tried-ok (ok true, t) again s' e = inl (ground arith)
tried-ok (ok false, t) again s' e = inr (t, e)
tried-ok (err f, t) again s' e = absurd (ground arith)
tried-ok (panic, t) again s' e = absurd (ground arith)

attempts-ok :
    (w : World) (lb_id : Text) (n : ℕ) (s s' : State)
    → attempts n (active_test w lb_id) s ≡ (ok tt, s')
    → IsActive w lb_id s'.calls
unfolding attempts
attempts-ok w lb_id zero s s' e = absurd (ground arith)
attempts-ok w lb_id (suc n) s s' e =
    elim (tried-ok (active_test w lb_id s) (attempts n (active_test w lb_id)) s' e) [
      | inl done ↦ active_test-true w lb_id s s' done
      | inr (t, later) ↦ attempts-ok w lb_id n t s' later
    ]

pub wait_for_active-IsActive :
    {w : World} (laws : WaitLaws w) (lb_id : Text) (s s' : State)
    → wait_for_active w lb_id s ≡ (ok tt, s')
    → IsActive w lb_id s'.calls
unfolding wait_for_active
wait_for_active-IsActive {w} laws lb_id s s' e =
    let (n, same_loop) = laws.polls 3000 300000 (active_test w lb_id) s in
    attempts-ok w lb_id n s s' (sym same_loop ∙ e)

-- A mutation that succeeds ends on a read of the load balancer that found it active.
pub mutate-IsActive :
    {w : World} (laws : WaitLaws w) (lb_id : Text) (fn : M Unit) (s s' : State)
    → mutate w lb_id fn s ≡ (ok tt, s')
    → IsActive w lb_id s'.calls
unfolding mutate
mutate-IsActive {w} laws lb_id fn s s' e =
    let (_, s1, _, e2) =
      bind-eq-ok (retry_on_conflict w fn) (λ _. wait_for_active w lb_id) s s' tt e in
    wait_for_active-IsActive laws lb_id s1 s' e2

-- An error other than a conflict ends the retries: the mutation fails with it after one attempt of `fn`,
-- and does not wait.
pub mutate_fails :
    (w : World) (lb_id : Text) (fn : M Unit) (s s1 : State) (e : Error) (k : ℕ)
    → ((test : M Bool) (t : State) → w.backoff 2000 150 6 test t ≡ attempts (suc k) test t)
    → fn s ≡ (err e, s1)
    → is_conflict e ≡ false
    → mutate w lb_id fn s ≡ (err e, s1)
unfolding mutate retry_on_conflict retry_test settled attempts attempt lift ◌>>=◌
mutate_fails w lb_id fn s s1 e k tries failed other = rw (tries (retry_test fn) s, failed, other)
