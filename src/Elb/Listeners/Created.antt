-- ===== src/Elb/Listeners/Created.antt =====
-- createListener returns what the cloud answered.
use cloud_provider_opentelek.Base.{◌≡◌, refl, subst, ◌∙◌, Option, none, some, arith}
use cloud_provider_opentelek.Text.{Text}
use cloud_provider_opentelek.Kube.{ServicePort}
use cloud_provider_opentelek.Settings.{ServiceSettings}
use cloud_provider_opentelek.Cloud.{
  World, WaitLaws, State, Reason, Call, Result, ok, err, panic, Listener, send, attempt, lift,
  throw, modify, ◌>>=◌,
}
use cloud_provider_opentelek.Cloud.Exec.Gone.{answer_stays}
use cloud_provider_opentelek.Cloud.Exec.Answers.{
  Answered, bind-eq-ok, or_wrap-eq-ok, attempt-send-Answered,
}
use cloud_provider_opentelek.Elb.Wait.Last.{Anywhere}
use cloud_provider_opentelek.Elb.Wait.Kept.{mutate-Final}
use cloud_provider_opentelek.Elb.Listeners.{
  listener_opts, create_listener, captured_listener, assign_listener, deref, set_listener,
}

assigned :
    (reply : Result Listener) (s s' : State)
    → assign_listener reply s ≡ (ok tt, s')
    → (l : Listener) × (reply ≡ ok l) × (s'.listener ≡ some l) × (s.calls ≡ s'.calls)
unfolding assign_listener modify ◌>>=◌ lift throw
assigned (ok l) s s' e = (l, refl, ground arith, ground arith)
assigned (err f) s s' e = absurd (ground arith)
assigned panic s s' e = absurd (ground arith)

captured :
    (s s' : State) (l l' : Listener)
    → captured_listener s ≡ (ok l', s')
    → s.listener ≡ some l
    → (l ≡ l') × (s ≡ s')
unfolding captured_listener
captured s s' l l' e held = go s.listener e held
  where
    go : (o : Option Listener) → deref o s ≡ (ok l', s') → o ≡ some l → (l ≡ l') × (s ≡ s')
    go none p q = absurd (ground arith)
    go (some x) p q = (ground arith, ground arith)

pub create_listener-Answered :
    {w : World} (laws : WaitLaws w) (lb_id name : Text) (settings : ServiceSettings)
    (port : ServicePort) (s s' : State) (l : Listener)
    → create_listener w lb_id name settings port s ≡ (ok l, s')
    → Answered w (Call.create_listener (listener_opts w lb_id name settings port)) l s'.calls
unfolding create_listener
create_listener-Answered {w} laws lb_id name settings port s s' l e =
    let c : Call = Call.create_listener (listener_opts w lb_id name settings port) in
    let (_, s1, _, rest) = bind-eq-ok (set_listener none) _ s s' l e in
    let (_, s2, e2, last) = bind-eq-ok _ (λ _. captured_listener) s1 s' l rest in
    let final =
      mutate-Final laws lb_id Anywhere _ s1 s2 (λ t t' r _ _. tt) tt
        (or_wrap-eq-ok (Reason.create_listener port.port) _ s1 s2 tt e2) in
    let (reply, t, sent, stored) =
      bind-eq-ok (attempt (send w c)) assign_listener final.start final.end tt final.result in
    let (x, same_reply, held, same_calls) = assigned reply t final.end stored in
    let (same_listener, same_state) = captured s2 s' x l last (final.same_vars.listener ∙ held) in
    let answered : Answered w c x final.end.calls =
      subst (Answered w c x) same_calls
        (attempt-send-Answered w c final.start t x (rw same_reply at sent)) in
    answer_stays w c x l final.end.calls s2 s' answered final.trace same_state same_listener
