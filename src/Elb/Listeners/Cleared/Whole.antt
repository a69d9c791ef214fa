-- ===== src/Elb/Listeners/Cleared/Whole.antt =====
-- deleteListener as a whole, with the IP group.
use cloud_provider_opentelek.Base.{◌≡◌, subst, arith, sym, inl, inr, Bool-cases}
use cloud_provider_opentelek.Text.{Text}
use cloud_provider_opentelek.Config.{is_empty}
use cloud_provider_opentelek.Cloud.{
  World, WaitLaws, State, Reason, Call, Result, ok, err, panic, Listener, IpGroup, send, attempt,
  or_gone, is_not_found,
}
use cloud_provider_opentelek.Cloud.Exec.Sends.{Sends-send}
use cloud_provider_opentelek.Cloud.Exec.Ends.{
  Ends, Ends-mono, Ends-frame, Ends-pure, Ends-throw, Ends-lift, Ends-or_wrap, Ends-if, Ends-bind,
}
use cloud_provider_opentelek.Cloud.Exec.Gone.{
  IsGone, Replied, Gone, Replied, Replied-Lasts, send-Gone, Replied-Answered, Replied-Missing,
  Replied-mono, Ends-attempt_reply,
}
use cloud_provider_opentelek.Elb.Names.{is_owned}
use cloud_provider_opentelek.Elb.Wait.{mutate}
use cloud_provider_opentelek.Elb.Wait.Last.{Ends-gone_mutate, Ends-retry}
use cloud_provider_opentelek.Elb.Pools.{find_pool_for_listener}
use cloud_provider_opentelek.Elb.IpGroups.{
  delete_ip_group, delete_found_group, tolerate_gone, gone_is_done,
}
use cloud_provider_opentelek.Elb.Listeners.{delete_pool, delete_listener}
use cloud_provider_opentelek.Elb.Listeners.Cleared.{
  GroupSettled, no_group, missing, foreign, removed, Cleared, PoolSettled-Lasts,
}
use cloud_provider_opentelek.Elb.Listeners.Cleared.Pools.{find_pool-Ends, settled-Ends}

done-IsGone : (r : Result (Unit {0})) → gone_is_done r ≡ ok tt → IsGone r
done-IsGone (ok u) e = tt
done-IsGone (err f) e = elim (Bool-cases (is_not_found f)) [
  | inl lost ↦ lost
  | inr other ↦ absurd (ground arith)
]
done-IsGone panic e = absurd (ground arith)

module _ {w : World} (laws : WaitLaws w) (lb_id name : Text) where
  group_gone-Ends :
      (id : Text) (s : State)
      → Ends
          (λ _ h. Gone w (Call.delete_ip_group id) h)
          (tolerate_gone (send w (Call.delete_ip_group id)))
          s
  unfolding tolerate_gone
  group_gone-Ends id s =
      let c : Call = Call.delete_ip_group id in
      Ends-bind _ s (attempt (send w c)) _ (Ends-attempt_reply w c s) (λ r t _ reply.
        Ends-lift _ t (gone_is_done r) (λ _ e.
          Replied-mono (λ x same_reply. subst IsGone (sym same_reply) (done-IsGone r e)) reply))

  found_group-Ends :
      (id : Text) (r : Result IpGroup) (s : State)
      → Replied w (Call.get_ip_group id) (λ x. x ≡ r) s.calls
      → Ends (λ _ h. GroupSettled w name id h) (delete_found_group w lb_id name id r) s
  unfolding delete_found_group
  found_group-Ends id (err e) s reply =
      Ends-if _ s (is_not_found e) _ _
        (λ lost. Ends-pure _ s tt (missing (Replied-Missing lost reply))) (λ _. Ends-throw _ s _)
  found_group-Ends id panic s reply = Ends-lift _ s panic (λ a e. absurd (ground arith))
  found_group-Ends id (ok g) s reply =
      Ends-if _ s (is_owned name g.name) _ _
        (λ owned.
          Ends-mono (λ _ h gone. removed gone)
            (Ends-or_wrap _ s (Reason.delete_ip_group id) _ (
              Ends-retry laws s (tolerate_gone (send w (Call.delete_ip_group id)))
                (group_gone-Ends id))))
        (λ others. Ends-pure _ s tt (foreign g (Replied-Answered reply) others))

  group-Ends :
      (id : Text) (s : State)
      → Ends (λ _ h. GroupSettled w name id h) (delete_ip_group w lb_id name id) s
  unfolding delete_ip_group
  group-Ends id s =
      let c : Call = Call.get_ip_group id in
      Ends-if _ s (is_empty id) _ _ (λ none_set. Ends-pure _ s tt (no_group none_set))
        (λ _.
          Ends-bind _ s (attempt (send w c)) _ (Ends-attempt_reply w c s)
            (λ r t _ reply. found_group-Ends id r t reply))

  -- A deletion of a listener that succeeds has removed the listener, its pool with the monitor and the listed
  -- members, and its IP group where the Service owns it.
  pub delete_listener-Cleared :
      (l : Listener) (s : State)
      → Ends (λ _ h. Cleared w name l h) (delete_listener w lb_id name l) s
  unfolding delete_listener
  delete_listener-Cleared l s =
      let c : Call = Call.delete_listener l.id in
      Ends-bind _ s (find_pool_for_listener w l.id) _ (find_pool-Ends w l.id s)
        (λ found s1 _ pooled.
          Ends-bind _ s1 (delete_pool w lb_id found) _
            (settled-Ends laws lb_id l.id found s1 pooled)
            (λ _ s2 _ settled.
              Ends-mono
                (λ _ h both. record { pool = both.0; listener = both.1.0; group = both.1.1 })
                (Ends-frame (PoolSettled-Lasts w l.id) settled (
                  Ends-bind _ s2 (or_gone (Reason.delete_listener l.id) (mutate w lb_id (send w c)))
                    _
                    (Ends-gone_mutate laws (Reason.delete_listener l.id) s2 lb_id (send w c)
                      (Replied-Lasts w c IsGone)
                      (record { sends = λ t. Sends-send t w c tt; settles = send-Gone w c }))
                    (λ _ s3 _ gone.
                      Ends-frame (Replied-Lasts w c IsGone) gone
                        (group-Ends l.ip_group.ip_group_id s3))))))
