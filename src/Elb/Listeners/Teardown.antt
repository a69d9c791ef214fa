-- ===== src/Elb/Listeners/Teardown.antt =====
-- What the teardown of a listener may send, and that it sends nothing else.
use cloud_provider_opentelek.Base.{◌≡◌, refl, List, [], ◌∷◌, Option, none, some, In, first, later}
use cloud_provider_opentelek.Text.{Text}
use cloud_provider_opentelek.Config.{is_empty}
use cloud_provider_opentelek.Cloud.{
  World, WaitLaws, State, M, Reason, Call, Result, ok, err, panic, Listener, Pool, Member, IpGroup,
  send, attempt, or_gone,
}
use cloud_provider_opentelek.Cloud.Exec.Sends.{
  Extends-trans, Sends, Always, Sends-pure, Sends-lift, Sends-if, Sends-send, Sends-attempt,
  Sends-bind, Sends-or_wrap, Sends-or_gone, sends_rules,
}
use cloud_provider_opentelek.Cloud.Exec.Answers.{Answered, Answered-Extends, attempt-send-Answered}
use cloud_provider_opentelek.Elb.Names.{is_owned}
use cloud_provider_opentelek.Elb.Wait.{mutate}
use cloud_provider_opentelek.Elb.Wait.Sent.{mutate-Sends, retry_on_conflict-Sends}
use cloud_provider_opentelek.Elb.Members.{list_members}
use cloud_provider_opentelek.Elb.Members.Present.{list_members-Answered}
use cloud_provider_opentelek.Elb.Pools.{find_pool_for_listener, pool_or_none}
use cloud_provider_opentelek.Elb.Monitors.{delete_monitor}
use cloud_provider_opentelek.Elb.IpGroups.{
  delete_ip_group, delete_found_group, tolerate_gone, gone_is_done,
}
use cloud_provider_opentelek.Elb.Listeners.{
  delete_pool_monitor, delete_members, delete_pool, delete_listener,
}
use cloud_provider_opentelek.Elb.Listeners.Permits.{
  Listed, PoolOf, Listed-Extends, PoolOf-Extends, MemberOf-Extends, Teardown, find_pool-PoolOf,
}

module _ {w : World} (laws : WaitLaws w) (lb_id name : Text) (mine : Listener → Type 0) where
  abbrev F : List Call → Call → Type 0
  F = Teardown w lb_id name mine

  gone_mutate-Sends :
      (reason : Reason) (s : State) (fn : M Unit)
      → Always F fn s
      → Sends F (or_gone reason (mutate w lb_id fn)) s
  gone_mutate-Sends reason s fn k =
      Sends-or_gone s reason (mutate w lb_id fn) (mutate-Sends laws lb_id (λ h. tt) fn s k)

  pool_or_none-Sends : (id : Text) (r : Result Pool) (s : State) → Sends F (pool_or_none w id r) s
  pool_or_none-Sends id (ok pool) s = search sends_rules
  pool_or_none-Sends id (err e) s = search sends_rules
  pool_or_none-Sends id panic s = search sends_rules

  find_pool-Sends : (id : Text) (s : State) → Sends F (find_pool_for_listener w id) s
  unfolding find_pool_for_listener
  find_pool-Sends id s = search (sends_rules, pool_or_none-Sends) depth 12

  list_members-Sends : (id : Text) (s : State) → Sends F (list_members w id) s
  unfolding list_members
  list_members-Sends id s = search sends_rules depth 12

  module _ (l : Listener) (is_mine : mine l) where
    delete_pool_monitor-Sends :
        (p : Pool) (s : State)
        → Listed w lb_id l s.calls
        → PoolOf w l.id p s.calls
        → Sends F (delete_pool_monitor w lb_id p) s
    unfolding delete_pool_monitor delete_monitor
    delete_pool_monitor-Sends p s listed pooled =
        Sends-if s (is_empty p.monitor_id) _ _ (λ _. Sends-pure s tt)
          (λ _.
            gone_mutate-Sends (Reason.delete_monitor p.monitor_id) s
              (send w (Call.delete_monitor p.monitor_id))
              (λ t e.
                Sends-send t w (Call.delete_monitor p.monitor_id)
                  (l, p, Listed-Extends w e listed, is_mine, PoolOf-Extends w e pooled, refl)))

    delete_members-Sends :
        (p : Pool) (all xs : List Member) (s : State)
        → Listed w lb_id l s.calls
        → PoolOf w l.id p s.calls
        → Answered w (Call.list_members p.id) (ok all) s.calls
        → ((m : Member) → In m xs → In m all)
        → Sends F (delete_members w lb_id p.id xs) s
    unfolding delete_members
    delete_members-Sends p all [] s listed pooled answered inside = search sends_rules
    delete_members-Sends p all (m ∷ xs) s listed pooled answered inside =
        Sends-bind s
          (or_gone (Reason.delete_member m.id)
            (mutate w lb_id (send w (Call.delete_member p.id m.id))))
          _
          (gone_mutate-Sends (Reason.delete_member m.id) s (send w (Call.delete_member p.id m.id))
            (λ t e. Sends-send t w (Call.delete_member p.id m.id) (
              l,
              p,
              m,
              Listed-Extends w e listed,
              is_mine,
              PoolOf-Extends w e pooled,
              refl,
              MemberOf-Extends w e
                  (record { all = all; answered = answered; member = inside m first }),
              refl,
            )))
          (λ _ t r.
            delete_members-Sends p all xs t (Listed-Extends w r.trace listed)
              (PoolOf-Extends w r.trace pooled) (Answered-Extends _ _ r.trace answered)
              (λ x i. inside x (later m i)))

    delete_pool-Sends :
        (found : Option Pool) (s : State)
        → Listed w lb_id l s.calls
        → ((p : Pool) → found ≡ some p → PoolOf w l.id p s.calls)
        → Sends F (delete_pool w lb_id found) s
    unfolding delete_pool
    delete_pool-Sends none s listed pooled = search sends_rules
    delete_pool-Sends (some p) s listed pooled =
        Sends-bind s (delete_pool_monitor w lb_id p) _
          (delete_pool_monitor-Sends p s listed (pooled p refl))
          (λ _ s1 r1.
            Sends-bind s1 (list_members w p.id) _ (list_members-Sends p.id s1) (λ all s2 r2.
              let e2 = Extends-trans r1.trace r2.trace in
              Sends-bind s2 (delete_members w lb_id p.id all) _
                (delete_members-Sends p all all s2 (Listed-Extends w e2 listed)
                  (PoolOf-Extends w e2 (pooled p refl))
                  (list_members-Answered w p.id s1 s2 all r2.result) (λ m i. i))
                (λ _ s3 r3.
                  gone_mutate-Sends (Reason.delete_pool p.id) s3 (send w (Call.delete_pool p.id))
                    (λ t e.
                      let e4 = Extends-trans (Extends-trans e2 r3.trace) e in
                      Sends-send t w (Call.delete_pool p.id) (
                        l,
                        p,
                        Listed-Extends w e4 listed,
                        is_mine,
                        PoolOf-Extends w e4 (pooled p refl),
                        refl,
                      )))))

  tolerate_gone-Sends : (m : M Unit) (s : State) → Sends F m s → Sends F (tolerate_gone m) s
  unfolding tolerate_gone
  tolerate_gone-Sends m s k =
      Sends-bind s (attempt m) _ (Sends-attempt s m k) (λ r t _. Sends-lift t (gone_is_done r))

  module _ (l : Listener) (is_mine : mine l) where
    delete_found_group-Sends :
        (r : Result IpGroup) (s : State)
        → Listed w lb_id l s.calls
        → ((g : IpGroup)
            → r ≡ ok g
            → Answered w (Call.get_ip_group l.ip_group.ip_group_id) g s.calls)
        → Sends F (delete_found_group w lb_id name l.ip_group.ip_group_id r) s
    unfolding delete_found_group
    delete_found_group-Sends (err e) s listed read = search sends_rules
    delete_found_group-Sends panic s listed read = search sends_rules
    delete_found_group-Sends (ok g) s listed read =
        let c : Call = Call.delete_ip_group l.ip_group.ip_group_id in
        Sends-if s (is_owned name g.name) _ _
          (λ owned. Sends-or_wrap s (Reason.delete_ip_group l.ip_group.ip_group_id) _ (
            retry_on_conflict-Sends laws _ s (λ t e. tolerate_gone-Sends (send w c) t (
              Sends-send t w c (
                l,
                g,
                Listed-Extends w e listed,
                is_mine,
                refl,
                Answered-Extends _ _ e (read g refl),
                owned,
              )))))
          (λ _. Sends-pure s tt)

    delete_ip_group-Sends :
        (s : State)
        → Listed w lb_id l s.calls
        → Sends F (delete_ip_group w lb_id name l.ip_group.ip_group_id) s
    unfolding delete_ip_group
    delete_ip_group-Sends s listed =
        Sends-if s (is_empty l.ip_group.ip_group_id) _ _ (λ _. Sends-pure s tt)
          (λ _.
            let c = Call.get_ip_group l.ip_group.ip_group_id in
            Sends-bind s (attempt (send w c)) _ (Sends-attempt s (send w c) (Sends-send s w c tt))
              (λ r t reached.
                delete_found_group-Sends r t (Listed-Extends w reached.trace listed)
                  (λ g e. attempt-send-Answered w c s t g (rw e at reached.result))))

  -- The teardown of a listener that the cloud has listed sends only reads and deletions of the listener, of the
  -- pool that the cloud named as its default, of the members and the monitor of that pool, and of the IP group
  -- that the listed listener carries, where the cloud gave it a name with the prefix of the Service. Waits are
  -- attempts of their test (`laws`).
  pub delete_listener-Sends :
      (l : Listener) (s : State)
      → mine l
      → Listed w lb_id l s.calls
      → Sends F (delete_listener w lb_id name l) s
  unfolding delete_listener
  delete_listener-Sends l s is_mine listed =
      Sends-bind s (find_pool_for_listener w l.id) _ (find_pool-Sends l.id s) (λ found s1 r1.
        Sends-bind s1 (delete_pool w lb_id found) _
          (delete_pool-Sends l is_mine found s1 (Listed-Extends w r1.trace listed)
            (λ p e. find_pool-PoolOf w l.id s s1 p (rw e at r1.result)))
          (λ _ s2 r2.
            Sends-bind s2
              (or_gone (Reason.delete_listener l.id)
                (mutate w lb_id (send w (Call.delete_listener l.id))))
              _
              (gone_mutate-Sends (Reason.delete_listener l.id) s2
                (send w (Call.delete_listener l.id))
                (λ t e.
                  let past = Extends-trans (Extends-trans r1.trace r2.trace) e in
                  Sends-send t w (Call.delete_listener l.id)
                    (l, Listed-Extends w past listed, is_mine, refl)))
              (λ _ s3 r3. delete_ip_group-Sends l is_mine s3 (
                Listed-Extends w (Extends-trans (Extends-trans r1.trace r2.trace) r3.trace)
                  listed))))
