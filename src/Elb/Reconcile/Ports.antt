-- ===== src/Elb/Reconcile/Ports.antt =====
-- What reconcile sends for the IP group and the pool of one port.
use cloud_provider_opentelek.Base.{◌≡◌, refl, List, [], ◌∷◌, In, ◌==◌}
use cloud_provider_opentelek.Text.{Text, text_eq, text_beq_iff}
use cloud_provider_opentelek.Config.{is_empty}
use cloud_provider_opentelek.Kube.{Service, ServicePort, Node}
use cloud_provider_opentelek.Cloud.{
  is_not_found, World, WaitLaws, State, M, Call, Result, ok, err, panic, Listener, IpGroup, send,
  attempt,
}
use cloud_provider_opentelek.Cloud.Exec.Sends.{
  Sends, Always, Sends-pure, Sends-throw, Sends-if, Sends-send, Sends-attempt, Sends-bind,
  Sends-or_wrap, sends_rules,
}
use cloud_provider_opentelek.Cloud.Exec.Answers.{Answered, Answered-Extends, attempt-send-Answered}
use cloud_provider_opentelek.Elb.Names.{resource_name}
use cloud_provider_opentelek.Elb.Wait.{mutate}
use cloud_provider_opentelek.Elb.Wait.Sent.{mutate-Sends, retry_on_conflict-Sends}
use cloud_provider_opentelek.Elb.IpGroups.{
  attach_ip_group, disable_ip_group, unrestrict, group_opts, new_ip_group, update_ip_group,
  restrict, reconcile_ranges, reconcile_ip_group, normalize_ranges, is_disabled, ip_list_equal,
}
use cloud_provider_opentelek.Elb.Reconcile.Permits.{Reconciling}

module _ {w : World} (laws : WaitLaws w) (lb_id name : Text) (service : Service) (nodes : List Node)
    (listener : Listener) (port : ServicePort) (is_port : In port service.ports) where
  abbrev R : List Call → Call → Type 0
  R = Reconciling w lb_id name service nodes

  mutates : (fn : M Unit) (s : State) → Always R fn s → Sends R (mutate w lb_id fn) s
  mutates fn s k = mutate-Sends laws lb_id (λ h. tt) fn s k

  attach-Sends :
      (listener_id id : Text) (s : State) → Sends R (attach_ip_group w lb_id listener_id id) s
  unfolding attach_ip_group
  attach-Sends listener_id id s = Sends-or_wrap s _ _ (mutates _ s (λ t e. search sends_rules))

  disable-Sends : (s : State) → Sends R (disable_ip_group w lb_id listener name service port) s
  unfolding disable_ip_group
  disable-Sends s = Sends-or_wrap s _ _ (mutates _ s (λ t e. search sends_rules))

  unrestrict-Sends :
      (r : Result IpGroup) (s : State) → Sends R (unrestrict w lb_id listener name service port r) s
  unfolding unrestrict
  unrestrict-Sends (err e) s = search sends_rules
  unrestrict-Sends panic s = search sends_rules
  unrestrict-Sends (ok g) s = Sends-if s _ _ _ (λ _. Sends-pure s tt) (λ _. disable-Sends s)

  new_ip_group-Sends :
      (ranges : List Text) (s : State)
      → Sends R (new_ip_group w lb_id listener name service port ranges) s
  unfolding new_ip_group
  new_ip_group-Sends ranges s =
      Sends-bind s _ _
        (Sends-or_wrap s _ _ (
          let permitted : R s.calls
              (Call.create_ip_group (group_opts w lb_id listener name service port ranges)) =
            (port, is_port, refl) in
          Sends-send s w
            (Call.create_ip_group (group_opts w lb_id listener name service port ranges))
            permitted))
        (λ g t r. attach-Sends listener.id g.id t)

  restrict-Sends :
      (ranges : List Text) (r : Result IpGroup) (s : State)
      → ((g : IpGroup)
          → r ≡ ok g
          → Answered w (Call.get_ip_group listener.ip_group.ip_group_id) g s.calls)
      → Sends R (restrict w lb_id listener name service port ranges r) s
  unfolding restrict update_ip_group
  restrict-Sends ranges (err e) s read =
      Sends-if s (is_not_found e) _ _ (λ _. new_ip_group-Sends ranges s) (λ _. Sends-throw s _)
  restrict-Sends ranges panic s read = search sends_rules
  restrict-Sends ranges (ok g) s read =
      Sends-if s (g.name == resource_name name port) _ _
        (λ own.
          let same_name : g.name ≡ resource_name name port =
            (text_beq_iff g.name (resource_name name port)).0 own in
          Sends-bind s _ _
            (Sends-if s (ip_list_equal g.ip_list ranges) _ _ (λ _. Sends-pure s tt)
              (λ _. Sends-or_wrap s _ _ (
                retry_on_conflict-Sends laws _ s (λ t e.
                  let permitted : R t.calls (Call.update_ip_group g.id ranges) = (
                    port,
                    is_port,
                    listener.ip_group.ip_group_id,
                    g,
                    Answered-Extends _ _ e (read g refl),
                    refl,
                    same_name,
                  ) in
                  Sends-send t w (Call.update_ip_group g.id ranges) permitted))))
            (λ _ t _.
              Sends-if t (is_disabled listener.ip_group.enable) _ _
                (λ _. attach-Sends listener.id g.id t) (λ _. Sends-pure t tt)))
        (λ _. Sends-throw s _)

  reconcile_ranges-Sends :
      (ranges : List Text) (s : State)
      → Sends R (reconcile_ranges w lb_id listener name service port ranges) s
  unfolding reconcile_ranges
  reconcile_ranges-Sends [] s =
      Sends-if s (is_empty listener.ip_group.ip_group_id) _ _ (λ _. Sends-pure s tt)
        (λ _.
          Sends-bind s (attempt (send w (Call.get_ip_group listener.ip_group.ip_group_id))) _
            (search sends_rules) (λ r t _. unrestrict-Sends r t))
  reconcile_ranges-Sends (r ∷ ranges) s =
      let c : Call = Call.get_ip_group listener.ip_group.ip_group_id in
      Sends-if s _ _ _ (λ _. new_ip_group-Sends (r ∷ ranges) s)
        (λ _.
          Sends-bind s (attempt (send w c)) _ (Sends-attempt s (send w c) (Sends-send s w c tt))
            (λ reply t reached.
              restrict-Sends (r ∷ ranges) reply t
                (λ g e. attempt-send-Answered w c s t g (rw e at reached.result))))

  pub reconcile_ip_group-Sends :
      (s : State) → Sends R (reconcile_ip_group w lb_id listener name service port) s
  unfolding reconcile_ip_group
  reconcile_ip_group-Sends s =
      reconcile_ranges-Sends (normalize_ranges service.load_balancer_source_ranges) s
