-- ===== src/Elb/IpGroups/Restricted/Whole.antt =====
-- reconcileIPGroup leaves the access list of the Service.
use cloud_provider_opentelek.Base.{
  ◌≡◌, true, false, List, [], ◌∷◌, ◌||◌, not, arith, ◌==◌, if◌then◌else◌, inl, inr, ◌⊎◌, Bool-cases,
}
use cloud_provider_opentelek.Text.{Text, text_eq, text_beq_iff}
use cloud_provider_opentelek.Config.{is_empty}
use cloud_provider_opentelek.Kube.{Service, ServicePort}
use cloud_provider_opentelek.Cloud.{
  World, WaitLaws, State, Reason, Call, Result, ok, err, panic, Listener, IpGroup, send, attempt,
  ignore, pure, or_wrap, is_not_found,
}
use cloud_provider_opentelek.Cloud.Exec.Ends.{
  Ends, Ends-mono, Ends-frame, Ends-pure, Ends-throw, Ends-lift, Ends-or_wrap, Ends-if, Ends-bind,
}
use cloud_provider_opentelek.Cloud.Exec.Gone.{
  Replied, IsMissing, Replied-Lasts, Answered-Lasts, Replied-Answered, Replied-Missing,
  Ends-send_answer, Ends-attempt_reply,
}
use cloud_provider_opentelek.Cloud.Exec.Answers.{Answered}
use cloud_provider_opentelek.Cloud.Exec.Done.{Done, Done-Lasts, send-Done, ignored-Done}
use cloud_provider_opentelek.Elb.Names.{resource_name}
use cloud_provider_opentelek.Elb.Wait.Last.{Ends-mutate, Ends-retry}
use cloud_provider_opentelek.Elb.IpGroups.{
  normalize_ranges, ip_list_equal, is_disabled, attach_ip_group, disable_ip_group, unrestrict,
  group_opts, new_ip_group, update_ip_group, restrict, reconcile_ranges, reconcile_ip_group,
}
use cloud_provider_opentelek.Elb.IpGroups.Restricted.{
  Guarded, Open, Restricted, attaching, detaching, disabled, foreign, listed_or-Lasts, missing,
  no_group, renewed, reused, turned_off,
}

module _ {w : World} (laws : WaitLaws w) (lb_id : Text) (listener : Listener) (name : Text)
    (service : Service) (port : ServicePort) where
  attach-Done :
      (listener_id id : Text) (s : State)
      → Ends (λ _ h. Done w (attaching listener_id id) h) (attach_ip_group w lb_id listener_id id) s
  unfolding attach_ip_group
  attach-Done listener_id id s =
      let c : Call = attaching listener_id id in
      Ends-or_wrap _ s (Reason.attach_ip_group id listener_id) _
        (Ends-mutate laws lb_id s (ignore (send w c)) (Done-Lasts w c) (ignored-Done w c))

  disable-Done :
      (s : State)
      → Ends
          (λ _ h. Done w (detaching w lb_id listener name service port) h)
          (disable_ip_group w lb_id listener name service port)
          s
  unfolding disable_ip_group
  disable-Done s =
      let c : Call = detaching w lb_id listener name service port in
      Ends-or_wrap _ s (Reason.disable_ip_group listener.id) _
        (Ends-mutate laws lb_id s (ignore (send w c)) (Done-Lasts w c) (ignored-Done w c))

  abbrev reading : Call
  reading = Call.get_ip_group listener.ip_group.ip_group_id

  abbrev IsOpen : List Call → Type 0
  IsOpen = Open w lb_id listener name service port

  unrestrict-Open :
      (r : Result IpGroup) (s : State)
      → Replied w reading (λ x. x ≡ r) s.calls
      → Ends (λ _ h. IsOpen h) (unrestrict w lb_id listener name service port r) s
  unfolding unrestrict
  unrestrict-Open (err e) s reply =
      Ends-if _ s (is_not_found e) _ _
        (λ lost. Ends-pure _ s tt (missing (Replied-Missing lost reply))) (λ _. Ends-throw _ s _)
  unrestrict-Open panic s reply = Ends-lift _ s panic (λ a e. absurd (ground arith))
  unrestrict-Open (ok g) s reply =
      Ends-if _ s (not (g.name == resource_name name port) || is_disabled listener.ip_group.enable)
        _ _
        (λ h. Ends-pure _ s tt (elim (Bool-cases (g.name == resource_name name port)) [
          | inl own ↦ disabled (ground arith)
          | inr other ↦
              foreign g (Replied-Answered reply)
                (λ same. ground (arith, text_beq_iff g.name (resource_name name port)))
        ]))
        (λ _. Ends-mono (λ _ h x. turned_off x) (disable-Done s))

  abbrev Renewed : List Text → IpGroup → List Call → Type 0
  Renewed ranges g h =
      Answered w (Call.create_ip_group (group_opts w lb_id listener name service port ranges)) g h
      × Done w (attaching listener.id g.id) h

  new-Renewed :
      (ranges : List Text) (s : State)
      → Ends
          (λ _ h. (g : IpGroup) × Renewed ranges g h)
          (new_ip_group w lb_id listener name service port ranges)
          s
  unfolding new_ip_group
  new-Renewed ranges s =
      let c : Call = Call.create_ip_group (group_opts w lb_id listener name service port ranges) in
      Ends-bind _ s (or_wrap (Reason.create_ip_group listener.id) (send w c)) _
        (Ends-or_wrap _ s (Reason.create_ip_group listener.id) (send w c) (Ends-send_answer w c s))
        (λ g t _ made.
          Ends-mono (λ _ h both. (g, both))
            (Ends-frame (Answered-Lasts w c g) made (attach-Done listener.id g.id t)))

  update-Listed :
      (ranges : List Text) (g : IpGroup) (s : State)
      → Ends
          (λ _ h.
            (ip_list_equal g.ip_list ranges ≡ true) ⊎ Done w (Call.update_ip_group g.id ranges) h)
          (update_ip_group w lb_id listener name service port ranges g)
          s
  unfolding update_ip_group
  update-Listed ranges g s =
      let c : Call = Call.update_ip_group g.id ranges in
      Ends-if _ s (ip_list_equal g.ip_list ranges) _ _ (λ same. Ends-pure _ s tt (inl same))
        (λ _.
          Ends-mono (λ _ h x. inr x)
            (Ends-or_wrap _ s (Reason.update_ip_group g.id) _
              (Ends-retry laws s (send w c) (send-Done w c))))

  enabled-Ends :
      (g : IpGroup) (s : State)
      → Ends
          (λ _ h.
            (is_disabled listener.ip_group.enable ≡ false) ⊎ Done w (attaching listener.id g.id) h)
          (if is_disabled listener.ip_group.enable
            then attach_ip_group w lb_id listener.id g.id
            else pure tt)
          s
  enabled-Ends g s =
      Ends-if _ s (is_disabled listener.ip_group.enable) _ _
        (λ _. Ends-mono (λ _ h x. inr x) (attach-Done listener.id g.id s))
        (λ on. Ends-pure _ s tt (inl on))

  abbrev IsRestricted : List Text → List Call → Type 0
  IsRestricted = Restricted w lb_id listener name service port

  restrict-Restricted :
      (ranges : List Text) (r : Result IpGroup) (s : State)
      → Replied w reading (λ x. x ≡ r) s.calls
      → Ends (λ _ h. IsRestricted ranges h) (restrict w lb_id listener name service port ranges r) s
  unfolding restrict
  restrict-Restricted ranges (err e) s reply =
      Ends-if _ s (is_not_found e) _ _
        (λ lost.
          Ends-mono (λ _ h both. renewed both.1.0 (inr both.0) both.1.1.0 both.1.1.1)
            (Ends-frame (Replied-Lasts w reading IsMissing) (Replied-Missing lost reply)
              (new-Renewed ranges s)))
        (λ _. Ends-throw _ s _)
  restrict-Restricted ranges panic s reply = Ends-lift _ s panic (λ a e. absurd (ground arith))
  restrict-Restricted ranges (ok g) s reply =
      Ends-if _ s (g.name == resource_name name port) _ _
        (λ own.
          Ends-mono
            (λ _ h both.
              reused g both.0 ((text_beq_iff g.name (resource_name name port)).0 own) both.1.0
                both.1.1)
            (Ends-frame (Answered-Lasts w reading g) (Replied-Answered reply) (
              Ends-bind _ s _ _ (update-Listed ranges g s) (λ _ t _ listed.
                Ends-frame
                  (listed_or-Lasts w lb_id listener name service port
                    (Call.update_ip_group g.id ranges))
                  listed (enabled-Ends g t)))))
        (λ _. Ends-throw _ s _)

  ranges-Guarded :
      (ranges : List Text) (s : State)
      → Ends
          (λ _ h. Guarded w lb_id listener name service port ranges h)
          (reconcile_ranges w lb_id listener name service port ranges)
          s
  unfolding reconcile_ranges
  ranges-Guarded [] s =
      Ends-if _ s (is_empty listener.ip_group.ip_group_id) _ _
        (λ none_set. Ends-pure _ s tt (no_group none_set))
        (λ _.
          Ends-bind _ s (attempt (send w reading)) _ (Ends-attempt_reply w reading s)
            (λ r t _ reply. unrestrict-Open r t reply))
  ranges-Guarded (x ∷ ranges) s =
      Ends-if _ s (is_empty listener.ip_group.ip_group_id) _ _
        (λ none_set.
          Ends-mono (λ _ h both. renewed both.0 (inl none_set) both.1.0 both.1.1)
            (new-Renewed (x ∷ ranges) s))
        (λ _.
          Ends-bind _ s (attempt (send w reading)) _ (Ends-attempt_reply w reading s)
            (λ r t _ reply. restrict-Restricted (x ∷ ranges) r t reply))

  -- After reconcileIPGroup succeeds, the listener lets in only the ranges of the Service where it gives some, and the
  -- provider's group restricts it no more where it gives none.
  pub reconcile_ip_group-Guarded :
      (s : State)
      → Ends
          (λ _ h.
            Guarded w lb_id listener name service port
              (normalize_ranges service.load_balancer_source_ranges)
              h)
          (reconcile_ip_group w lb_id listener name service port)
          s
  unfolding reconcile_ip_group
  reconcile_ip_group-Guarded s =
      ranges-Guarded (normalize_ranges service.load_balancer_source_ranges) s
