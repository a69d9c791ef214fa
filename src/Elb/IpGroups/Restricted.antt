-- ===== src/Elb/IpGroups/Restricted.antt =====
-- The access list of a listener after reconcileIPGroup.
pub mod Whole
use cloud_provider_opentelek.Base.{
  ◌≡◌, ◌≢◌, true, false, List, [], ◌∷◌, ◌||◌, arith, ◌==◌, if◌then◌else◌, inl, inr, ◌⊎◌,
}
use cloud_provider_opentelek.Text.{Text, codes, text_eq}
use cloud_provider_opentelek.Config.{is_empty}
use cloud_provider_opentelek.Kube.{Service, ServicePort}
use cloud_provider_opentelek.Cloud.{World, Call, Listener, IpGroup, ListenerUpdate}
use cloud_provider_opentelek.Cloud.Exec.Ends.{Lasts}
use cloud_provider_opentelek.Cloud.Exec.Gone.{Missing, IsMissing, Replied-Lasts}
use cloud_provider_opentelek.Cloud.Exec.Answers.{Answered, Answered-Extends}
use cloud_provider_opentelek.Cloud.Exec.Done.{Done, Done-Lasts}
use cloud_provider_opentelek.Elb.Names.{resource_name}
use cloud_provider_opentelek.Elb.IpGroups.{ip_list_equal, is_disabled, group_opts, update_ip_group}

abbrev pub attaching : Text → Text → Call
attaching listener_id group_id = Call.update_listener listener_id (
    ListenerUpdate.ip_group
      (record { ip_group_id = group_id; enable = true; kind = codes "white" }))

module _ (w : World) (lb_id : Text) (listener : Listener) (name : Text) (service : Service)
    (port : ServicePort) where
  abbrev pub detaching : Call
  detaching = Call.update_listener listener.id (
      ListenerUpdate.ip_group
        (record { ip_group_id = listener.ip_group.ip_group_id; enable = false; kind = [] }))

  -- The listener lets in the ranges alone: by the group that it had, of the port's name, whose list is equal or was
  -- replaced, and which is enabled or was; or by a new group, where it had none or that one is missing.
  pub data Restricted (ranges : List Text) (h : List Call) : Type 0 where
    reused :
        (g : IpGroup)
        → Answered w (Call.get_ip_group listener.ip_group.ip_group_id) g h
        → g.name ≡ resource_name name port
        → (ip_list_equal g.ip_list ranges ≡ true) ⊎ Done w (Call.update_ip_group g.id ranges) h
        → (is_disabled listener.ip_group.enable ≡ false) ⊎ Done w (attaching listener.id g.id) h
        → Restricted ranges h
    renewed :
        (g : IpGroup)
        → (is_empty listener.ip_group.ip_group_id ≡ true)
          ⊎ Missing w (Call.get_ip_group listener.ip_group.ip_group_id) h
        → Answered w
            (Call.create_ip_group (group_opts w lb_id listener name service port ranges))
            g
            h
        → Done w (attaching listener.id g.id) h
        → Restricted ranges h

  -- The provider's group restricts the listener no more.
  pub data Open (h : List Call) : Type 0 where
    no_group : is_empty listener.ip_group.ip_group_id ≡ true → Open h
    missing : Missing w (Call.get_ip_group listener.ip_group.ip_group_id) h → Open h
    foreign :
        (g : IpGroup)
        → Answered w (Call.get_ip_group listener.ip_group.ip_group_id) g h
        → g.name ≢ resource_name name port
        → Open h
    disabled : is_disabled listener.ip_group.enable ≡ true → Open h
    turned_off : Done w detaching h → Open h

  abbrev pub Guarded : List Text → List Call → Type 0
  Guarded [] h = Open h
  Guarded (r ∷ ranges) h = Restricted (r ∷ ranges) h

module _ (w : World) (lb_id : Text) (listener : Listener) (name : Text) (service : Service)
    (port : ServicePort) where
  listed_or-Lasts : {P : Type 0} (c : Call) → Lasts (λ h. P ⊎ Done w c h)
  listed_or-Lasts c h h' e (inl same) = inl same
  listed_or-Lasts c h h' e (inr done) = inr (Done-Lasts w c h h' e done)

  Restricted-Lasts :
      (ranges : List Text) → Lasts (Restricted w lb_id listener name service port ranges)
  Restricted-Lasts ranges h h' e (reused g read own listed on) =
      reused g (Answered-Extends _ _ e read) own
        (listed_or-Lasts (Call.update_ip_group g.id ranges) h h' e listed)
        (listed_or-Lasts (attaching listener.id g.id) h h' e on)
  Restricted-Lasts ranges h h' e (renewed g (inl none_set) made done) =
      renewed g (inl none_set) (Answered-Extends _ _ e made)
        (Done-Lasts w (attaching listener.id g.id) h h' e done)
  Restricted-Lasts ranges h h' e (renewed g (inr lost) made done) =
      renewed g
        (inr
          (Replied-Lasts w (Call.get_ip_group listener.ip_group.ip_group_id) IsMissing h h' e lost))
        (Answered-Extends _ _ e made) (Done-Lasts w (attaching listener.id g.id) h h' e done)

  Open-Lasts : Lasts (Open w lb_id listener name service port)
  Open-Lasts h h' e (no_group none_set) = no_group none_set
  Open-Lasts h h' e (missing lost) =
      missing
        (Replied-Lasts w (Call.get_ip_group listener.ip_group.ip_group_id) IsMissing h h' e lost)
  Open-Lasts h h' e (foreign g read other) = foreign g (Answered-Extends _ _ e read) other
  Open-Lasts h h' e (disabled off) = disabled off
  Open-Lasts h h' e (turned_off done) =
      turned_off (Done-Lasts w (detaching w lb_id listener name service port) h h' e done)

  pub Guarded-Lasts :
      (ranges : List Text) → Lasts (Guarded w lb_id listener name service port ranges)
  Guarded-Lasts [] = Open-Lasts
  Guarded-Lasts (r ∷ ranges) = Restricted-Lasts (r ∷ ranges)
