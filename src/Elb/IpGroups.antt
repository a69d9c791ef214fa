-- ===== src/Elb/IpGroups.antt =====
-- pkg/elb/ipgroups.go: spec.loadBalancerSourceRanges as a whitelist.
pub mod Compare
pub mod Restricted
use cloud_provider_opentelek.Base.{
  Bool, true, false, not, ◌&&◌, ◌||◌, List, [], ◌∷◌, Option, none, some, if◌then◌else◌, ◌==◌,
  length, nat_eq,
}
use cloud_provider_opentelek.Text.{Text, codes, text_eq}
use cloud_provider_opentelek.Maps.{contains}
use cloud_provider_opentelek.Config.{is_empty}
use cloud_provider_opentelek.Kube.{Service, ServicePort}
use cloud_provider_opentelek.Settings.{keep_nonempty}
use cloud_provider_opentelek.Cloud.{
  World, M, send, pure, throw, lift, attempt, ignore, or_wrap, ◌>>=◌, ◌>>◌, Reason, Call, Listener,
  IpGroup, IpGroupOpts, ListenerUpdate, Result, ok, err, panic, fail, wrap, is_not_found,
}
use cloud_provider_opentelek.Elb.Names.{resource_name, description, is_owned}
use cloud_provider_opentelek.Elb.Wait.{mutate, retry_on_conflict}

-- `normalizeRanges` has the loop of `splitTrim`.
unfoldable pub normalize_ranges : List Text → List Text
normalize_ranges = keep_nonempty

all_in : List Text → List Text → Bool
all_in current [] = true
all_in current (r ∷ ranges) = contains current r && all_in current ranges

-- `ipListEqual`
unfoldable pub ip_list_equal : List Text → List Text → Bool
unfolding all_in
ip_list_equal current ranges = length current == length ranges && all_in current ranges

-- `listener.IpGroup.Enable == nil || !*listener.IpGroup.Enable`
abbrev pub is_disabled : Option Bool → Bool
is_disabled none = true
is_disabled (some enabled) = not enabled

abbrev pub gone_is_done : Result (Unit {0}) → Result (Unit {0})
gone_is_done (ok a) = ok a
gone_is_done (err e) = if is_not_found e then ok tt else err e
gone_is_done panic = panic

-- `if err := …; err != nil && !isNotFound(err) { return err }`
unfoldable pub tolerate_gone : M Unit → M Unit
tolerate_gone m = do reply ← attempt m; lift (gone_is_done reply)

module _ (w : World) (lb_id : Text) where
  unfoldable pub attach_ip_group : Text → Text → M Unit
  attach_ip_group listener_id group_id = or_wrap (Reason.attach_ip_group group_id listener_id) (
      mutate w lb_id (
        ignore (
          send w (
            Call.update_listener listener_id (
              ListenerUpdate.ip_group
                (record { ip_group_id = group_id; enable = true; kind = codes "white" }))))))

  module _ (name : Text) where
    -- The group was read, or the read failed.
    unfoldable pub delete_found_group : Text → Result IpGroup → M Unit
    delete_found_group group_id (err e) =
        if is_not_found e then pure tt else throw (wrap (Reason.get_ip_group group_id) e)
    delete_found_group group_id panic = lift panic
    delete_found_group group_id (ok group) =
        if is_owned name group.name
        then or_wrap (Reason.delete_ip_group group_id)
            (retry_on_conflict w (tolerate_gone (send w (Call.delete_ip_group group_id))))
        else pure tt

    unfoldable pub delete_ip_group : Text → M Unit
    delete_ip_group group_id = if is_empty group_id then pure tt else do
      reply ← attempt (send w (Call.get_ip_group group_id))
      delete_found_group group_id reply

  module _ (listener : Listener) (name : Text) (service : Service) (port : ServicePort) where
    unfoldable pub disable_ip_group : M Unit
    disable_ip_group = or_wrap (Reason.disable_ip_group listener.id) (
        mutate w lb_id (
          ignore (
            send w (
              Call.update_listener listener.id (
                ListenerUpdate.ip_group (record {
                  ip_group_id = listener.ip_group.ip_group_id;
                  enable = false;
                  kind = [];
                }))))))

    -- No ranges are wanted, and a group is attached.
    unfoldable pub unrestrict : Result IpGroup → M Unit
    unrestrict (err e) =
        if is_not_found e
        then pure tt
        else throw (wrap (Reason.get_ip_group listener.ip_group.ip_group_id) e)
    unrestrict panic = lift panic
    unrestrict (ok group) =
        if not (group.name == resource_name name port) || is_disabled listener.ip_group.enable
        then pure tt
        else disable_ip_group

    abbrev pub group_opts : List Text → IpGroupOpts
    group_opts ranges = record {
      name = resource_name name port;
      description = description service;
      ip_list = ranges;
    }

    unfoldable pub new_ip_group : List Text → M Unit
    new_ip_group ranges = do
      group ←
          or_wrap (Reason.create_ip_group listener.id)
            (send w (Call.create_ip_group (group_opts ranges)))
      attach_ip_group listener.id group.id

    unfoldable pub update_ip_group : List Text → IpGroup → M Unit
    update_ip_group ranges group =
        if ip_list_equal group.ip_list ranges
        then pure tt
        else or_wrap (Reason.update_ip_group group.id)
            (retry_on_conflict w (send w (Call.update_ip_group group.id ranges)))

    -- Ranges are wanted, and a group is attached; one that has vanished is replaced.
    unfoldable pub restrict : List Text → Result IpGroup → M Unit
    restrict ranges (err e) =
        if is_not_found e
        then new_ip_group ranges
        else throw (wrap (Reason.get_ip_group listener.ip_group.ip_group_id) e)
    restrict ranges panic = lift panic
    restrict ranges (ok group) =
        if group.name == resource_name name port
        then (do
          update_ip_group ranges group
          if is_disabled listener.ip_group.enable
              then attach_ip_group listener.id group.id
              else pure tt)
        else throw (fail (Reason.foreign_ip_group listener.id group.id))

    unfoldable pub reconcile_ranges : List Text → M Unit
    reconcile_ranges [] = if is_empty listener.ip_group.ip_group_id then pure tt else do
      reply ← attempt (send w (Call.get_ip_group listener.ip_group.ip_group_id))
      unrestrict reply
    reconcile_ranges (r ∷ ranges) =
        if is_empty listener.ip_group.ip_group_id then new_ip_group (r ∷ ranges) else do
          reply ← attempt (send w (Call.get_ip_group listener.ip_group.ip_group_id))
          restrict (r ∷ ranges) reply

    unfoldable pub reconcile_ip_group : M Unit
    reconcile_ip_group = reconcile_ranges (normalize_ranges service.load_balancer_source_ranges)
