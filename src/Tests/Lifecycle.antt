-- ===== src/Tests/Lifecycle.antt =====
-- The lifecycle of a Service on the fake cloud, as in pkg/elb/elb_test.go: create, repeat, delete.
use cloud_provider_opentelek.Base.{◌≡◌, refl, Bool, true, false, ◌&&◌, List, [], ◌∷◌, some}
use cloud_provider_opentelek.Text.{
  Text, codes, text_beq, has_prefix, cut_string, split_comma, trim_space, to_upper, one_of,
  parse_bool,
}
use cloud_provider_opentelek.Text.Decimal.{format_nat, atoi}
use cloud_provider_opentelek.Maps.{lookup, insert, erase, keys, contains}
use cloud_provider_opentelek.Settings.{
  ann_value, ann_text, keep_nonempty, split_trim, ann_list, parsed, ann_bool, ann_int,
  health_check_protocol, health_check_url_path, health_check_http_method, settings_for_service,
  ServiceSettings,
}
use cloud_provider_opentelek.Cloud.Exec.{
  pure, throw, lift, gets, attempt, or_wrap, modify, or_gone, ◌>>=◌, send, ignore, attempts,
}
use cloud_provider_opentelek.Elb.Names.{
  load_balancer_name, resource_name, is_owned, description, port_key, listener_key,
  listeners_by_key,
}
use cloud_provider_opentelek.Elb.Wait.{
  active_status, settled, retry_test, active_test, wait_for_active, retry_on_conflict, mutate,
}
use cloud_provider_opentelek.Elb.Nodes.{node_address, lb_status}
use cloud_provider_opentelek.Elb.Members.{
  member_key, wanted_members, have_members, list_members, add_member, add_wanted, add_members,
  remove_member, remove_unwanted, remove_members, sync_members, reconcile_members,
}
use cloud_provider_opentelek.Elb.Pools.{
  add_59, quot_60, clamp_minutes, timeout_minutes, desired_persistence, persistence_equal,
  pool_differs, captured_pool, assign_pool, update_pool, pool_updated, create_pool, reconcile_pool,
  new_pool, ensure_pool, find_pool_for_listener,
}
use cloud_provider_opentelek.Elb.Monitors.{
  desired_probe, must_recreate, is_up_to_date, delete_monitor, create_monitor, update_monitor,
  adjust_monitor, enabled_monitor, disabled_monitor, reconcile_monitor,
}
use cloud_provider_opentelek.Elb.IpGroups.{
  normalize_ranges, ip_list_equal, tolerate_gone, attach_ip_group, delete_found_group,
  delete_ip_group, disable_ip_group, unrestrict, new_ip_group, update_ip_group, restrict,
  reconcile_ranges, reconcile_ip_group,
}
use cloud_provider_opentelek.Elb.Listeners.{
  captured_listener, assign_listener, list_listeners, update_idle_timeout, delete_pool_monitor,
  delete_members, delete_pool, create_listener, delete_listener,
}
use cloud_provider_opentelek.Elb.Reconcile.{
  is_stale, ensure_listener, reconcile_port, reconcile_ports, delete_stale, reconcile,
}
use cloud_provider_opentelek.Elb.LoadBalancers.{
  find_by_name, new_public_ip, balancer_opts, busy_as_conflict, find_load_balancer,
  create_load_balancer, release_eip, release_each, release_eips,
}
use cloud_provider_opentelek.Elb.Balancer.{
  invalid_port, validate_ports, get_load_balancer, obtain, converge, ensure_load_balancer,
  update_pool_of, update_ports, update_found, update_load_balancer, delete_listeners,
  delete_owned_balancer, delete_found, ensure_load_balancer_deleted,
}
use cloud_provider_opentelek.Fake.{
  handle, replay, fake_world, fake_world-WaitLaws, fake_world-OrderLaws,
}
use cloud_provider_opentelek.Fake.Resources.{FakeElb, empty_fake}
use cloud_provider_opentelek.Cloud.{World, State, Result, ok, Call}
use cloud_provider_opentelek.Elb.Balancer.Cleared.{Deleted}
use cloud_provider_opentelek.Elb.Balancer.Cleared.Whole.{ensure_load_balancer_deleted-Deleted}
use cloud_provider_opentelek.Elb.Balancer.Updated.{Updated, update_load_balancer-Updated}
use cloud_provider_opentelek.Elb.Balancer.Told.{Told, get_load_balancer-Told}
use cloud_provider_opentelek.Elb.Balancer.Converged.{Converged, ensure_load_balancer-Converged}
use cloud_provider_opentelek.Tests.Keyed.{keyed, keyed-WaitLaws, keyed-OrderLaws, keyed-MemberLaws}
use cloud_provider_opentelek.Tests.Data.{
  opts, web, nodes, cloud, cluster, start, running, running_fake,
}

abbrev is_read : Call → Bool
is_read Call.elb_service = true
is_read (Call.get_balancer _) = true
is_read (Call.list_balancers _) = true
is_read (Call.list_listeners _) = true
is_read (Call.get_listener _) = true
is_read (Call.get_pool _) = true
is_read (Call.list_members _) = true
is_read (Call.get_monitor _) = true
is_read (Call.get_ip_group _) = true
is_read _ = false

abbrev is_reading : List Call → Bool
is_reading [] = true
is_reading (c ∷ calls) = is_read c && is_reading calls

-- The three operations that change something, on one cloud.
run :
    World → (Result (List Text) × State) × (Result (Unit {0}) × State) × (Result (Unit {0}) × State)
unfolding text_beq has_prefix cut_string split_comma trim_space to_upper one_of parse_bool
    format_nat atoi lookup insert erase keys contains ann_value ann_text keep_nonempty split_trim
    ann_list parsed ann_bool ann_int health_check_protocol health_check_url_path
    health_check_http_method settings_for_service pure throw lift gets attempt or_wrap modify
    or_gone ◌>>=◌ send ignore attempts load_balancer_name resource_name is_owned description
    port_key listener_key listeners_by_key active_status settled retry_test active_test
    wait_for_active retry_on_conflict mutate node_address lb_status member_key wanted_members
    have_members list_members add_member add_wanted add_members remove_member remove_unwanted
    remove_members sync_members reconcile_members add_59 quot_60 clamp_minutes timeout_minutes
    desired_persistence persistence_equal pool_differs captured_pool assign_pool update_pool
    pool_updated create_pool reconcile_pool new_pool ensure_pool find_pool_for_listener
    desired_probe must_recreate is_up_to_date delete_monitor create_monitor update_monitor
    adjust_monitor enabled_monitor disabled_monitor reconcile_monitor normalize_ranges ip_list_equal
    tolerate_gone attach_ip_group delete_found_group delete_ip_group disable_ip_group unrestrict
    new_ip_group update_ip_group restrict reconcile_ranges reconcile_ip_group captured_listener
    assign_listener list_listeners update_idle_timeout delete_pool_monitor delete_members
    delete_pool create_listener delete_listener is_stale ensure_listener reconcile_port
    reconcile_ports delete_stale reconcile find_by_name new_public_ip balancer_opts busy_as_conflict
    find_load_balancer create_load_balancer release_eip release_each release_eips invalid_port
    validate_ports get_load_balancer obtain converge ensure_load_balancer update_pool_of
    update_ports update_found update_load_balancer delete_listeners delete_owned_balancer
    delete_found ensure_load_balancer_deleted handle replay fake_world
run w = (
  ensure_load_balancer w opts cluster web nodes start,
  update_load_balancer w opts cluster web nodes start,
  ensure_load_balancer_deleted w opts cluster web start,
)

-- The first run ends with the address of the load balancer.
first_run : (run cloud).0.0 ≡ ok (codes "192.168.0.100" ∷ [])
unfolding run
first_run = refl

-- A second run finds everything in place: it reads, and changes nothing.
second_run : is_reading (run running).0.1.calls ≡ true
unfolding run
second_run = refl

-- So does an update.
update_run : is_reading (run running).1.1.calls ≡ true
unfolding run
update_run = refl

-- A deletion after the first run leaves nothing on the load balancer.
after_deletion : FakeElb
unfolding run
after_deletion = replay running_fake (run running).2.1.calls

leaves_nothing :
    (after_deletion.load_balancers ≡ [])
    × (after_deletion.listeners ≡ [])
    × (after_deletion.pools ≡ [])
    × (after_deletion.monitors ≡ [])
    × (after_deletion.members ≡ [])
unfolding after_deletion
leaves_nothing = (refl, refl, refl, refl, refl)

abbrev after_ensure : State
after_ensure = (ensure_load_balancer (keyed cloud) opts cluster web nodes start).1

ensures :
    ensure_load_balancer (keyed cloud) opts cluster web nodes start
    ≡ (ok (codes "192.168.0.100" ∷ []), after_ensure)
unfolding run
ensures = refl

ensure_load_balancer-Converged_example :
    (settings : ServiceSettings) × (settings_for_service opts web ≡ ok settings)
    × Converged
        (keyed cloud)
        settings
        (load_balancer_name cluster web)
        web
        nodes
        start.calls
        (codes "192.168.0.100" ∷ [])
        after_ensure.calls
ensure_load_balancer-Converged_example =
    ensure_load_balancer-Converged (keyed-WaitLaws (fake_world-WaitLaws empty_fake))
      (keyed-OrderLaws (fake_world-OrderLaws empty_fake)) (keyed-MemberLaws cloud) opts cluster web
      nodes start after_ensure (codes "192.168.0.100" ∷ []) ensures

abbrev deleted : State
deleted = (ensure_load_balancer_deleted running opts cluster web start).1

deletes : ensure_load_balancer_deleted running opts cluster web start ≡ (ok tt, deleted)
unfolding run
deletes = refl

ensure_load_balancer_deleted-Deleted_example :
    (settings : ServiceSettings) × (settings_for_service opts web ≡ ok settings)
    × Deleted running settings (load_balancer_name cluster web) deleted.calls
ensure_load_balancer_deleted-Deleted_example =
    ensure_load_balancer_deleted-Deleted (fake_world-WaitLaws running_fake) opts cluster web start
      deleted deletes

abbrev updated : State
updated = (update_load_balancer (keyed running) opts cluster web nodes start).1

updates : update_load_balancer (keyed running) opts cluster web nodes start ≡ (ok tt, updated)
unfolding run
updates = refl

update_load_balancer-Updated_example :
    (settings : ServiceSettings) × (settings_for_service opts web ≡ ok settings)
    × Updated
        (keyed running)
        settings
        (load_balancer_name cluster web)
        web
        nodes
        start.calls
        updated.calls
update_load_balancer-Updated_example =
    update_load_balancer-Updated (keyed-WaitLaws (fake_world-WaitLaws running_fake))
      (keyed-OrderLaws (fake_world-OrderLaws running_fake)) (keyed-MemberLaws running) opts cluster
      web nodes start updated updates

abbrev after_get : State
after_get = (get_load_balancer running opts cluster web start).1

gets_status :
    get_load_balancer running opts cluster web start
    ≡ (ok (some (codes "192.168.0.100" ∷ [])), after_get)
unfolding run get_load_balancer
gets_status = refl

get_load_balancer-Told_example :
    (settings : ServiceSettings) × (settings_for_service opts web ≡ ok settings)
    × Told running settings
        (load_balancer_name cluster web)
        (some (codes "192.168.0.100" ∷ []))
        after_get.calls
get_load_balancer-Told_example =
    get_load_balancer-Told running opts cluster web start after_get
      (some (codes "192.168.0.100" ∷ [])) gets_status
