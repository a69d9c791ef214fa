-- ===== src/Fake.antt =====
-- The in-memory cloud of pkg/elb/fake_elb_test.go, against which the source tests a whole lifecycle:
-- here it is the concrete world of the witnesses and tests. A list comes in order of insertion, which
-- the source leaves open.
pub mod Resources
pub mod Monitors
use mathlib.Core.List.Perm
use cloud_provider_opentelek.Base.{
  ◌+◌, ◌||◌, List, [], ◌∷◌, ◌++◌, none, if◌then◌else◌, ◌==◌, refl, arith,
}
use cloud_provider_opentelek.Text.{text_eq, text_beq}
use cloud_provider_opentelek.Maps.{lookup, insert, erase}
use cloud_provider_opentelek.Cloud.{World, WaitLaws, OrderLaws, attempts, Call, Reply, Result, ok}
use cloud_provider_opentelek.Fake.Monitors.{
  create_monitor, update_monitor, delete_monitor, create_ip_group, update_ip_group,
}
use cloud_provider_opentelek.Fake.Resources.{
  found, removed, values, named, listeners_of, create_balancer, create_listener, update_listener,
  create_pool, update_pool, create_member, delete_member, read_value, all_members, FakeElb,
}

-- `fakeELB.handle` and the handlers of the resources.
unfoldable pub handle : (c : Call) → FakeElb → Result (Reply c) × FakeElb
unfolding lookup insert erase text_beq create_balancer create_listener update_listener create_pool
    update_pool create_member create_monitor update_monitor create_ip_group
handle Call.elb_service f = (ok tt, f)
handle Call.network_service f = (ok tt, f)
handle (Call.get_balancer id) f = (found (lookup id f.load_balancers), f)
handle (Call.delete_balancer id) f =
    (removed (lookup id f.load_balancers), record f { load_balancers = erase id f.load_balancers })
handle (Call.list_balancers name) f = (ok (ok (named name (values f.load_balancers))), f)
handle (Call.create_balancer o) f = create_balancer o f
handle (Call.list_listeners lb_id) f = (ok (ok (listeners_of lb_id (values f.listeners))), f)
handle (Call.get_listener id) f = (read_value (lookup id f.listeners), f)
handle (Call.delete_listener id) f =
    (removed (lookup id f.listeners), record f { listeners = erase id f.listeners })
handle (Call.create_listener o) f = create_listener o f
handle (Call.update_listener id u) f = update_listener id u (lookup id f.listeners) f
handle (Call.get_pool id) f = (found (lookup id f.pools), f)
handle (Call.delete_pool id) f = (
  removed (lookup id f.pools),
  record f { pools = erase id f.pools; members = erase id f.members },
)
handle (Call.create_pool o) f = create_pool o f
handle (Call.update_pool id u) f = update_pool id u (lookup id f.pools) f
handle (Call.list_members pool_id) f = (all_members (lookup pool_id f.members), f)
handle (Call.create_member pool_id o) f = create_member pool_id o (lookup pool_id f.members) f
handle (Call.delete_member pool_id id) f = delete_member pool_id id (lookup pool_id f.members) f
handle (Call.get_monitor id) f = (read_value (lookup id f.monitors), f)
handle (Call.delete_monitor id) f = delete_monitor id (lookup id f.monitors) f
handle (Call.create_monitor o) f = create_monitor o f
handle (Call.update_monitor id u) f = update_monitor id u (lookup id f.monitors) f
handle (Call.get_ip_group id) f = (found (lookup id f.ip_groups), f)
handle (Call.delete_ip_group id) f =
    (removed (lookup id f.ip_groups), record f { ip_groups = erase id f.ip_groups })
handle (Call.create_ip_group o) f = create_ip_group o f
handle (Call.update_ip_group id ips) f = update_ip_group id ips (lookup id f.ip_groups) f
handle (Call.delete_eip id) f = (removed (lookup id f.eips), record f { eips = erase id f.eips })

-- The fake after the calls, which come newest first.
unfoldable pub replay : FakeElb → List Call → FakeElb
unfolding handle
replay f [] = f
replay f (c ∷ h) = (handle c (replay f h)).1

-- One attempt in time for each three seconds, the attempts that the backoff is given, and the keys in
-- order of insertion. The SDK returns nil beside an error.
unfoldable pub fake_world : FakeElb → World
unfolding replay attempts
fake_world f = record {
  answer = λ c h. (handle c (replay f h)).0;
  failed_pool = λ h. none;
  poll = λ i t test. attempts 100 test;
  backoff = λ d factor steps test. attempts steps test;
  key_order = λ h keys. keys;
}

pub fake_world-WaitLaws : (f : FakeElb) → WaitLaws (fake_world f)
unfolding fake_world
fake_world-WaitLaws f = record {
  polls = λ i t test s. (100, refl);
  backs_off = λ d factor steps test s. (steps, omega arith, refl);
}

pub fake_world-OrderLaws : (f : FakeElb) → OrderLaws (fake_world f)
unfolding fake_world
fake_world-OrderLaws f = record { permutes = λ h keys. Perm.refl keys }
