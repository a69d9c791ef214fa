-- ===== src/Tests/Parts.antt =====
-- The components' theorems at concrete inputs.
use cloud_provider_opentelek.Base.{
  ◌≡◌, ◌≢◌, ◌≤◌, ◌<◌, ◌+◌, ◌*◌, refl, Bool, true, false, [], ◌∷◌, none, some, In, first, arith, ltb,
  length, ◌↔◌, later,
}
use cloud_provider_opentelek.Base.Int.{pos, pos_part}
use cloud_provider_opentelek.Text.{Text, codes, text_beq, cut_string, has_prefix}
use cloud_provider_opentelek.Text.Separator.{Lacks}
use cloud_provider_opentelek.Text.Decimal.{format_nat, atoi}
use cloud_provider_opentelek.Text.Decimal.RoundTrip.{atoi-format_nat}
use cloud_provider_opentelek.Maps.{lookup, contains}
use cloud_provider_opentelek.Kube.{node_internal_ip, node_external_ip}
use cloud_provider_opentelek.Cloud.{
  World, State, M, Call, ok, err, panic, Listener, send, pure, is_conflict, ◌>>=◌, throw, attempts,
  http_404, http_409,
}
use cloud_provider_opentelek.Elb.Names.{
  full_name, full_resource_name, load_balancer_name, resource_name, is_owned, port_key,
  listeners_by_key,
}
use cloud_provider_opentelek.Elb.Names.Ownership.{is_owned-resource_name, is_owned_exclusive}
use cloud_provider_opentelek.Elb.Names.Keys.{lookup-listeners_by_key, protocol_key-injective}
use cloud_provider_opentelek.Elb.Pools.{
  timeout_minutes, reconcile_pool, pool_differs, desired_persistence,
}
use cloud_provider_opentelek.Elb.Pools.Timeout.{timeout_minutes_exact, timeout_minutes_overflow}
use cloud_provider_opentelek.Elb.Pools.Nil.{reconcile_pool_panics}
use cloud_provider_opentelek.Elb.IpGroups.{ip_list_equal}
use cloud_provider_opentelek.Elb.IpGroups.Compare.{
  Distinct, ip_list_equal-exact, ip_list_equal_duplicate,
}
use cloud_provider_opentelek.Settings.{ServiceSettings}
use cloud_provider_opentelek.Elb.Wait.{
  mutate, retry_on_conflict, retry_test, wait_for_active, active_test, active_status, settled,
}
use cloud_provider_opentelek.Elb.Wait.Active.{IsActive, mutate-IsActive, mutate_fails}
use cloud_provider_opentelek.Elb.Nodes.{node_address}
use cloud_provider_opentelek.Elb.Nodes.Address.{node_address_lem, or_else, first_of}
use cloud_provider_opentelek.Fake.{fake_world-WaitLaws, fake_world, handle}
use cloud_provider_opentelek.Tests.Data.{
  node, web, http, running, running_fake, start, cluster, name, web_settings, balancer, listener,
  pool,
}

is_owned-resource_name_example : is_owned name (resource_name name http) ≡ ltb (length name) 255
is_owned-resource_name_example = is_owned-resource_name name http

no_slash : (l : Listener) → In l (listener ∷ []) → Lacks b'/' l.protocol
no_slash _ first = (refl, (refl, (refl, tt)))
no_slash l (later _ i) = elim i [ ]

ascii_namespace : Lacks b'_' web.namespace
ascii_namespace = (refl, (refl, (refl, (refl, (refl, (refl, (refl, tt)))))))

ascii_name : Lacks b'_' web.name
ascii_name = (refl, (refl, (refl, tt)))

short : length (full_resource_name (full_name cluster web) http) ≤ 255
unfolding format_nat
short = omega arith

owned : is_owned name (resource_name name http) ≡ true
unfolding is_owned resource_name load_balancer_name cut_string has_prefix format_nat
owned = refl

is_owned_exclusive_example : (web.namespace ≡ web.namespace) × (web.name ≡ web.name)
is_owned_exclusive_example =
    is_owned_exclusive cluster web web http ascii_namespace ascii_name ascii_namespace ascii_name
      (omega arith) short owned

lookup-listeners_by_key_example :
    ((l : Listener)
      → lookup (port_key http) (listeners_by_key (listener ∷ [])) ≡ some l
      → In l (listener ∷ []) × (l.protocol ≡ http.protocol) × (l.protocol_port ≡ http.port))
    × ((l : Listener)
        → lookup (port_key http) (listeners_by_key (listener ∷ [])) ≡ none
        → In l (listener ∷ [])
        → l.protocol ≡ http.protocol
        → l.protocol_port ≢ http.port)
lookup-listeners_by_key_example =
    lookup-listeners_by_key http (listener ∷ []) (refl, (refl, (refl, tt))) no_slash

timeout_minutes_exact_example :
    (61 ≤ 3600
      → (61 ≤ 60 * pos_part (timeout_minutes (pos 61)))
        × (60 * pos_part (timeout_minutes (pos 61)) < 61 + 60))
    × (3600 ≤ 61 → timeout_minutes (pos 61) ≡ pos 60)
timeout_minutes_exact_example = timeout_minutes_exact 61 (omega arith) (omega arith)

timeout_minutes_overflow_example : timeout_minutes (pos 2147483647) ≡ pos 1
timeout_minutes_overflow_example = timeout_minutes_overflow 2147483647 (omega arith) (omega arith)

abbrev one : Text
one = codes "10.0.0.0/8"

abbrev two : Text
two = codes "192.168.0.0/16"

distinct : Distinct (one ∷ two ∷ [])
unfolding contains text_beq
distinct = (refl, (refl, tt))

ip_list_equal-exact_example : (ip_list_equal (two ∷ one ∷ []) (one ∷ two ∷ []) ≡ true) ↔ (
    (length (two ∷ one ∷ []) ≡ length (one ∷ two ∷ []))
    × ((y : Text) → contains (two ∷ one ∷ []) y ≡ contains (one ∷ two ∷ []) y))
ip_list_equal-exact_example = ip_list_equal-exact (two ∷ one ∷ []) (one ∷ two ∷ []) distinct

ip_list_equal_duplicate_example :
    (ip_list_equal (one ∷ two ∷ []) (one ∷ one ∷ []) ≡ true)
    × (contains (one ∷ two ∷ []) two ≡ true)
    × (contains (one ∷ one ∷ []) two ≡ false)
ip_list_equal_duplicate_example = ip_list_equal_duplicate one two (λ e. ground arith)

atoi-format_nat_example : atoi (format_nat 30080) ≡ some (pos 30080)
atoi-format_nat_example = atoi-format_nat 30080 (omega arith)

protocol_key-injective_example : (codes "TCP" ≡ codes "TCP") × (http.port ≡ http.port)
protocol_key-injective_example =
    protocol_key-injective (codes "TCP") (codes "TCP") http.port http.port
      (refl, (refl, (refl, tt))) (refl, (refl, (refl, tt))) refl

node_address_lem_example :
    node_address (node (codes "node-1") (codes "10.0.0.1"))
    ≡ or_else
        (first_of node_internal_ip (node (codes "node-1") (codes "10.0.0.1")).addresses)
        (first_of node_external_ip (node (codes "node-1") (codes "10.0.0.1")).addresses)
node_address_lem_example = node_address_lem (node (codes "node-1") (codes "10.0.0.1"))

-- A mutation that does nothing, on an active load balancer.
abbrev settled_at : State
settled_at = record start { calls = Call.get_balancer balancer.id ∷ [] }

settles : mutate running balancer.id (pure tt) start ≡ (ok tt, settled_at)
unfolding mutate ◌>>=◌ pure retry_on_conflict fake_world retry_test wait_for_active active_test send
    active_status settled handle lookup text_beq
settles = refl

mutate-IsActive_example : IsActive running balancer.id settled_at.calls
mutate-IsActive_example =
    mutate-IsActive (fake_world-WaitLaws running_fake) balancer.id (pure tt) start settled_at
      settles

six_attempts : (test : M Bool) (t : State) → running.backoff 2000 150 6 test t ≡ attempts 6 test t
unfolding fake_world
six_attempts test t = refl

throws : throw {A = Unit {0}} http_404 start ≡ (err http_404, start)
unfolding throw
throws = refl

other : is_conflict http_404 ≡ false
unfolding is_conflict
other = refl

mutate_fails_example : mutate running balancer.id (throw http_404) start ≡ (err http_404, start)
mutate_fails_example =
    mutate_fails running balancer.id (throw http_404) start start http_404 5 six_attempts throws
      other

-- A cloud that answers every call with a conflict.
abbrev busy : World
busy = record {
  answer = λ c h. err http_409;
  failed_pool = λ h. none;
  poll = λ i t test. attempts 100 test;
  backoff = λ d factor steps test. attempts steps test;
  key_order = λ h keys. keys;
}

abbrev least : ServiceSettings
least = record web_settings { lb_algorithm = codes "LEAST_CONNECTIONS" }

differs : pool_differs least (desired_persistence web) pool ≡ true
unfolding pool_differs desired_persistence text_beq
differs = refl

reconcile_pool_panics_example :
    (reconcile_pool busy balancer.id listener name least web http pool start).0 ≡ panic
reconcile_pool_panics_example =
    reconcile_pool_panics busy balancer.id listener name least web http pool start http_409 5
      (λ h. refl) (λ test t. refl) differs refl
