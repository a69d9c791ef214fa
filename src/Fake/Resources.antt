-- ===== src/Fake/Resources.antt =====
-- The collections of pkg/elb/fake_elb_test.go and the handlers of each resource.
use cloud_provider_opentelek.Base.{
  ℕ, ◌+◌, ◌||◌, List, [], ◌∷◌, ◌++◌, Option, none, some, if◌then◌else◌, ◌==◌, ltb,
}
use cloud_provider_opentelek.Text.{Text, codes, text_eq}
use cloud_provider_opentelek.Text.Decimal.{format_nat}
use cloud_provider_opentelek.Maps.{Dict, lookup, insert, erase}
use cloud_provider_opentelek.Config.{is_empty}
use cloud_provider_opentelek.Cloud.{
  Result, ok, err, http_404, LoadBalancer, Listener, Pool, Member, Monitor, IpGroup, PublicIpInfo,
  PublicIpOpts, BalancerOpts, ListenerOpts, ListenerUpdate, PoolOpts, PoolUpdate, MemberOpts,
}

pub record FakeElb : Type 0 where
  pub next_id : ℕ
  pub load_balancers : Dict LoadBalancer
  pub listeners : Dict (Text × Listener)
  pub pools : Dict Pool
  pub monitors : Dict (Text × Monitor)
  pub members : Dict (Dict Member)
  pub eips : Dict Text
  pub ip_groups : Dict IpGroup

abbrev pub empty_fake : FakeElb
empty_fake = record {
  next_id = 0;
  load_balancers = [];
  listeners = [];
  pools = [];
  monitors = [];
  members = [];
  eips = [];
  ip_groups = [];
}

-- `%s-%04d`
abbrev pub gen_id : Text → ℕ → Text
gen_id prefix n =
    let zeros : Text =
      if ltb n 10
      then codes "000"
      else if ltb n 100
      then codes "00"
      else if ltb n 1000
      then codes "0"
      else [] in
    prefix ++ (codes "-" ++ (zeros ++ format_nat n))

module _ {A : Type 0} where
  abbrev pub found : Option A → Result A
  found none = err http_404
  found (some a) = ok a

  abbrev pub removed : Option A → Result (Unit {0})
  removed none = err http_404
  removed (some _) = ok tt

  abbrev pub values : Dict A → List A
  values [] = []
  values ((_, a) ∷ m) = a ∷ values m

abbrev pub named : Text → List LoadBalancer → List LoadBalancer
named name [] = []
named name (b ∷ items) =
    let rest = named name items in if is_empty name || b.name == name then b ∷ rest else rest

abbrev pub listeners_of : Text → List (Text × Listener) → List Listener
listeners_of lb_id [] = []
listeners_of lb_id ((owner, l) ∷ items) =
    let rest = listeners_of lb_id items in
    if is_empty lb_id || owner == lb_id then l ∷ rest else rest

abbrev pub new_eip : Option PublicIpOpts → ℕ → List PublicIpInfo
new_eip none n = []
new_eip (some _) n =
    record {
      public_ip_id = gen_id (codes "eip") n;
      public_ip_address = codes "80.158.0." ++ format_nat n;
    }
    ∷ []

abbrev pub add_eips : List PublicIpInfo → Dict Text → Dict Text
add_eips [] m = m
add_eips (e ∷ es) m = add_eips es (insert e.public_ip_id e.public_ip_address m)

abbrev pub eip_count : Option PublicIpOpts → ℕ
eip_count none = 0
eip_count (some _) = 1

unfoldable pub create_balancer : BalancerOpts → FakeElb → Result LoadBalancer × FakeElb
create_balancer o f =
    let n : ℕ = f.next_id + 1 in
    let ips : List PublicIpInfo = new_eip o.public_ip (n + 1) in
    let b : LoadBalancer = record {
      id = gen_id (codes "lb") n;
      name = o.name;
      vip_address = if is_empty o.vip_address then codes "192.168.0.100" else o.vip_address;
      vip_subnet_cidr_id = o.vip_subnet_cidr_id;
      provisioning_status = codes "ACTIVE";
      public_ips = ips;
    } in
    (
      ok b,
      record f {
        next_id = n + eip_count o.public_ip;
        load_balancers = insert b.id b f.load_balancers;
        eips = add_eips ips f.eips;
      },
    )

unfoldable pub create_listener : ListenerOpts → FakeElb → Result Listener × FakeElb
create_listener o f =
    let n : ℕ = f.next_id + 1 in
    let l : Listener = record {
      id = gen_id (codes "listener") n;
      name = o.name;
      protocol = o.protocol;
      protocol_port = o.protocol_port;
      default_pool_id = [];
      ip_group = record { ip_group_id = []; enable = none };
    } in
    (ok l, record f { next_id = n; listeners = insert l.id (o.load_balancer_id, l) f.listeners })

abbrev pub changed : ListenerUpdate → Listener → Listener
changed (ListenerUpdate.keep_alive_timeout _) l = l
changed (ListenerUpdate.ip_group g) l = record l {
  ip_group = record { ip_group_id = g.ip_group_id; enable = some g.enable };
}

unfoldable pub update_listener :
    Text → ListenerUpdate → Option (Text × Listener) → FakeElb → Result Listener × FakeElb
update_listener id u none f = (err http_404, f)
update_listener id u (some (owner, l)) f =
    let l' : Listener = changed u l in
    (ok l', record f { listeners = insert id (owner, l') f.listeners })

abbrev pub with_pool :
    Text → Option (Text × Listener) → Text → Dict (Text × Listener) → Dict (Text × Listener)
with_pool id none pool_id m = m
with_pool id (some (owner, l)) pool_id m =
    insert id (owner, record l { default_pool_id = pool_id }) m

unfoldable pub create_pool : PoolOpts → FakeElb → Result Pool × FakeElb
create_pool o f =
    let n : ℕ = f.next_id + 1 in
    let p : Pool = record {
      id = gen_id (codes "pool") n;
      name = o.name;
      lb_method = o.lb_method;
      monitor_id = [];
      persistence = o.persistence;
    } in
    (
      ok p,
      record f {
        next_id = n;
        listeners = with_pool o.listener_id (lookup o.listener_id f.listeners) p.id f.listeners;
        pools = insert p.id p f.pools;
        members = insert p.id [] f.members;
      },
    )

abbrev pub or_old {ℓ} : {A : Type ℓ} → Option A → Option A → Option A
or_old none old = old
or_old (some a) old = some a

unfoldable pub update_pool : Text → PoolUpdate → Option Pool → FakeElb → Result Pool × FakeElb
update_pool id u none f = (err http_404, f)
update_pool id u (some p) f =
    let p' : Pool = record p {
      lb_method = u.lb_method;
      persistence = or_old u.persistence p.persistence;
    } in
    (ok p', record f { pools = insert id p' f.pools })

unfoldable pub create_member :
    Text → MemberOpts → Option (Dict Member) → FakeElb → Result Member × FakeElb
create_member pool_id o none f = (err http_404, f)
create_member pool_id o (some ms) f =
    let n : ℕ = f.next_id + 1 in
    let m : Member = record {
      id = gen_id (codes "member") n;
      address = o.address;
      protocol_port = o.protocol_port;
    } in
    (ok m, record f { next_id = n; members = insert pool_id (insert m.id m ms) f.members })

abbrev pub delete_member :
    Text → Text → Option (Dict Member) → FakeElb → Result (Unit {0}) × FakeElb
delete_member pool_id id none f = (err http_404, f)
delete_member pool_id id (some ms) f =
    (removed (lookup id ms), record f { members = insert pool_id (erase id ms) f.members })

abbrev pub read_value : {A : Type 0} → Option (Text × A) → Result A
read_value none = err http_404
read_value (some (_, a)) = ok a

abbrev pub all_members : Option (Dict Member) → Result (Result (List Member))
all_members none = err http_404
all_members (some ms) = ok (ok (values ms))
