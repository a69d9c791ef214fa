-- ===== src/Fake/Monitors.antt =====
-- The handlers of monitors and IP groups of pkg/elb/fake_elb_test.go.
use cloud_provider_opentelek.Base.{ℕ, ◌+◌, List, [], Option, none, some}
use cloud_provider_opentelek.Text.{Text, codes, text_eq}
use cloud_provider_opentelek.Maps.{Dict, lookup, insert, erase}
use cloud_provider_opentelek.Cloud.{
  Result, ok, err, http_404, Pool, Monitor, IpGroup, MonitorOpts, MonitorUpdate, IpGroupOpts,
}
use cloud_provider_opentelek.Fake.Resources.{FakeElb, gen_id}

abbrev pub set_monitor : Text → Option Pool → Text → Dict Pool → Dict Pool
set_monitor pool_id none id m = m
set_monitor pool_id (some p) id m = insert pool_id (record p { monitor_id = id }) m

unfoldable pub create_monitor : MonitorOpts → FakeElb → Result Monitor × FakeElb
create_monitor o f =
    let n : ℕ = f.next_id + 1 in
    let id : Text = gen_id (codes "monitor") n in
    let m : Monitor = record {
      kind = o.kind;
      delay = o.delay;
      timeout = o.timeout;
      max_retries = o.max_retries;
      url_path = o.url_path;
      http_method = o.http_method;
      monitor_port = o.monitor_port;
    } in
    (
      ok m,
      record f {
        next_id = n;
        monitors = insert id (o.pool_id, m) f.monitors;
        pools = set_monitor o.pool_id (lookup o.pool_id f.pools) id f.pools;
      },
    )

unfoldable pub update_monitor :
    Text → MonitorUpdate → Option (Text × Monitor) → FakeElb → Result Monitor × FakeElb
update_monitor id u none f = (err http_404, f)
update_monitor id u (some (pool_id, m)) f =
    let m' : Monitor = record m {
      delay = u.delay;
      timeout = u.timeout;
      max_retries = u.max_retries;
      url_path = u.url_path;
      http_method = u.http_method;
    } in
    (ok m', record f { monitors = insert id (pool_id, m') f.monitors })

abbrev pub delete_monitor : Text → Option (Text × Monitor) → FakeElb → Result (Unit {0}) × FakeElb
delete_monitor id none f = (err http_404, f)
delete_monitor id (some (pool_id, _)) f = (
  ok tt,
  record f {
    pools = set_monitor pool_id (lookup pool_id f.pools) [] f.pools;
    monitors = erase id f.monitors;
  },
)

unfoldable pub create_ip_group : IpGroupOpts → FakeElb → Result IpGroup × FakeElb
create_ip_group o f =
    let n : ℕ = f.next_id + 1 in
    let g : IpGroup = record {
      id = gen_id (codes "ipgroup") n;
      name = o.name;
      ip_list = o.ip_list;
    } in
    (ok g, record f { next_id = n; ip_groups = insert g.id g f.ip_groups })

abbrev pub update_ip_group :
    Text → List Text → Option IpGroup → FakeElb → Result (Unit {0}) × FakeElb
update_ip_group id ips none f = (err http_404, f)
update_ip_group id ips (some g) f =
    (ok tt, record f { ip_groups = insert id (record g { ip_list = ips }) f.ip_groups })
