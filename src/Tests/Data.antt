-- ===== src/Tests/Data.antt =====
-- The Service, the node and the config of pkg/elb/elb_test.go, over an empty cloud.
use cloud_provider_opentelek.Base.{◌≡◌, refl, List, [], ◌∷◌, none, true, false}
use cloud_provider_opentelek.Base.Int.{pos}
use cloud_provider_opentelek.Text.{Text, codes}
use cloud_provider_opentelek.Maps.{Dict}
use cloud_provider_opentelek.Kube.{Service, ServicePort, Node, node_internal_ip, protocol_tcp}
use cloud_provider_opentelek.Config.{LoadBalancerOpts, default_load_balancer_opts}
use cloud_provider_opentelek.Cloud.{World, State, ok, LoadBalancer, Listener, Pool, Member, Monitor}
use cloud_provider_opentelek.Settings.{
  ServiceSettings, settings_for_service, ann_int, ann_value, ann_bool, ann_text, ann_list,
  health_check_protocol, health_check_url_path, health_check_http_method, annotation_eip_bandwidth,
}
use cloud_provider_opentelek.Elb.Names.{load_balancer_name, resource_name}
use cloud_provider_opentelek.Fake.{fake_world}
use cloud_provider_opentelek.Fake.Resources.{FakeElb, empty_fake}

abbrev pub opts : LoadBalancerOpts
opts = record default_load_balancer_opts {
  subnet_id = codes "subnet-1";
  availability_zones = codes "eu-de-01" ∷ [];
}

abbrev pub http : ServicePort
http = record { protocol = protocol_tcp; port = 80; node_port = 30080 }

abbrev pub https : ServicePort
https = record { protocol = protocol_tcp; port = 443; node_port = 30443 }

abbrev pub web : Service
web = record {
  namespace = codes "default";
  name = codes "web";
  annotations = [];
  ports = http ∷ [];
  session_affinity = codes "None";
  session_affinity_config = none;
  external_traffic_policy = codes "Cluster";
  health_check_node_port = 0;
  load_balancer_ip = [];
  load_balancer_source_ranges = [];
}

abbrev pub node : Text → Text → Node
node name ip = record {
  name = name;
  addresses = record { kind = node_internal_ip; address = ip } ∷ [];
}

abbrev pub nodes : List Node
nodes = node (codes "node-1") (codes "10.0.0.1") ∷ node (codes "node-2") (codes "10.0.0.2") ∷ []

abbrev pub cloud : World
cloud = fake_world empty_fake

abbrev pub start : State
start = record { calls = []; listener = none; pool = none }

abbrev pub cluster : Text
cluster = codes "kubernetes"

abbrev pub name : Text
name = load_balancer_name cluster web

-- What the config and the Service come to.
abbrev pub web_settings : ServiceSettings
web_settings = record {
  load_balancer_id = [];
  subnet_id = codes "subnet-1";
  vpc_id = [];
  availability_zones = codes "eu-de-01" ∷ [];
  l4_flavor_id = [];
  lb_algorithm = codes "ROUND_ROBIN";
  eip_ids = [];
  eip_bandwidth = pos 0;
  eip_type = codes "5_bgp";
  eip_keep = false;
  idle_timeout = pos 0;
  health_check_enabled = true;
  health_check_delay = pos 5;
  health_check_timeout = pos 3;
  health_check_max_retries = pos 3;
  health_check_protocol = [];
  health_check_url_path = [];
  health_check_http_method = [];
}

pub web_settings_lem : settings_for_service opts web ≡ ok web_settings
unfolding settings_for_service ann_int ann_value ann_bool ann_text ann_list health_check_protocol
    health_check_url_path health_check_http_method
web_settings_lem = refl

-- A Service with a bandwidth below zero.
abbrev pub wrong : Service
wrong = record web { annotations = (annotation_eip_bandwidth, codes "-5") ∷ [] }

abbrev pub balancer : LoadBalancer
balancer = record {
  id = codes "lb-0001";
  name = name;
  vip_address = codes "192.168.0.100";
  vip_subnet_cidr_id = codes "subnet-1";
  provisioning_status = codes "ACTIVE";
  public_ips = [];
}

abbrev pub listener : Listener
listener = record {
  id = codes "listener-0002";
  name = resource_name name http;
  protocol = protocol_tcp;
  protocol_port = 80;
  default_pool_id = codes "pool-0003";
  ip_group = record { ip_group_id = []; enable = none };
}

abbrev pub pool : Pool
pool = record {
  id = codes "pool-0003";
  name = resource_name name http;
  lb_method = codes "ROUND_ROBIN";
  monitor_id = codes "monitor-0006";
  persistence = none;
}

abbrev pub member : Text → Text → Member
member id ip = record { id = id; address = ip; protocol_port = 30080 }

abbrev both_members : Dict Member
both_members =
    (codes "member-0004", member (codes "member-0004") (codes "10.0.0.1"))
    ∷ (codes "member-0005", member (codes "member-0005") (codes "10.0.0.2"))
    ∷ []

abbrev pub monitor : Monitor
monitor = record {
  kind = codes "TCP";
  delay = pos 5;
  timeout = pos 3;
  max_retries = pos 3;
  url_path = [];
  http_method = [];
  monitor_port = 0;
}

-- The cloud after a first EnsureLoadBalancer.
abbrev pub running_fake : FakeElb
running_fake = record {
  next_id = 6;
  load_balancers = (balancer.id, balancer) ∷ [];
  listeners = (listener.id, (balancer.id, listener)) ∷ [];
  pools = (pool.id, pool) ∷ [];
  monitors = (pool.monitor_id, (pool.id, monitor)) ∷ [];
  members = (pool.id, both_members) ∷ [];
  eips = [];
  ip_groups = [];
}

abbrev pub running : World
running = fake_world running_fake
