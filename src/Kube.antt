-- ===== src/Kube.antt =====
-- The Kubernetes objects that pkg/elb reads, as far as it reads them. Kubernetes admits only port
-- numbers that are not negative; protocols, affinities and policies are strings there and here.
use cloud_provider_opentelek.Base.{ℕ, List, Option}
use cloud_provider_opentelek.Base.Int.{ℤ}
use cloud_provider_opentelek.Text.{Text, codes}

pub record ServicePort : Type 0 where
  pub protocol : Text
  pub port : ℕ
  pub node_port : ℕ

pub record ClientIpConfig : Type 0 where
  pub timeout_seconds : Option ℤ

pub record SessionAffinityConfig : Type 0 where
  pub client_ip : Option ClientIpConfig

pub record Service : Type 0 where
  pub namespace : Text
  pub name : Text
  pub annotations : List (Text × Text)
  pub ports : List ServicePort
  pub session_affinity : Text
  pub session_affinity_config : Option SessionAffinityConfig
  pub external_traffic_policy : Text
  pub health_check_node_port : ℕ
  pub load_balancer_ip : Text
  pub load_balancer_source_ranges : List Text

pub record NodeAddress : Type 0 where
  pub kind : Text
  pub address : Text

pub record Node : Type 0 where
  pub name : Text
  pub addresses : List NodeAddress

abbrev pub protocol_tcp : Text
protocol_tcp = codes "TCP"

abbrev pub protocol_udp : Text
protocol_udp = codes "UDP"

abbrev pub affinity_client_ip : Text
affinity_client_ip = codes "ClientIP"

abbrev pub traffic_policy_local : Text
traffic_policy_local = codes "Local"

abbrev pub node_internal_ip : Text
node_internal_ip = codes "InternalIP"

abbrev pub node_external_ip : Text
node_external_ip = codes "ExternalIP"
