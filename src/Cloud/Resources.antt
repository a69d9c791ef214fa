-- ===== src/Cloud/Resources.antt =====
-- The SDK's resources and request options, with the fields that pkg/elb reads or sets.
use cloud_provider_opentelek.Base.{ℕ, Bool, List, Option}
use cloud_provider_opentelek.Base.Int.{ℤ}
use cloud_provider_opentelek.Text.{Text}

pub record PublicIpInfo : Type 0 where
  pub public_ip_id : Text
  pub public_ip_address : Text

pub record LoadBalancer : Type 0 where
  pub id : Text
  pub name : Text
  pub vip_address : Text
  pub vip_subnet_cidr_id : Text
  pub provisioning_status : Text
  pub public_ips : List PublicIpInfo

pub record IpGroupBinding : Type 0 where
  pub ip_group_id : Text
  pub enable : Option Bool

pub record Listener : Type 0 where
  pub id : Text
  pub name : Text
  pub protocol : Text
  pub protocol_port : ℕ
  pub default_pool_id : Text
  pub ip_group : IpGroupBinding

pub record SessionPersistence : Type 0 where
  pub kind : Text
  pub persistence_timeout : ℤ

pub record Pool : Type 0 where
  pub id : Text
  pub name : Text
  pub lb_method : Text
  pub monitor_id : Text
  pub persistence : Option SessionPersistence

pub record Member : Type 0 where
  pub id : Text
  pub address : Text
  pub protocol_port : ℕ

pub record Monitor : Type 0 where
  pub kind : Text
  pub delay : ℤ
  pub timeout : ℤ
  pub max_retries : ℤ
  pub url_path : Text
  pub http_method : Text
  pub monitor_port : ℕ

pub record IpGroup : Type 0 where
  pub id : Text
  pub name : Text
  pub ip_list : List Text

pub record PublicIpOpts : Type 0 where
  pub network_type : Text
  pub description : Text
  pub bandwidth_name : Text
  pub bandwidth_size : ℤ
  pub charge_mode : Text
  pub share_type : Text

pub record BalancerOpts : Type 0 where
  pub name : Text
  pub description : Text
  pub vip_subnet_cidr_id : Text
  pub vpc_id : Text
  pub availability_zones : List Text
  pub l4_flavor : Text
  pub vip_address : Text
  pub public_ip_ids : List Text
  pub public_ip : Option PublicIpOpts

pub record ListenerOpts : Type 0 where
  pub load_balancer_id : Text
  pub name : Text
  pub protocol : Text
  pub protocol_port : ℕ
  pub keep_alive_timeout : ℤ

pub record IpGroupUpdate : Type 0 where
  pub ip_group_id : Text
  pub enable : Bool
  pub kind : Text

-- `listeners.UpdateOpts`: the package sets one of the two fields.
pub data ListenerUpdate : Type 0 where
  keep_alive_timeout : ℤ → ListenerUpdate
  ip_group : IpGroupUpdate → ListenerUpdate

pub record PoolOpts : Type 0 where
  pub listener_id : Text
  pub name : Text
  pub protocol : Text
  pub lb_method : Text
  pub description : Text
  pub persistence : Option SessionPersistence

pub record PoolUpdate : Type 0 where
  pub lb_method : Text
  pub persistence : Option SessionPersistence

pub record MemberOpts : Type 0 where
  pub address : Text
  pub protocol_port : ℕ
  pub name : Text
  pub subnet_id : Text

pub record MonitorOpts : Type 0 where
  pub pool_id : Text
  pub name : Text
  pub kind : Text
  pub delay : ℤ
  pub timeout : ℤ
  pub max_retries : ℤ
  pub url_path : Text
  pub http_method : Text
  pub monitor_port : ℕ

pub record MonitorUpdate : Type 0 where
  pub delay : ℤ
  pub timeout : ℤ
  pub max_retries : ℤ
  pub url_path : Text
  pub http_method : Text

pub record IpGroupOpts : Type 0 where
  pub name : Text
  pub description : Text
  pub ip_list : List Text
