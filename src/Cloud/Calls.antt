-- ===== src/Cloud/Calls.antt =====
-- The calls that the provider makes, one constructor for each SDK function, and their replies.
use cloud_provider_opentelek.Base.{List}
use cloud_provider_opentelek.Text.{Text}
use cloud_provider_opentelek.Cloud.Errors.{Result}
use cloud_provider_opentelek.Cloud.Resources.{
  LoadBalancer, Listener, Pool, Member, Monitor, IpGroup, BalancerOpts, ListenerOpts,
  ListenerUpdate, PoolOpts, PoolUpdate, MemberOpts, MonitorOpts, MonitorUpdate, IpGroupOpts,
}

pub data Call : Type 0 where
  elb_service network_service : Call
  get_balancer delete_balancer list_balancers : Text → Call
  create_balancer : BalancerOpts → Call
  list_listeners get_listener delete_listener : Text → Call
  create_listener : ListenerOpts → Call
  update_listener : Text → ListenerUpdate → Call
  get_pool delete_pool : Text → Call
  create_pool : PoolOpts → Call
  update_pool : Text → PoolUpdate → Call
  list_members : Text → Call
  create_member : Text → MemberOpts → Call
  delete_member : Text → Text → Call
  get_monitor delete_monitor : Text → Call
  create_monitor : MonitorOpts → Call
  update_monitor : Text → MonitorUpdate → Call
  get_ip_group delete_ip_group : Text → Call
  create_ip_group : IpGroupOpts → Call
  update_ip_group : Text → List Text → Call
  delete_eip : Text → Call

-- A list is fetched by `AllPages` and then taken from the pages, and either step may fail.
abbrev pub Pages : Type 0 → Type 0
Pages A = Result (List A)

abbrev pub Reply : Call → Type 0
Reply (Call.get_balancer _) = LoadBalancer
Reply (Call.list_balancers _) = Pages LoadBalancer
Reply (Call.create_balancer _) = LoadBalancer
Reply (Call.list_listeners _) = Pages Listener
Reply (Call.get_listener _) = Listener
Reply (Call.create_listener _) = Listener
Reply (Call.update_listener _ _) = Listener
Reply (Call.get_pool _) = Pool
Reply (Call.create_pool _) = Pool
Reply (Call.update_pool _ _) = Pool
Reply (Call.list_members _) = Pages Member
Reply (Call.create_member _ _) = Member
Reply (Call.get_monitor _) = Monitor
Reply (Call.create_monitor _) = Monitor
Reply (Call.update_monitor _ _) = Monitor
Reply (Call.get_ip_group _) = IpGroup
Reply (Call.create_ip_group _) = IpGroup
Reply _ = Unit
