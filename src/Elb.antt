-- ===== src/Elb.antt =====
-- pkg/elb: the load balancer controller. The definitions are in the children, one for each resource;
-- what they guarantee is proved in the modules below those.
pub mod Names
pub mod Wait
pub mod Nodes
pub mod Members
pub mod Pools
pub mod Monitors
pub mod IpGroups
pub mod Listeners
pub mod Reconcile
pub mod LoadBalancers
pub mod Balancer
