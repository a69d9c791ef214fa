-- ===== src/Elb/Nodes.antt =====
-- nodeAddress of pkg/elb/elb.go, and lbStatus, the address that a Service is given.
pub mod Address
use cloud_provider_opentelek.Base.{
  ◌&&◌, List, [], ◌∷◌, ◌++◌, Option, none, some, if◌then◌else◌, ◌==◌,
}
use cloud_provider_opentelek.Text.{Text, text_eq}
use cloud_provider_opentelek.Config.{is_empty}
use cloud_provider_opentelek.Kube.{Node, NodeAddress, node_internal_ip, node_external_ip}
use cloud_provider_opentelek.Cloud.{LoadBalancer, PublicIpInfo}

-- The loop over the addresses; `external` is the first external address seen so far.
scan_addresses : List NodeAddress → Text → Option Text
scan_addresses [] external = if is_empty external then none else some external
scan_addresses (a ∷ rest) external =
    let go_on = scan_addresses rest external in
    let take_external = scan_addresses rest a.address in
    if a.kind == node_internal_ip
    then if is_empty a.address then go_on else some a.address
    else if a.kind == node_external_ip && is_empty external
    then take_external
    else go_on

-- `none` is the error that the node has no address.
unfoldable pub node_address : Node → Option Text
unfolding scan_addresses
node_address node = scan_addresses node.addresses []

public_addresses : List PublicIpInfo → List Text
public_addresses [] = []
public_addresses (eip ∷ eips) =
    let rest = public_addresses eips in
    if is_empty eip.public_ip_address then rest else eip.public_ip_address ∷ rest

or_vip : List Text → Text → List Text
or_vip [] vip = if is_empty vip then [] else vip ∷ []
or_vip (a ∷ rest) vip = a ∷ rest

-- `lbStatus`: the addresses under `status.loadBalancer.ingress`.
unfoldable pub lb_status : LoadBalancer → List Text
unfolding public_addresses or_vip
lb_status balancer = or_vip (public_addresses balancer.public_ips) balancer.vip_address
