-- ===== src/Elb/Nodes/Address.antt =====
-- nodeAddress against a plain description: the first internal address, else the first external one.
use cloud_provider_opentelek.Base.{
  ◌≡◌, List, [], ◌∷◌, Option, none, some, arith, if◌then◌else◌, ◌==◌, not, ◌&&◌,
}
use cloud_provider_opentelek.Text.{Text, text_eq}
use cloud_provider_opentelek.Config.{is_empty}
use cloud_provider_opentelek.Kube.{Node, NodeAddress, node_internal_ip, node_external_ip}
use cloud_provider_opentelek.Elb.Nodes.{scan_addresses, node_address}

-- The first address of a kind that is not empty.
abbrev pub first_of : Text → List NodeAddress → Option Text
first_of kind [] = none
first_of kind (a ∷ rest) =
    let go_on = first_of kind rest in
    if a.kind == kind && not (is_empty a.address) then some a.address else go_on

abbrev pub or_else : Option Text → Option Text → Option Text
or_else none b = b
or_else (some a) b = some a

abbrev nonempty : Text → Option Text
nonempty t = if is_empty t then none else some t

scan_addresses_lem :
    (addresses : List NodeAddress) (external : Text)
    → scan_addresses addresses external
      ≡ or_else
          (first_of node_internal_ip addresses)
          (or_else (nonempty external) (first_of node_external_ip addresses))
unfolding scan_addresses
scan_addresses_lem [] external = ground arith
scan_addresses_lem (a ∷ rest) external =
    ground (arith, scan_addresses_lem rest external, scan_addresses_lem rest a.address)

-- The internal address is preferred, and among several of a kind the first.
pub node_address_lem :
    (node : Node)
    → node_address node
      ≡ or_else
          (first_of node_internal_ip node.addresses)
          (first_of node_external_ip node.addresses)
unfolding node_address
node_address_lem node = scan_addresses_lem node.addresses []
