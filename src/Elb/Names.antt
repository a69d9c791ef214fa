-- ===== src/Elb/Names.antt =====
-- The names and keys of pkg/elb/elb.go: GetLoadBalancerName, the names of sub-resources, ownership
-- by prefix, and the keys by which ports and listeners are matched.
pub mod Keys
pub mod Ownership
use cloud_provider_opentelek.Base.{ℕ, Bool, List, [], ◌∷◌, ◌++◌}
use cloud_provider_opentelek.Text.{Text, codes, has_prefix, cut_string}
use cloud_provider_opentelek.Text.Decimal.{format_nat}
use cloud_provider_opentelek.Kube.{Service, ServicePort}
use cloud_provider_opentelek.Cloud.{Listener}
use cloud_provider_opentelek.Maps.{Dict, insert}

abbrev pub max_resource_name_length : ℕ
max_resource_name_length = 255

-- `GetLoadBalancerName`, before the cut.
abbrev pub full_name : Text → Service → Text
full_name cluster service =
    codes "kube_service_"
    ++ (cluster ++ (codes "_" ++ (service.namespace ++ (codes "_" ++ service.name))))

unfoldable pub load_balancer_name : Text → Service → Text
load_balancer_name cluster service = cut_string (full_name cluster service) max_resource_name_length

-- What `%s_%s_%d` prints of a name and a port.
abbrev pub full_resource_name : Text → ServicePort → Text
full_resource_name name port =
    name ++ (codes "_" ++ (port.protocol ++ (codes "_" ++ format_nat port.port)))

-- The name of the listener, the pool, the monitor and the IP group of a port.
unfoldable pub resource_name : Text → ServicePort → Text
resource_name name port = cut_string (full_resource_name name port) max_resource_name_length

-- `strings.HasPrefix(x.Name, name+"_")`
unfoldable pub is_owned : Text → Text → Bool
is_owned name resource = has_prefix resource (name ++ codes "_")

-- `Kubernetes service %s/%s`
unfoldable pub description : Service → Text
description service =
    codes "Kubernetes service " ++ (service.namespace ++ (codes "/" ++ service.name))

-- `%s/%d`
abbrev pub protocol_key : Text → ℕ → Text
protocol_key protocol port = protocol ++ (codes "/" ++ format_nat port)

unfoldable pub port_key : ServicePort → Text
port_key port = protocol_key port.protocol port.port

unfoldable pub listener_key : Listener → Text
listener_key listener = protocol_key listener.protocol listener.protocol_port

insert_all : List Listener → Dict Listener → Dict Listener
insert_all [] m = m
insert_all (l ∷ ls) m = insert_all ls (insert (listener_key l) l m)

-- `listenersByKey`: of two listeners with one key the later stays.
unfoldable pub listeners_by_key : List Listener → Dict Listener
unfolding insert_all
listeners_by_key items = insert_all items []
