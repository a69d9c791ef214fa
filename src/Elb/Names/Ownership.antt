-- ===== src/Elb/Names/Ownership.antt =====
-- Ownership by name prefix: when a resource is recognised as the Service's own.
use cloud_provider_opentelek.Base.{
  ◌≤◌, ◌<◌, ◌≡◌, sym, ◌∙◌, true, ◌∷◌, ◌++◌, arith, length, length-append, ltb, ◌≢◌,
}
use mathlib.Core.List.{append_assoc}
use cloud_provider_opentelek.Text.{Text, codes, has_prefix, cut_string}
use cloud_provider_opentelek.Text.Prefix.{
  has_prefix-split, has_prefix-cut_string, length-cut_string, cut_string-short, length-has_prefix,
}
use cloud_provider_opentelek.Text.Separator.{Lacks, split_at_first, append_cancel}
use cloud_provider_opentelek.Text.Decimal.{format_nat}
use cloud_provider_opentelek.Kube.{Service, ServicePort}
use cloud_provider_opentelek.Elb.Names.{
  full_name, load_balancer_name, full_resource_name, resource_name, is_owned,
}

port_suffix : ServicePort → Text
port_suffix port = port.protocol ++ (codes "_" ++ format_nat port.port)

full_resource_name-split :
    (name : Text) (port : ServicePort)
    → full_resource_name name port ≡ (name ++ codes "_") ++ port_suffix port
unfolding port_suffix
full_resource_name-split name port = sym (append_assoc name (codes "_") (port_suffix port))

owned_short :
    (name : Text) (port : ServicePort)
    → length name < 255
    → is_owned name (resource_name name port) ≡ true
unfolding is_owned resource_name
owned_short name port h = rw full_resource_name-split (
    has_prefix-cut_string 255 (name ++ codes "_") (port_suffix port)
      (omega (arith, length-append name (codes "_"))))

not_owned_long :
    (name : Text) (port : ServicePort)
    → 255 ≤ length name
    → is_owned name (resource_name name port) ≢ true
unfolding is_owned resource_name
not_owned_long name port h owned = omega (
  arith,
  length-has_prefix (cut_string (full_resource_name name port) 255) (name ++ codes "_") owned,
  length-cut_string (full_resource_name name port) 255,
  length-append name (codes "_"),
)

-- What is created for a port under a name is recognised as owned exactly where the name is shorter
-- than 255 bytes; a longer name is not recognised, since the cut drops the underscore.
pub is_owned-resource_name :
    (name : Text) (port : ServicePort)
    → is_owned name (resource_name name port) ≡ ltb (length name) 255
is_owned-resource_name name port = ground (arith, owned_short name port, not_owned_long name port)

abbrev under : Text
under = codes "_"

full_name-split :
    (cluster : Text) (service : Service) (rest : Text)
    → full_name cluster service ++ rest
      ≡ (codes "kube_service_" ++ (cluster ++ under))
        ++ (service.namespace ++ b'_' ∷ (service.name ++ rest))
full_name-split cluster service rest = simp append_assoc

-- The two names are compared past the part that the cluster gives.
separate :
    (cluster : Text) (a b : Service) (suffix rest : Text)
    → Lacks b'_' a.namespace
    → Lacks b'_' a.name
    → Lacks b'_' b.namespace
    → Lacks b'_' b.name
    → full_name cluster b ++ (under ++ suffix) ≡ (full_name cluster a ++ under) ++ rest
    → (a.namespace ≡ b.namespace) × (a.name ≡ b.name)
separate cluster a b suffix rest ha na hb nb e =
    let e' =
      sym (full_name-split cluster b (under ++ suffix))
      ∙ e
      ∙ append_assoc (full_name cluster a) under rest
      ∙ full_name-split cluster a (under ++ rest) in
    let past =
      append_cancel (codes "kube_service_" ++ (cluster ++ under))
        (b.namespace ++ b'_' ∷ (b.name ++ (under ++ suffix)))
        (a.namespace ++ b'_' ∷ (a.name ++ (under ++ rest))) e' in
    let (same_namespace, tails) =
      split_at_first b'_' b.namespace a.namespace (b.name ++ (under ++ suffix))
        (a.name ++ (under ++ rest)) hb ha past in
    let (same_name, _) = split_at_first b'_' b.name a.name suffix rest nb na tails in
    (sym same_namespace, sym same_name)

-- In one cluster two Services whose names hold no underscore (as in Kubernetes) do not claim each
-- other's resources: a resource of `b` that `a` recognises is a resource of `a`. Both names are short.
pub is_owned_exclusive :
    (cluster : Text) (a b : Service) (port : ServicePort)
    → Lacks b'_' a.namespace
    → Lacks b'_' a.name
    → Lacks b'_' b.namespace
    → Lacks b'_' b.name
    → length (full_name cluster a) ≤ 255
    → length (full_resource_name (full_name cluster b) port) ≤ 255
    → is_owned (load_balancer_name cluster a) (resource_name (load_balancer_name cluster b) port)
      ≡ true
    → (a.namespace ≡ b.namespace) × (a.name ≡ b.name)
unfolding is_owned resource_name load_balancer_name port_suffix
is_owned_exclusive cluster a b port ha na hb nb short_a short_b owned =
    let short : length (full_name cluster b) ≤ 255 =
      omega (arith, length-append (full_name cluster b) (codes "_" ++ port_suffix port)) in
    let owned' : has_prefix (full_resource_name (full_name cluster b) port)
          (full_name cluster a ++ under)
        ≡ true =
      rw
        (
          cut_string-short (full_name cluster a) 255 short_a,
          cut_string-short (full_name cluster b) 255 short,
          cut_string-short (full_resource_name (full_name cluster b) port) 255 short_b,
        )
        at owned in
    let (rest, e) =
      has_prefix-split (full_resource_name (full_name cluster b) port)
        (full_name cluster a ++ under) owned' in
    separate cluster a b (port_suffix port) rest ha na hb nb e
