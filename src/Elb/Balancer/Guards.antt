-- ===== src/Elb/Balancer/Guards.antt =====
-- The checks of EnsureLoadBalancer before it calls the cloud.
use cloud_provider_opentelek.Base.{
  ◌≡◌, ◌≢◌, refl, true, false, ◌||◌, List, [], ◌∷◌, none, some, All, arith, ◌==◌, ◌⊎◌, inl, inr,
  Bool-cases,
}
use cloud_provider_opentelek.Text.{Text, text_eq}
use cloud_provider_opentelek.Config.{LoadBalancerOpts}
use cloud_provider_opentelek.Kube.{Service, ServicePort, Node, protocol_tcp, protocol_udp}
use cloud_provider_opentelek.Settings.{ServiceSettings, settings_for_service}
use cloud_provider_opentelek.Settings.Valid.{settings_for_service_returns}
use cloud_provider_opentelek.Cloud.{
  World, State, Reason, Error, fail, Result, ok, err, panic, throw, pure, lift, ◌>>=◌,
}
use cloud_provider_opentelek.Elb.LoadBalancers.{is_nil}
use cloud_provider_opentelek.Elb.Balancer.{
  invalid_port, validate_ports, converge, ensure_load_balancer,
}

abbrev pub IsSupported : ServicePort → Type 0
IsSupported port = (port.protocol == protocol_tcp || port.protocol == protocol_udp) ≡ true

-- Why a Service is refused, the first reason that applies.
pub data Refusal (opts : LoadBalancerOpts) (service : Service) (nodes : List Node)
    : Error → Type 0 where
  no_ports :
      service.ports ≡ []
      → Refusal opts service nodes (fail (Reason.no_ports service.namespace service.name))
  unsupported :
      (port : ServicePort)
      → service.ports ≢ []
      → invalid_port service.ports ≡ some port
      → ¬ IsSupported port
      → Refusal opts service nodes (fail (Reason.unsupported_protocol port.protocol port.port))
  no_nodes :
      service.ports ≢ []
      → All IsSupported service.ports
      → nodes ≡ []
      → Refusal opts service nodes (fail (Reason.no_nodes service.namespace service.name))
  bad_annotations :
      (e : Error)
      → service.ports ≢ []
      → All IsSupported service.ports
      → nodes ≢ []
      → settings_for_service opts service ≡ err e
      → Refusal opts service nodes e

pub record Admitted (opts : LoadBalancerOpts) (service : Service) (nodes : List Node)
    (settings : ServiceSettings) : Type 0 where
  pub has_ports : service.ports ≢ []
  pub supported : All IsSupported service.ports
  pub has_nodes : nodes ≢ []
  pub accepted : settings_for_service opts service ≡ ok settings

invalid_port-cases :
    (ports : List ServicePort)
    → (All IsSupported ports × (invalid_port ports ≡ none))
      ⊎ ((port : ServicePort) × (invalid_port ports ≡ some port) × ¬ IsSupported port)
unfolding invalid_port
invalid_port-cases [] = inl (tt, refl)
invalid_port-cases (port ∷ ports) =
    elim (Bool-cases (port.protocol == protocol_tcp || port.protocol == protocol_udp)) [
      | inl fine ↦ rw fine (elim (invalid_port-cases ports) [
        | inl (all, e) ↦ inl ((refl, all), e)
        | inr bad ↦ inr bad
      ])
      | inr wrong ↦ inr (port, rw wrong refl, λ s. ground arith)
    ]

is_nil-cases : {A : Type 0} (xs : List A) → (xs ≡ []) ⊎ ((is_nil xs ≡ false) × (xs ≢ []))
is_nil-cases [] = inl refl
is_nil-cases (x ∷ xs) = inr (refl, λ h. ground arith)

Result-cases :
    {A : Type 0} (r : Result A) → r ≢ panic → ((a : A) × (r ≡ ok a)) ⊎ ((e : Error) × (r ≡ err e))
Result-cases (ok a) n = inl (a, refl)
Result-cases (err e) n = inr (e, refl)
Result-cases panic n = absurd (n refl)

module _ (w : World) (opts : LoadBalancerOpts) (cluster : Text) (service : Service)
    (nodes : List Node) (s : State) where
  -- The outcome of the checks, with what EnsureLoadBalancer then does.
  abbrev pub Checked : Type 0
  Checked =
      ((e : Error) × Refusal opts service nodes e
        × (ensure_load_balancer w opts cluster service nodes s ≡ (err e, s)))
      ⊎ ((settings : ServiceSettings) × Admitted opts service nodes settings
          × (ensure_load_balancer w opts cluster service nodes s
              ≡ converge w opts cluster service nodes settings s))

  with_nodes :
      is_nil service.ports ≡ false
      → service.ports ≢ []
      → All IsSupported service.ports
      → invalid_port service.ports ≡ none
      → is_nil nodes ≡ false
      → nodes ≢ []
      → Checked
  unfolding ensure_load_balancer validate_ports ◌>>=◌ lift throw pure
  with_nodes p ports all fine n some_nodes =
      elim (Result-cases (settings_for_service opts service)
        (settings_for_service_returns opts service)) [
          | inl (settings, e) ↦ inr (
            settings,
            record { has_ports = ports; supported = all; has_nodes = some_nodes; accepted = e },
            rw (p, fine, n, e),
          )
          | inr (e, bad) ↦ inl (e, bad_annotations e ports all some_nodes bad, rw (p, fine, n, bad))
        ]

  with_ports :
      is_nil service.ports ≡ false
      → service.ports ≢ []
      → All IsSupported service.ports
      → invalid_port service.ports ≡ none
      → Checked
  unfolding ensure_load_balancer validate_ports ◌>>=◌ throw pure
  with_ports p ports all fine = elim (is_nil-cases nodes) [
    | inl none_left ↦ inl (
      fail (Reason.no_nodes service.namespace service.name),
      no_nodes ports all none_left,
      rw (p, fine, none_left),
    )
    | inr (n, some_nodes) ↦ with_nodes p ports all fine n some_nodes
  ]

  -- EnsureLoadBalancer refuses a Service for the first reason that applies and calls nothing, or the
  -- Service has ports of supported protocols, nodes and annotations that parse, and the load balancer is
  -- brought to it.
  pub ensure_load_balancer_checks : Checked
  unfolding ensure_load_balancer validate_ports ◌>>=◌ throw pure
  ensure_load_balancer_checks = elim (is_nil-cases service.ports) [
    | inl empty ↦
        inl (fail (Reason.no_ports service.namespace service.name), no_ports empty, rw empty)
    | inr (p, ports) ↦ elim (invalid_port-cases service.ports) [
      | inl (all, fine) ↦ with_ports p ports all fine
      | inr (port, bad, wrong) ↦ inl (
        fail (Reason.unsupported_protocol port.protocol port.port),
        unsupported port ports bad wrong,
        rw (p, bad),
      )
    ]
  ]
