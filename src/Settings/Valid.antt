-- ===== src/Settings/Valid.antt =====
-- What the settings of a Service guarantee once they are accepted.
use cloud_provider_opentelek.Base.{
  subst, ◌≡◌, ◌≢◌, refl, Bool, true, false, not, ◌&&◌, List, [], ◌∷◌, map, arith, ◌⊎◌,
}
use cloud_provider_opentelek.Base.Int.{ℤ, pos, ltb_ℤ, ◌≤ℤ◌}
use cloud_provider_opentelek.Text.{Text, codes, has_prefix, one_of}
use cloud_provider_opentelek.Kube.{Service}
use cloud_provider_opentelek.Config.{LoadBalancerOpts}
use cloud_provider_opentelek.Cloud.{Error, Result, ok, err, panic}
use cloud_provider_opentelek.Cloud.Fallible.{◌>>◌, ◌>>=◌, reject_if}
use cloud_provider_opentelek.Settings.{
  ServiceSettings, settings_for_service, health_check_protocol, health_check_url_path,
  health_check_http_method, ann_int, ann_bool, ann_list, parsed, none_of, annotation_eip_ids,
  annotation_eip_keep, annotation_idle_timeout, annotation_health_check_enabled,
  annotation_health_check_delay, annotation_health_check_timeout,
  annotation_health_check_max_retries, annotation_eip_bandwidth, http_methods,
}

-- The rules of annotations.go, on the settings alone.
pub record IsValid (settings : ServiceSettings) : Type 0 where
  pub bandwidth : pos 0 ≤ℤ settings.eip_bandwidth
  pub idle : pos 0 ≤ℤ settings.idle_timeout
  pub exclusive : ltb_ℤ (pos 0) settings.eip_bandwidth ≡ true → settings.eip_ids ≡ []
  pub protocol :
      (settings.health_check_protocol ≡ [])
      ⊎ (one_of (map codes ("TCP" ∷ "HTTP" ∷ "HTTPS" ∷ [])) settings.health_check_protocol ≡ true)
  pub url_path :
      (settings.health_check_url_path ≡ [])
      ⊎ (has_prefix settings.health_check_url_path (codes "/") ≡ true)
  pub http_method :
      (settings.health_check_http_method ≡ [])
      ⊎ (one_of http_methods settings.health_check_http_method ≡ true)

-- What `r` returns, if it returns, obeys the rules.
record Ensures (r : Result ServiceSettings) : Type 0 where
  holds : (settings : ServiceSettings) → r ≡ ok settings → IsValid settings
  returns : r ≢ panic

Ensures-ok : (settings : ServiceSettings) → IsValid settings → Ensures (ok settings)
Ensures-ok settings v = record {
  holds = λ s h. subst IsValid (ground arith) v;
  returns = λ h. ground arith;
}

Ensures-bind :
    {A : Type 0} (m : Result A) {f : A → Result ServiceSettings}
    → m ≢ panic
    → ((a : A) → m ≡ ok a → Ensures (f a))
    → Ensures (m >>= f)
Ensures-bind (ok a) n k = k a refl
Ensures-bind (err e) n k = record {
  holds = λ s h. absurd (ground arith);
  returns = λ h. ground arith;
}
Ensures-bind panic n k = absurd (n refl)

Ensures-reject :
    (b : Bool) (e : Error) {m : Result ServiceSettings}
    → (b ≡ false → Ensures m)
    → Ensures (reject_if b e >> m)
Ensures-reject true e k = record {
  holds = λ s h. absurd (ground arith);
  returns = λ h. ground arith;
}
Ensures-reject false e k = k refl

protocol_lem :
    (ann : List (Text × Text)) (p : Text)
    → health_check_protocol ann ≡ ok p
    → (p ≡ []) ⊎ (one_of (map codes ("TCP" ∷ "HTTP" ∷ "HTTPS" ∷ [])) p ≡ true)
unfolding health_check_protocol
protocol_lem ann p h = ground (arith)

url_path_lem :
    (ann : List (Text × Text)) (p : Text)
    → health_check_url_path ann ≡ ok p
    → (p ≡ []) ⊎ (has_prefix p (codes "/") ≡ true)
unfolding health_check_url_path
url_path_lem ann p h = ground (arith)

http_method_lem :
    (ann : List (Text × Text)) (p : Text)
    → health_check_http_method ann ≡ ok p
    → (p ≡ []) ⊎ (one_of http_methods p ≡ true)
unfolding health_check_http_method
http_method_lem ann p h = ground (arith)

ann_int_returns : (ann : List (Text × Text)) (key : Text) (def : ℤ) → ann_int ann key def ≢ panic
unfolding ann_int parsed
ann_int_returns ann key def h = ground arith

ann_bool_returns :
    (ann : List (Text × Text)) (key : Text) (def : Bool) → ann_bool ann key def ≢ panic
unfolding ann_bool parsed
ann_bool_returns ann key def h = ground arith

health_check_protocol_returns : (ann : List (Text × Text)) → health_check_protocol ann ≢ panic
unfolding health_check_protocol
health_check_protocol_returns ann h = ground arith

health_check_url_path_returns : (ann : List (Text × Text)) → health_check_url_path ann ≢ panic
unfolding health_check_url_path
health_check_url_path_returns ann h = ground arith

health_check_http_method_returns : (ann : List (Text × Text)) → health_check_http_method ann ≢ panic
unfolding health_check_http_method
health_check_http_method_returns ann h = ground arith

exclusive_lem :
    (eip_ids : List Text) (b : ℤ)
    → (ltb_ℤ (pos 0) b && not (none_of eip_ids)) ≡ false
    → ltb_ℤ (pos 0) b ≡ true
    → eip_ids ≡ []
exclusive_lem [] b h p = refl
exclusive_lem (_ ∷ _) b h p = absurd (ground arith)

settings_for_service-Ensures :
    (defaults : LoadBalancerOpts) (service : Service)
    → Ensures (settings_for_service defaults service)
unfolding settings_for_service
settings_for_service-Ensures defaults service =
    let ann : List (Text × Text) = service.annotations in
    Ensures-bind (ann_int ann annotation_eip_bandwidth (pos 0))
      (ann_int_returns ann annotation_eip_bandwidth (pos 0))
      (λ bandwidth _. Ensures-reject (ltb_ℤ bandwidth (pos 0)) _ (λ r1.
        Ensures-reject
          (ltb_ℤ (pos 0) bandwidth && not (none_of (ann_list ann annotation_eip_ids []))) _
          (λ r2.
            Ensures-bind (ann_bool ann annotation_eip_keep false)
              (ann_bool_returns ann annotation_eip_keep false)
              (λ _ _.
                Ensures-bind (ann_int ann annotation_idle_timeout (pos 0))
                  (ann_int_returns ann annotation_idle_timeout (pos 0))
                  (λ idle _. Ensures-reject (ltb_ℤ idle (pos 0)) _ (λ r3.
                    Ensures-bind
                      (ann_bool ann annotation_health_check_enabled defaults.health_check_enabled)
                      (ann_bool_returns ann annotation_health_check_enabled
                        defaults.health_check_enabled)
                      (λ _ _.
                        Ensures-bind
                          (ann_int ann annotation_health_check_delay defaults.health_check_delay)
                          (ann_int_returns ann annotation_health_check_delay
                            defaults.health_check_delay)
                          (λ _ _.
                            Ensures-bind
                              (ann_int ann annotation_health_check_timeout
                                defaults.health_check_timeout)
                              (ann_int_returns ann annotation_health_check_timeout
                                defaults.health_check_timeout)
                              (λ _ _.
                                Ensures-bind
                                  (ann_int ann annotation_health_check_max_retries
                                    defaults.health_check_max_retries)
                                  (ann_int_returns ann annotation_health_check_max_retries
                                    defaults.health_check_max_retries)
                                  (λ _ _.
                                    Ensures-bind (health_check_protocol ann)
                                      (health_check_protocol_returns ann)
                                      (λ protocol p1.
                                        Ensures-bind (health_check_url_path ann)
                                          (health_check_url_path_returns ann)
                                          (λ url_path p2.
                                            Ensures-bind (health_check_http_method ann)
                                              (health_check_http_method_returns ann)
                                              (λ http_method p3. Ensures-ok _ (record {
                                                bandwidth = ground arith;
                                                idle = ground arith;
                                                exclusive =
                                                    exclusive_lem
                                                      (ann_list ann annotation_eip_ids []) bandwidth
                                                      r2;
                                                protocol = protocol_lem ann protocol p1;
                                                url_path = url_path_lem ann url_path p2;
                                                http_method = http_method_lem ann http_method p3;
                                              }))))))))))))))

-- Accepted settings obey the rules, whatever the annotations hold.
pub settings_for_service-IsValid :
    (defaults : LoadBalancerOpts) (service : Service) (settings : ServiceSettings)
    → settings_for_service defaults service ≡ ok settings
    → IsValid settings
settings_for_service-IsValid defaults service settings h =
    (settings_for_service-Ensures defaults service).holds settings h

-- The parser has no panic of its own: the case that callers need not treat.
pub settings_for_service_returns :
    (defaults : LoadBalancerOpts) (service : Service)
    → settings_for_service defaults service ≢ panic
settings_for_service_returns defaults service =
    (settings_for_service-Ensures defaults service).returns
