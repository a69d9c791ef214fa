-- ===== src/Settings.antt =====
-- pkg/elb/annotations.go: the configuration of one Service, from the cloud config's defaults and the
-- Service's annotations.
pub mod Valid
pub mod Lists
use cloud_provider_opentelek.Base.{
  Bool, true, false, not, ◌&&◌, List, [], ◌∷◌, ◌++◌, map, Option, none, some, if◌then◌else◌, ◌==◌,
}
use cloud_provider_opentelek.Base.Int.{ℤ, pos, ltb_ℤ}
use cloud_provider_opentelek.Text.{
  Text, codes, text_eq, has_prefix, split_comma, trim_space, to_upper, one_of, parse_bool,
}
use cloud_provider_opentelek.Text.Decimal.{atoi}
use cloud_provider_opentelek.Kube.{Service}
use cloud_provider_opentelek.Config.{LoadBalancerOpts, is_empty}
use cloud_provider_opentelek.Cloud.{
  fail, Result, ok, err, invalid_value, negative_value, exclusive_annotations,
}
use cloud_provider_opentelek.Cloud.Fallible.{◌>>=◌, ◌>>◌, reject_if}

abbrev pub annotation : Text → Text
annotation key = codes "loadbalancer.opentelekomcloud.com/" ++ key

abbrev pub annotation_id : Text
annotation_id = annotation (codes "id")

abbrev pub annotation_subnet_id : Text
annotation_subnet_id = annotation (codes "subnet-id")

abbrev pub annotation_vpc_id : Text
annotation_vpc_id = annotation (codes "vpc-id")

abbrev pub annotation_availability_zones : Text
annotation_availability_zones = annotation (codes "availability-zones")

abbrev pub annotation_l4_flavor_id : Text
annotation_l4_flavor_id = annotation (codes "l4-flavor-id")

abbrev pub annotation_lb_algorithm : Text
annotation_lb_algorithm = annotation (codes "lb-algorithm")

abbrev pub annotation_eip_ids : Text
annotation_eip_ids = annotation (codes "eip-ids")

abbrev pub annotation_eip_bandwidth : Text
annotation_eip_bandwidth = annotation (codes "eip-bandwidth")

abbrev pub annotation_eip_type : Text
annotation_eip_type = annotation (codes "eip-type")

abbrev pub annotation_eip_keep : Text
annotation_eip_keep = annotation (codes "eip-keep")

abbrev pub annotation_idle_timeout : Text
annotation_idle_timeout = annotation (codes "idle-timeout")

abbrev pub annotation_health_check_enabled : Text
annotation_health_check_enabled = annotation (codes "health-check-enabled")

abbrev pub annotation_health_check_delay : Text
annotation_health_check_delay = annotation (codes "health-check-delay")

abbrev pub annotation_health_check_timeout : Text
annotation_health_check_timeout = annotation (codes "health-check-timeout")

abbrev pub annotation_health_check_max_retries : Text
annotation_health_check_max_retries = annotation (codes "health-check-max-retries")

abbrev pub annotation_health_check_protocol : Text
annotation_health_check_protocol = annotation (codes "health-check-protocol")

abbrev pub annotation_health_check_url_path : Text
annotation_health_check_url_path = annotation (codes "health-check-url-path")

abbrev pub annotation_health_check_http_method : Text
annotation_health_check_http_method = annotation (codes "health-check-http-method")

pub record ServiceSettings : Type 0 where
  pub load_balancer_id : Text
  pub subnet_id : Text
  pub vpc_id : Text
  pub availability_zones : List Text
  pub l4_flavor_id : Text
  pub lb_algorithm : Text
  pub eip_ids : List Text
  pub eip_bandwidth : ℤ
  pub eip_type : Text
  pub eip_keep : Bool
  pub idle_timeout : ℤ
  pub health_check_enabled : Bool
  pub health_check_delay : ℤ
  pub health_check_timeout : ℤ
  pub health_check_max_retries : ℤ
  pub health_check_protocol : Text
  pub health_check_url_path : Text
  pub health_check_http_method : Text

-- `ann[key]`: the empty string where the key is missing. A missing key and an empty value are
-- treated alike everywhere in the file.
unfoldable pub ann_value : List (Text × Text) → Text → Text
ann_value [] key = []
ann_value ((k, v) ∷ ann) key = if k == key then v else ann_value ann key

-- `if v := ann[key]; v != "" { field = v }`
unfoldable pub ann_text : List (Text × Text) → Text → Text → Text
ann_text ann key field = let v = ann_value ann key in if is_empty v then field else v

unfoldable pub keep_nonempty : List Text → List Text
keep_nonempty [] = []
keep_nonempty (p ∷ parts) =
    let rest = keep_nonempty parts in let t = trim_space p in if is_empty t then rest else t ∷ rest

unfoldable pub split_trim : Text → List Text
unfolding keep_nonempty
split_trim v = keep_nonempty (split_comma v)

unfoldable pub ann_list : List (Text × Text) → Text → List Text → List Text
unfolding split_trim
ann_list ann key field = let v = ann_value ann key in if is_empty v then field else split_trim v

unfoldable pub parsed : {A : Type 0} → Option A → Text → Text → Result A
parsed none v key = err (fail (invalid_value v key))
parsed (some a) v key = ok a

unfoldable pub ann_bool : List (Text × Text) → Text → Bool → Result Bool
unfolding parsed
ann_bool ann key def =
    let v = ann_value ann key in if is_empty v then ok def else parsed (parse_bool v) v key

unfoldable pub ann_int : List (Text × Text) → Text → ℤ → Result ℤ
unfolding parsed
ann_int ann key def =
    let v = ann_value ann key in if is_empty v then ok def else parsed (atoi v) v key

unfoldable pub health_check_protocol : List (Text × Text) → Result Text
health_check_protocol ann =
    let v = ann_value ann annotation_health_check_protocol in
    if is_empty v
    then ok []
    else if one_of (map codes ("TCP" ∷ "HTTP" ∷ "HTTPS" ∷ [])) (to_upper v)
    then ok (to_upper v)
    else err (fail (invalid_value v annotation_health_check_protocol))

unfoldable pub health_check_url_path : List (Text × Text) → Result Text
health_check_url_path ann =
    let v = ann_value ann annotation_health_check_url_path in
    if is_empty v
    then ok []
    else if has_prefix v (codes "/")
    then ok v
    else err (fail (invalid_value v annotation_health_check_url_path))

abbrev pub http_methods : List Text
http_methods =
    map codes
      ("GET" ∷ "HEAD" ∷ "POST" ∷ "PUT" ∷ "DELETE" ∷ "TRACE" ∷ "OPTIONS" ∷ "CONNECT" ∷ "PATCH" ∷ [])

unfoldable pub health_check_http_method : List (Text × Text) → Result Text
health_check_http_method ann =
    let v = ann_value ann annotation_health_check_http_method in
    if is_empty v
    then ok []
    else if one_of http_methods (to_upper v)
    then ok (to_upper v)
    else err (fail (invalid_value v annotation_health_check_http_method))

abbrev pub none_of : List Text → Bool
none_of [] = true
none_of (_ ∷ _) = false

abbrev pub default_algorithm : Text → Text
default_algorithm configured = if is_empty configured then codes "ROUND_ROBIN" else configured

-- `settingsForService`
unfoldable pub settings_for_service : LoadBalancerOpts → Service → Result ServiceSettings
settings_for_service defaults service = do
  let ann = service.annotations
  let eip_ids = ann_list ann annotation_eip_ids []
  eip_bandwidth ← ann_int ann annotation_eip_bandwidth (pos 0)
  reject_if (ltb_ℤ eip_bandwidth (pos 0))
      (fail (negative_value eip_bandwidth annotation_eip_bandwidth))
  reject_if (ltb_ℤ (pos 0) eip_bandwidth && not (none_of eip_ids))
      (fail (exclusive_annotations annotation_eip_ids annotation_eip_bandwidth))
  eip_keep ← ann_bool ann annotation_eip_keep false
  idle_timeout ← ann_int ann annotation_idle_timeout (pos 0)
  reject_if (ltb_ℤ idle_timeout (pos 0))
      (fail (negative_value idle_timeout annotation_idle_timeout))
  enabled ← ann_bool ann annotation_health_check_enabled defaults.health_check_enabled
  delay ← ann_int ann annotation_health_check_delay defaults.health_check_delay
  timeout ← ann_int ann annotation_health_check_timeout defaults.health_check_timeout
  retries ← ann_int ann annotation_health_check_max_retries defaults.health_check_max_retries
  protocol ← health_check_protocol ann
  url_path ← health_check_url_path ann
  http_method ← health_check_http_method ann
  ok (record {
    load_balancer_id = ann_text ann annotation_id [];
    subnet_id = ann_text ann annotation_subnet_id defaults.subnet_id;
    vpc_id = ann_text ann annotation_vpc_id defaults.vpc_id;
    availability_zones = ann_list ann annotation_availability_zones defaults.availability_zones;
    l4_flavor_id = ann_text ann annotation_l4_flavor_id defaults.l4_flavor_id;
    lb_algorithm = ann_text ann annotation_lb_algorithm (default_algorithm defaults.lb_algorithm);
    eip_ids = eip_ids;
    eip_bandwidth = eip_bandwidth;
    eip_type = ann_text ann annotation_eip_type (codes "5_bgp");
    eip_keep = eip_keep;
    idle_timeout = idle_timeout;
    health_check_enabled = enabled;
    health_check_delay = delay;
    health_check_timeout = timeout;
    health_check_max_retries = retries;
    health_check_protocol = protocol;
    health_check_url_path = url_path;
    health_check_http_method = http_method;
  })
