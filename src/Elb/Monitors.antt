-- ===== src/Elb/Monitors.antt =====
-- reconcileMonitor of pkg/elb/elb.go.
pub mod Sent
pub mod Settled
use cloud_provider_opentelek.Base.{ℕ, Bool, not, ◌&&◌, ◌||◌, [], if◌then◌else◌, ◌==◌, ltb, nat_eq}
use cloud_provider_opentelek.Base.Int.{int_eq}
use cloud_provider_opentelek.Text.{Text, codes, text_eq}
use cloud_provider_opentelek.Config.{is_empty}
use cloud_provider_opentelek.Kube.{Service, ServicePort, protocol_udp, traffic_policy_local}
use cloud_provider_opentelek.Settings.{ServiceSettings}
use cloud_provider_opentelek.Cloud.{
  World, M, send, pure, ignore, or_wrap, or_gone, ◌>>=◌, ◌>>◌, Reason, Call, Pool, Monitor,
  MonitorOpts, MonitorUpdate,
}
use cloud_provider_opentelek.Elb.Names.{resource_name}
use cloud_provider_opentelek.Elb.Wait.{mutate}

-- The four variables that the `switch` sets.
pub record Probe : Type 0 where
  pub kind : Text
  pub monitor_port : ℕ
  pub url_path : Text
  pub http_method : Text

abbrev pub or_default : Text → Text → Text
or_default value default = if is_empty value then default else value

unfoldable pub desired_probe : ServiceSettings → Service → ServicePort → Probe
desired_probe settings service port =
    if port.protocol == protocol_udp
    then record { kind = codes "UDP_CONNECT"; monitor_port = 0; url_path = []; http_method = [] }
    else if service.external_traffic_policy == traffic_policy_local
        && ltb 0 service.health_check_node_port
    then record {
      kind = codes "HTTP";
      monitor_port = service.health_check_node_port;
      url_path = codes "/healthz";
      http_method = codes "GET";
    }
    else if settings.health_check_protocol == codes "HTTP"
        || settings.health_check_protocol == codes "HTTPS"
    then record {
      kind = settings.health_check_protocol;
      monitor_port = 0;
      url_path = or_default settings.health_check_url_path (codes "/");
      http_method = or_default settings.health_check_http_method (codes "GET");
    }
    else record { kind = codes "TCP"; monitor_port = 0; url_path = []; http_method = [] }

-- Type and port cannot be changed by an update.
unfoldable pub must_recreate : Probe → Monitor → Bool
must_recreate probe monitor =
    not (monitor.kind == probe.kind) || not (monitor.monitor_port == probe.monitor_port)

unfoldable pub is_up_to_date : ServiceSettings → Probe → Monitor → Bool
is_up_to_date settings probe monitor =
    monitor.delay == settings.health_check_delay
    && monitor.timeout == settings.health_check_timeout
    && monitor.max_retries == settings.health_check_max_retries
    && monitor.url_path == probe.url_path
    && monitor.http_method == probe.http_method

abbrev pub monitor_update : ServiceSettings → Probe → MonitorUpdate
monitor_update settings probe = record {
  delay = settings.health_check_delay;
  timeout = settings.health_check_timeout;
  max_retries = settings.health_check_max_retries;
  url_path = probe.url_path;
  http_method = probe.http_method;
}

module _ (w : World) (lb_id : Text) where
  unfoldable pub delete_monitor : Reason → Text → M Unit
  delete_monitor reason id = or_gone reason (mutate w lb_id (send w (Call.delete_monitor id)))

  module _ (pool : Pool) (name : Text) (settings : ServiceSettings) (port : ServicePort) where
    abbrev pub monitor_opts : Probe → MonitorOpts
    monitor_opts probe = record {
      pool_id = pool.id;
      name = resource_name name port;
      kind = probe.kind;
      delay = settings.health_check_delay;
      timeout = settings.health_check_timeout;
      max_retries = settings.health_check_max_retries;
      url_path = probe.url_path;
      http_method = probe.http_method;
      monitor_port = probe.monitor_port;
    }

    unfoldable pub create_monitor : Probe → M Unit
    create_monitor probe =
        or_wrap (Reason.create_monitor pool.id)
          (mutate w lb_id (ignore (send w (Call.create_monitor (monitor_opts probe)))))

    unfoldable pub update_monitor : Probe → M Unit
    update_monitor probe = or_wrap (Reason.update_monitor pool.monitor_id) (
        mutate w lb_id
          (ignore (send w (Call.update_monitor pool.monitor_id (monitor_update settings probe)))))

    -- The pool has a monitor, which was read.
    unfoldable pub adjust_monitor : Probe → Monitor → M Unit
    adjust_monitor probe monitor =
        if must_recreate probe monitor
        then delete_monitor (Reason.recreate_monitor pool.monitor_id) pool.monitor_id
          >> create_monitor probe
        else if is_up_to_date settings probe monitor
        then pure tt
        else update_monitor probe

    unfoldable pub enabled_monitor : Probe → M Unit
    enabled_monitor probe = if is_empty pool.monitor_id then create_monitor probe else do
      monitor ←
          or_wrap (Reason.get_monitor pool.monitor_id) (send w (Call.get_monitor pool.monitor_id))
      adjust_monitor probe monitor

    unfoldable pub disabled_monitor : M Unit
    disabled_monitor =
        if is_empty pool.monitor_id
        then pure tt
        else delete_monitor (Reason.delete_monitor pool.monitor_id) pool.monitor_id

    unfoldable pub reconcile_monitor : Service → M Unit
    reconcile_monitor service =
        if settings.health_check_enabled
        then enabled_monitor (desired_probe settings service port)
        else disabled_monitor
