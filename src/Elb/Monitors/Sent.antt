-- ===== src/Elb/Monitors/Sent.antt =====
-- What reconcileMonitor sends.
use cloud_provider_opentelek.Base.{◌≡◌, refl, true, false, List, arith}
use cloud_provider_opentelek.Text.{Text, text_eq}
use cloud_provider_opentelek.Config.{is_empty}
use cloud_provider_opentelek.Kube.{Service, ServicePort}
use cloud_provider_opentelek.Settings.{ServiceSettings}
use cloud_provider_opentelek.Cloud.{
  World, WaitLaws, State, Reason, Call, Pool, Monitor, MonitorOpts, send,
}
use cloud_provider_opentelek.Cloud.Exec.Sends.{
  Extends, Sends, Sends-pure, Sends-if, Sends-send, Sends-ignore, Sends-bind, Sends-or_wrap,
  Sends-or_gone,
}
use cloud_provider_opentelek.Cloud.Exec.Answers.{Answered, Answered-Extends, or_wrap-send-Answered}
use cloud_provider_opentelek.Elb.Wait.Sent.{mutate-Sends}
use cloud_provider_opentelek.Elb.Monitors.{
  monitor_opts, monitor_update, Probe, desired_probe, must_recreate, is_up_to_date, delete_monitor,
  create_monitor, update_monitor, adjust_monitor, enabled_monitor, disabled_monitor,
  reconcile_monitor,
}

-- A monitor of the pool that the cloud returned satisfies `P`.
abbrev Read : World → Pool → (Monitor → Type 0) → List Call → Type 0
Read w pool P h = (m : Monitor) × Answered w (Call.get_monitor pool.monitor_id) m h × P m

Read-Extends :
    {F : List Call → Call → Type 0} (w : World) (pool : Pool) {P : Monitor → Type 0}
    {h h' : List Call}
    → Extends F h h'
    → Read w pool P h
    → Read w pool P h'
Read-Extends w pool e (m, a, p) = (m, Answered-Extends _ m e a, p)

module _ (w : World) (pool : Pool) (settings : ServiceSettings) (probe : Probe) (lb_id : Text) where
  -- The calls that bring the pool's monitor to `probe`. A monitor is created where there is none or it
  -- was of another kind or port; deleted where health checks are off or it was of another kind or port;
  -- updated where kind and port agree and another value differs.
  abbrev pub Probing : List Call → Call → Type 0
  Probing h (Call.get_balancer id) = id ≡ lb_id
  Probing h (Call.get_monitor id) = (settings.health_check_enabled ≡ true) × (id ≡ pool.monitor_id)
  Probing h (Call.create_monitor o) =
      (settings.health_check_enabled ≡ true)
      × (o.pool_id ≡ pool.id)
      × (o.kind ≡ probe.kind)
      × (o.monitor_port ≡ probe.monitor_port)
      × (o.url_path ≡ probe.url_path)
      × (is_empty pool.monitor_id ≡ false → Read w pool (λ m. must_recreate probe m ≡ true) h)
  Probing h (Call.delete_monitor id) =
      (id ≡ pool.monitor_id)
      × (is_empty pool.monitor_id ≡ false)
      × (settings.health_check_enabled ≡ true → Read w pool (λ m. must_recreate probe m ≡ true) h)
  Probing h (Call.update_monitor id o) =
      (settings.health_check_enabled ≡ true)
      × (id ≡ pool.monitor_id)
      × (o.url_path ≡ probe.url_path)
      × Read w pool
          (λ m. (must_recreate probe m ≡ false) × (is_up_to_date settings probe m ≡ false)) h
  Probing h _ = ⊥

module _ {w : World} (laws : WaitLaws w) (pool : Pool) (name : Text) (settings : ServiceSettings)
    (service : Service) (port : ServicePort) (lb_id : Text) where
  abbrev probe : Probe
  probe = desired_probe settings service port

  abbrev opts : MonitorOpts
  opts = monitor_opts w lb_id pool name settings port probe

  abbrev P : List Call → Call → Type 0
  P = Probing w pool settings probe lb_id

  create_monitor-Sends :
      (s : State)
      → settings.health_check_enabled ≡ true
      → (is_empty pool.monitor_id ≡ false → Read w pool (λ m. must_recreate probe m ≡ true) s.calls)
      → Sends P (create_monitor w lb_id pool name settings port probe) s
  unfolding create_monitor
  create_monitor-Sends s on stale = Sends-or_wrap s _ _ (
      mutate-Sends laws lb_id (λ h. refl) _ s
        (λ s' e. Sends-ignore s' _ (
          let permitted : P s'.calls (Call.create_monitor opts) =
            (on, refl, refl, refl, refl, λ some_id. Read-Extends w pool e (stale some_id)) in
          Sends-send s' w (Call.create_monitor opts) permitted)))

  delete_monitor-Sends :
      (s : State) (r : Reason)
      → is_empty pool.monitor_id ≡ false
      → (settings.health_check_enabled ≡ true
          → Read w pool (λ m. must_recreate probe m ≡ true) s.calls)
      → Sends P (delete_monitor w lb_id r pool.monitor_id) s
  unfolding delete_monitor
  delete_monitor-Sends s r some_id stale = Sends-or_gone s r _ (
      mutate-Sends laws lb_id (λ h. refl) _ s
        (λ s' e.
          let permitted : P s'.calls (Call.delete_monitor pool.monitor_id) =
            (refl, some_id, λ on. Read-Extends w pool e (stale on)) in
          Sends-send s' w (Call.delete_monitor pool.monitor_id) permitted))

  update_monitor-Sends :
      (s : State)
      → settings.health_check_enabled ≡ true
      → Read w pool
          (λ m. (must_recreate probe m ≡ false) × (is_up_to_date settings probe m ≡ false))
          s.calls
      → Sends P (update_monitor w lb_id pool name settings port probe) s
  unfolding update_monitor
  update_monitor-Sends s on stale = Sends-or_wrap s _ _ (
      mutate-Sends laws lb_id (λ h. refl) _ s
        (λ s' e.
          let c : Call = Call.update_monitor pool.monitor_id (monitor_update settings probe) in
          let permitted : P s'.calls c = (on, refl, refl, Read-Extends w pool e stale) in
          Sends-ignore s' (send w c) (Sends-send s' w c permitted)))

  adjust_monitor-Sends :
      (m : Monitor) (s : State)
      → settings.health_check_enabled ≡ true
      → is_empty pool.monitor_id ≡ false
      → Answered w (Call.get_monitor pool.monitor_id) m s.calls
      → Sends P (adjust_monitor w lb_id pool name settings port probe m) s
  unfolding adjust_monitor
  adjust_monitor-Sends m s on some_id a =
      Sends-if s (must_recreate probe m) _ _
        (λ other.
          Sends-bind s _ _ (delete_monitor-Sends s _ some_id (λ _. (m, a, other))) (λ _ s' r.
            create_monitor-Sends s' on (λ _. (m, Answered-Extends _ m r.trace a, other))))
        (λ alike.
          Sends-if s (is_up_to_date settings probe m) _ _ (λ _. Sends-pure s tt)
            (λ differs. update_monitor-Sends s on (m, a, (alike, differs))))

  enabled_monitor-Sends :
      (s : State)
      → settings.health_check_enabled ≡ true
      → Sends P (enabled_monitor w lb_id pool name settings port probe) s
  unfolding enabled_monitor
  enabled_monitor-Sends s on =
      Sends-if s (is_empty pool.monitor_id) _ _
        (λ no_id. create_monitor-Sends s on (λ some_id. absurd (ground arith)))
        (λ some_id.
          Sends-bind s _ _
            (Sends-or_wrap s _ _ (
              let permitted : P s.calls (Call.get_monitor pool.monitor_id) = (on, refl) in
              Sends-send s w (Call.get_monitor pool.monitor_id) permitted))
            (λ m s' r.
              adjust_monitor-Sends m s' on some_id
                (or_wrap-send-Answered w (Call.get_monitor pool.monitor_id) _ s s' m r.result)))

  -- Whatever the cloud answers, the reconciliation of a health check sends only what `Probing` permits:
  -- it creates, deletes and updates the monitor of this pool alone, and only where the monitor that it
  -- read calls for it.
  pub reconcile_monitor-Sends :
      (s : State) → Sends P (reconcile_monitor w lb_id pool name settings port service) s
  unfolding reconcile_monitor disabled_monitor
  reconcile_monitor-Sends s =
      Sends-if s settings.health_check_enabled _ _ (λ on. enabled_monitor-Sends s on)
        (λ off.
          Sends-if s (is_empty pool.monitor_id) _ _ (λ _. Sends-pure s tt)
            (λ some_id. delete_monitor-Sends s _ some_id (λ on. absurd (ground arith))))
