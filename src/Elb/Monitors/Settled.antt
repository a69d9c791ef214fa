-- ===== src/Elb/Monitors/Settled.antt =====
-- The monitor of a pool after reconcileMonitor.
use cloud_provider_opentelek.Base.{◌≡◌, true, false, List, arith}
use cloud_provider_opentelek.Text.{Text}
use cloud_provider_opentelek.Config.{is_empty}
use cloud_provider_opentelek.Kube.{Service, ServicePort}
use cloud_provider_opentelek.Settings.{ServiceSettings}
use cloud_provider_opentelek.Cloud.{
  World, WaitLaws, State, Reason, Call, Pool, Monitor, send, ignore, or_wrap,
}
use cloud_provider_opentelek.Cloud.Exec.Sends.{Sends-send}
use cloud_provider_opentelek.Cloud.Exec.Ends.{
  Lasts, Ends, Ends-mono, Ends-frame, Ends-pure, Ends-or_wrap, Ends-if, Ends-bind,
}
use cloud_provider_opentelek.Cloud.Exec.Gone.{
  IsGone, Gone, Replied-Lasts, send-Gone, Answered-Lasts, Ends-send_answer,
}
use cloud_provider_opentelek.Cloud.Exec.Answers.{Answered, Answered-Extends}
use cloud_provider_opentelek.Cloud.Exec.Done.{Done, Done-Lasts, ignored-Done}
use cloud_provider_opentelek.Elb.Wait.Last.{Ends-gone_mutate, Ends-mutate}
use cloud_provider_opentelek.Elb.Monitors.{
  Probe, desired_probe, must_recreate, is_up_to_date, monitor_update, monitor_opts, delete_monitor,
  create_monitor, update_monitor, adjust_monitor, enabled_monitor, disabled_monitor,
  reconcile_monitor,
}

module _ (w : World) (lb_id : Text) (pool : Pool) (name : Text) (settings : ServiceSettings)
    (port : ServicePort) where
  -- The monitor that the pool had is one that serves, was updated, or is gone and replaced by one with the
  -- settings of the Service; a pool without one got it.
  pub data Probed (probe : Probe) (h : List Call) : Type 0 where
    created :
        is_empty pool.monitor_id ≡ true
        → Done w (Call.create_monitor (monitor_opts w lb_id pool name settings port probe)) h
        → Probed probe h
    replaced :
        (m : Monitor)
        → Answered w (Call.get_monitor pool.monitor_id) m h
        → must_recreate probe m ≡ true
        → Gone w (Call.delete_monitor pool.monitor_id) h
        → Done w (Call.create_monitor (monitor_opts w lb_id pool name settings port probe)) h
        → Probed probe h
    serving :
        (m : Monitor)
        → Answered w (Call.get_monitor pool.monitor_id) m h
        → must_recreate probe m ≡ false
        → is_up_to_date settings probe m ≡ true
        → Probed probe h
    updated :
        (m : Monitor)
        → Answered w (Call.get_monitor pool.monitor_id) m h
        → must_recreate probe m ≡ false
        → Done w (Call.update_monitor pool.monitor_id (monitor_update settings probe)) h
        → Probed probe h

  -- With health checks the probe of the Service, without them no monitor.
  pub record Settled (service : Service) (h : List Call) : Type 0 where
    pub probed :
        settings.health_check_enabled ≡ true → Probed (desired_probe settings service port) h
    pub unprobed :
        settings.health_check_enabled ≡ false
        → is_empty pool.monitor_id ≡ false
        → Gone w (Call.delete_monitor pool.monitor_id) h

module _ (w : World) (lb_id : Text) (pool : Pool) (name : Text) (settings : ServiceSettings)
    (port : ServicePort) where
  Probed-Lasts : (probe : Probe) → Lasts (Probed w lb_id pool name settings port probe)
  Probed-Lasts probe h h' e (created none_set done) = created none_set (
      Done-Lasts w (Call.create_monitor (monitor_opts w lb_id pool name settings port probe)) h h' e
        done)
  Probed-Lasts probe h h' e (replaced m read other gone done) =
      replaced m (Answered-Extends _ _ e read) other
        (Replied-Lasts w (Call.delete_monitor pool.monitor_id) IsGone h h' e gone)
        (Done-Lasts w (Call.create_monitor (monitor_opts w lb_id pool name settings port probe)) h
          h' e done)
  Probed-Lasts probe h h' e (serving m read same_kind current) =
      serving m (Answered-Extends _ _ e read) same_kind current
  Probed-Lasts probe h h' e (updated m read same_kind done) =
      updated m (Answered-Extends _ _ e read) same_kind (
        Done-Lasts w (Call.update_monitor pool.monitor_id (monitor_update settings probe)) h h' e
          done)

  pub Settled-Lasts : (service : Service) → Lasts (Settled w lb_id pool name settings port service)
  Settled-Lasts service h h' e x = record {
    probed = λ on. Probed-Lasts (desired_probe settings service port) h h' e (x.probed on);
    unprobed = λ off set.
        Replied-Lasts w (Call.delete_monitor pool.monitor_id) IsGone h h' e (x.unprobed off set);
  }

module _ {w : World} (laws : WaitLaws w) (lb_id : Text) (pool : Pool) (name : Text)
    (settings : ServiceSettings) (port : ServicePort) where
  delete-Gone :
      (reason : Reason) (s : State)
      → Ends
          (λ _ h. Gone w (Call.delete_monitor pool.monitor_id) h)
          (delete_monitor w lb_id reason pool.monitor_id)
          s
  unfolding delete_monitor
  delete-Gone reason s =
      let c : Call = Call.delete_monitor pool.monitor_id in
      Ends-gone_mutate laws reason s lb_id (send w c) (Replied-Lasts w c IsGone)
        (record { sends = λ t. Sends-send t w c tt; settles = send-Gone w c })

  create-Done :
      (probe : Probe) (s : State)
      → Ends
          (λ _ h.
            Done w (Call.create_monitor (monitor_opts w lb_id pool name settings port probe)) h)
          (create_monitor w lb_id pool name settings port probe)
          s
  unfolding create_monitor
  create-Done probe s =
      let c : Call = Call.create_monitor (monitor_opts w lb_id pool name settings port probe) in
      Ends-or_wrap _ s (Reason.create_monitor pool.id) _
        (Ends-mutate laws lb_id s (ignore (send w c)) (Done-Lasts w c) (ignored-Done w c))

  update-Done :
      (probe : Probe) (s : State)
      → Ends
          (λ _ h. Done w (Call.update_monitor pool.monitor_id (monitor_update settings probe)) h)
          (update_monitor w lb_id pool name settings port probe)
          s
  unfolding update_monitor
  update-Done probe s =
      let c : Call = Call.update_monitor pool.monitor_id (monitor_update settings probe) in
      Ends-or_wrap _ s (Reason.update_monitor pool.monitor_id) _
        (Ends-mutate laws lb_id s (ignore (send w c)) (Done-Lasts w c) (ignored-Done w c))

  abbrev IsProbed : Probe → List Call → Type 0
  IsProbed = Probed w lb_id pool name settings port

  adjust-Probed :
      (probe : Probe) (m : Monitor) (s : State)
      → Answered w (Call.get_monitor pool.monitor_id) m s.calls
      → Ends (λ _ h. IsProbed probe h) (adjust_monitor w lb_id pool name settings port probe m) s
  unfolding adjust_monitor
  adjust-Probed probe m s read =
      let stays = Answered-Lasts w (Call.get_monitor pool.monitor_id) m in
      Ends-if _ s (must_recreate probe m) _ _
        (λ other.
          Ends-mono (λ _ h both. replaced m both.0 other both.1.0 both.1.1)
            (Ends-frame stays read (
              Ends-bind _ s _ _ (delete-Gone (Reason.recreate_monitor pool.monitor_id) s)
                (λ _ t _ gone.
                  Ends-frame (Replied-Lasts w (Call.delete_monitor pool.monitor_id) IsGone) gone
                    (create-Done probe t)))))
        (λ same_kind.
          Ends-if _ s (is_up_to_date settings probe m) _ _
            (λ current. Ends-pure _ s tt (serving m read same_kind current))
            (λ _.
              Ends-mono (λ _ h both. updated m both.0 same_kind both.1)
                (Ends-frame stays read (update-Done probe s))))

  enabled-Probed :
      (probe : Probe) (s : State)
      → Ends (λ _ h. IsProbed probe h) (enabled_monitor w lb_id pool name settings port probe) s
  unfolding enabled_monitor
  enabled-Probed probe s =
      let c : Call = Call.get_monitor pool.monitor_id in
      Ends-if _ s (is_empty pool.monitor_id) _ _
        (λ none_set. Ends-mono (λ _ h x. created none_set x) (create-Done probe s))
        (λ _.
          Ends-bind _ s (or_wrap (Reason.get_monitor pool.monitor_id) (send w c)) _
            (Ends-or_wrap _ s (Reason.get_monitor pool.monitor_id) (send w c)
              (Ends-send_answer w c s))
            (λ m t _ read. adjust-Probed probe m t read))

  pub reconcile_monitor-Settled :
      (service : Service) (s : State)
      → Ends
          (λ _ h. Settled w lb_id pool name settings port service h)
          (reconcile_monitor w lb_id pool name settings port service)
          s
  unfolding reconcile_monitor disabled_monitor
  reconcile_monitor-Settled service s =
      Ends-if _ s settings.health_check_enabled _ _
        (λ on.
          Ends-mono (λ _ h x. record { probed = λ _. x; unprobed = λ off. absurd (ground arith) })
            (enabled-Probed (desired_probe settings service port) s))
        (λ off.
          Ends-if _ s (is_empty pool.monitor_id) _ _
            (λ none_set. Ends-pure _ s tt (record {
              probed = λ on. absurd (ground arith);
              unprobed = λ _ set. absurd (ground arith);
            }))
            (λ _.
              Ends-mono
                (λ _ h x. record { probed = λ on. absurd (ground arith); unprobed = λ _ _. x })
                (delete-Gone (Reason.delete_monitor pool.monitor_id) s)))
