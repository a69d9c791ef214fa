-- ===== src/Elb/Listeners/Cleared/Pools.antt =====
-- findPoolForListener and the part of deleteListener that removes the pool.
use cloud_provider_opentelek.Base.{
  ◌≡◌, false, List, [], ◌∷◌, Option, none, some, first, later, arith,
}
use cloud_provider_opentelek.Text.{Text}
use cloud_provider_opentelek.Config.{is_empty}
use cloud_provider_opentelek.Cloud.{
  World, WaitLaws, State, Reason, Call, Result, ok, err, panic, Listener, Pool, Member, send,
  attempt, or_wrap, or_gone, ◌>>=◌, ◌>>◌, is_not_found,
}
use cloud_provider_opentelek.Cloud.Exec.Sends.{Sends-send}
use cloud_provider_opentelek.Cloud.Exec.Ends.{
  Lasts-implies, Ends, Ends-mono, Ends-frame, Ends-pure, Ends-throw, Ends-lift, Ends-or_wrap,
  Ends-if, Ends-bind,
}
use cloud_provider_opentelek.Cloud.Exec.Gone.{
  IsGone, Replied, Gone, Replied, Replied-Lasts, send-Gone, Answered-Lasts, Replied-Answered,
  Replied-Missing, Ends-attempt_reply, Ends-send_answer,
}
use cloud_provider_opentelek.Cloud.Exec.Answers.{Answered}
use cloud_provider_opentelek.Elb.Wait.{mutate}
use cloud_provider_opentelek.Elb.Wait.Last.{Ends-gone_mutate}
use cloud_provider_opentelek.Elb.Pools.{find_pool_for_listener, pool_or_none}
use cloud_provider_opentelek.Elb.Members.{list_members}
use cloud_provider_opentelek.Elb.Monitors.{delete_monitor}
use cloud_provider_opentelek.Elb.Listeners.{
  list_listeners, delete_pool_monitor, delete_members, delete_pool,
}
use cloud_provider_opentelek.Elb.Listeners.Permits.{PoolOf}
use cloud_provider_opentelek.Elb.Listeners.Cleared.{
  NoPool, unset, vanished, PoolCleared, MembersGone, MembersGone-Lasts, PoolSettled, no_pool,
  cleared, PoolOf-Lasts,
}

module _ (w : World) where
  abbrev pub FoundPool : Text → Option Pool → List Call → Type 0
  FoundPool id none h = NoPool w id h
  FoundPool id (some p) h = PoolOf w id p h

  pool_or_none-Ends :
      (id : Text) (l : Listener) (r : Result Pool) (s : State)
      → Answered w (Call.get_listener id) l s.calls
      → Replied w (Call.get_pool l.default_pool_id) (λ x. x ≡ r) s.calls
      → Ends (FoundPool id) (pool_or_none w l.default_pool_id r) s
  pool_or_none-Ends id l (ok p) s read reply =
      Ends-pure (FoundPool id) s (some p)
        (record { listener = l; listener_read = read; pool_read = Replied-Answered reply })
  pool_or_none-Ends id l (err e) s read reply =
      Ends-if (FoundPool id) s (is_not_found e) _ _
        (λ missing.
          Ends-pure (FoundPool id) s none (vanished l read (Replied-Missing missing reply)))
        (λ _. Ends-throw (FoundPool id) s _)
  pool_or_none-Ends id l panic s read reply =
      Ends-lift (FoundPool id) s panic (λ a e. absurd (ground arith))

  pub find_pool-Ends : (id : Text) (s : State) → Ends (FoundPool id) (find_pool_for_listener w id) s
  unfolding find_pool_for_listener
  find_pool-Ends id s =
      let c : Call = Call.get_listener id in
      Ends-bind (FoundPool id) s (or_wrap (Reason.get_listener id) (send w c)) _
        (Ends-or_wrap _ s (Reason.get_listener id) (send w c) (Ends-send_answer w c s))
        (λ l s1 _ read.
          Ends-if (FoundPool id) s1 (is_empty l.default_pool_id) _ _
            (λ none_set. Ends-pure (FoundPool id) s1 none (unset l read none_set))
            (λ _.
              let d : Call = Call.get_pool l.default_pool_id in
              Ends-bind (FoundPool id) s1 (attempt (send w d)) _
                (Ends-frame (Answered-Lasts w c l) read (Ends-attempt_reply w d s1))
                (λ r s2 _ both. pool_or_none-Ends id l r s2 both.0 both.1)))

  pub list_members-Ends :
      (id : Text) (s : State)
      → Ends (λ all h. Answered w (Call.list_members id) (ok all) h) (list_members w id) s
  unfolding list_members
  list_members-Ends id s =
      let c : Call = Call.list_members id in
      Ends-bind _ s (or_wrap (Reason.list_members id) (send w c)) _
        (Ends-or_wrap _ s (Reason.list_members id) (send w c) (Ends-send_answer w c s))
        (λ pages s1 _ read. Ends-lift _ s1 pages (λ all e. rw e at read))

pub list_listeners-Ends :
    (w : World) (id : Text) (s : State)
    → Ends (λ all h. Answered w (Call.list_listeners id) (ok all) h) (list_listeners w id) s
unfolding list_listeners
list_listeners-Ends w id s =
    let c : Call = Call.list_listeners id in
    Ends-bind _ s (or_wrap (Reason.list_listeners id) (send w c)) _
      (Ends-or_wrap _ s (Reason.list_listeners id) (send w c) (Ends-send_answer w c s))
      (λ pages s1 _ read. Ends-lift _ s1 pages (λ all e. rw e at read))

module _ {w : World} (laws : WaitLaws w) (lb_id : Text) where
  monitor-Ends :
      (p : Pool) (s : State)
      → Ends
          (λ _ h. is_empty p.monitor_id ≡ false → Gone w (Call.delete_monitor p.monitor_id) h)
          (delete_pool_monitor w lb_id p)
          s
  unfolding delete_pool_monitor delete_monitor
  monitor-Ends p s =
      let c : Call = Call.delete_monitor p.monitor_id in
      Ends-if _ s (is_empty p.monitor_id) _ _
        (λ none_set. Ends-pure _ s tt (λ set. absurd (ground arith)))
        (λ _.
          Ends-mono (λ _ h gone _. gone)
            (Ends-gone_mutate laws (Reason.delete_monitor p.monitor_id) s lb_id (send w c)
              (Replied-Lasts w c IsGone)
              (record { sends = λ t. Sends-send t w c tt; settles = send-Gone w c })))

  gone_members :
      (pool_id : Text) (m : Member) (xs : List Member) (h : List Call)
      → Gone w (Call.delete_member pool_id m.id) h
      → MembersGone w pool_id xs h
      → MembersGone w pool_id (m ∷ xs) h
  gone_members pool_id m xs h gone others _ first = gone
  gone_members pool_id m xs h gone others x (later _ i) = others x i

  members-Ends :
      (pool_id : Text) (xs : List Member) (s : State)
      → Ends (λ _ h. MembersGone w pool_id xs h) (delete_members w lb_id pool_id xs) s
  unfolding delete_members
  members-Ends pool_id [] s = Ends-pure _ s tt (λ m i. elim i [ ])
  members-Ends pool_id (m ∷ xs) s =
      let c : Call = Call.delete_member pool_id m.id in
      Ends-bind _ s (or_gone (Reason.delete_member m.id) (mutate w lb_id (send w c))) _
        (Ends-gone_mutate laws (Reason.delete_member m.id) s lb_id (send w c)
          (Replied-Lasts w c IsGone)
          (record { sends = λ t. Sends-send t w c tt; settles = send-Gone w c }))
        (λ _ t _ gone.
          Ends-mono (λ _ h both. gone_members pool_id m xs h both.0 both.1)
            (Ends-frame (Replied-Lasts w c IsGone) gone (members-Ends pool_id xs t)))

  emptied-Ends :
      (p : Pool) (s : State)
      → Ends
          (λ _ h.
            (all : List Member) × Answered w (Call.list_members p.id) (ok all) h
            × MembersGone w p.id all h
            × Gone w (Call.delete_pool p.id) h)
          (list_members w p.id >>= (λ existing.
            delete_members w lb_id p.id existing
            >> or_gone (Reason.delete_pool p.id) (mutate w lb_id (send w (Call.delete_pool p.id)))))
          s
  emptied-Ends p s =
      let c : Call = Call.delete_pool p.id in
      Ends-bind _ s (list_members w p.id) _ (list_members-Ends w p.id s) (λ all s1 _ listed.
        Ends-mono (λ _ h both. (all, both.0, both.1.0, both.1.1))
          (Ends-frame (Answered-Lasts w (Call.list_members p.id) (ok all)) listed (
            Ends-bind _ s1 (delete_members w lb_id p.id all) _ (members-Ends p.id all s1)
              (λ _ s2 _ gone. Ends-frame (MembersGone-Lasts w p.id all) gone (
                Ends-gone_mutate laws (Reason.delete_pool p.id) s2 lb_id (send w c)
                  (Replied-Lasts w c IsGone)
                  (record { sends = λ t. Sends-send t w c tt; settles = send-Gone w c }))))))

  pool-Ends :
      (p : Pool) (s : State) → Ends (λ _ h. PoolCleared w p h) (delete_pool w lb_id (some p)) s
  unfolding delete_pool
  pool-Ends p s =
      Ends-bind _ s (delete_pool_monitor w lb_id p) _ (monitor-Ends p s) (λ _ s1 _ monitor.
        Ends-mono
          (λ _ h both.
            let (m, rest) = both in
            let (all, listed, gone, pool) = rest in
            record { monitor = m; all = all; listed = listed; members = gone; pool = pool })
          (Ends-frame (Lasts-implies (Replied-Lasts w (Call.delete_monitor p.monitor_id) IsGone))
            monitor (emptied-Ends p s1)))

  pub settled-Ends :
      (id : Text) (found : Option Pool) (s : State)
      → FoundPool w id found s.calls
      → Ends (λ _ h. PoolSettled w id h) (delete_pool w lb_id found) s
  unfolding delete_pool
  settled-Ends id none s none_found = Ends-pure _ s tt (no_pool none_found)
  settled-Ends id (some p) s pooled =
      Ends-mono (λ _ h both. cleared p both.0 both.1)
        (Ends-frame (PoolOf-Lasts w id p) pooled (pool-Ends p s))
