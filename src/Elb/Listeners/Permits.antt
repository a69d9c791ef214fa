-- ===== src/Elb/Listeners/Permits.antt =====
-- What a teardown of listeners may send, and how the code comes to know what belongs to a listener.
use cloud_provider_opentelek.Base.{
  ◌≡◌, refl, true, List, some, In, subst, sym, arith, inl, inr, Bool-cases,
}
use cloud_provider_opentelek.Text.{Text}
use cloud_provider_opentelek.Config.{is_empty}
use cloud_provider_opentelek.Cloud.{
  World, State, Reason, Call, Result, ok, err, panic, Listener, Pool, Member, IpGroup, send,
  attempt, lift, pure, throw,
}
use cloud_provider_opentelek.Cloud.Exec.Sends.{Extends}
use cloud_provider_opentelek.Cloud.Exec.Answers.{
  Answered, before, bind-eq-ok, calls-attempt-send, Answered-Extends, or_wrap-send-Answered,
  attempt-send-Answered,
}
use cloud_provider_opentelek.Elb.Names.{is_owned}
use cloud_provider_opentelek.Elb.Pools.{find_pool_for_listener, pool_or_none}
use cloud_provider_opentelek.Elb.Listeners.{list_listeners}

module _ (w : World) where
  -- The cloud has listed `l` as a listener of the load balancer.
  pub record Listed (lb_id : Text) (l : Listener) (h : List Call) : Type 0 where
    pub all : List Listener
    pub answered : Answered w (Call.list_listeners lb_id) (ok all) h
    pub member : In l all

  -- The cloud has named `p` as the default pool of the listener with this id.
  pub record PoolOf (listener_id : Text) (p : Pool) (h : List Call) : Type 0 where
    pub listener : Listener
    pub listener_read : Answered w (Call.get_listener listener_id) listener h
    pub pool_read : Answered w (Call.get_pool listener.default_pool_id) p h

  -- The cloud has listed `m` as a member of the pool.
  pub record MemberOf (pool_id : Text) (m : Member) (h : List Call) : Type 0 where
    pub all : List Member
    pub answered : Answered w (Call.list_members pool_id) (ok all) h
    pub member : In m all

  module _ {F : List Call → Call → Type 0} {h h' : List Call} (e : Extends F h h') where
    pub Listed-Extends : {lb_id : Text} {l : Listener} → Listed lb_id l h → Listed lb_id l h'
    Listed-Extends x = record {
      all = x.all;
      member = x.member;
      answered = Answered-Extends _ _ e x.answered;
    }

    pub PoolOf-Extends : {id : Text} {p : Pool} → PoolOf id p h → PoolOf id p h'
    PoolOf-Extends x = record {
      listener = x.listener;
      listener_read = Answered-Extends _ _ e x.listener_read;
      pool_read = Answered-Extends _ _ e x.pool_read;
    }

    pub MemberOf-Extends : {id : Text} {m : Member} → MemberOf id m h → MemberOf id m h'
    MemberOf-Extends x = record {
      all = x.all;
      member = x.member;
      answered = Answered-Extends _ _ e x.answered;
    }

  -- The calls of a teardown on one load balancer, of listeners that are `mine`: reads, and deletions
  -- of what the cloud has shown to belong to such a listener.
  abbrev pub Teardown : (lb_id name : Text) (mine : Listener → Type 0) → List Call → Call → Type 0
  Teardown lb_id name mine h (Call.get_balancer _) = Unit
  Teardown lb_id name mine h (Call.list_listeners _) = Unit
  Teardown lb_id name mine h (Call.get_listener _) = Unit
  Teardown lb_id name mine h (Call.get_pool _) = Unit
  Teardown lb_id name mine h (Call.list_members _) = Unit
  Teardown lb_id name mine h (Call.get_ip_group _) = Unit
  Teardown lb_id name mine h (Call.delete_listener id) =
      (l : Listener) × Listed lb_id l h × mine l × (l.id ≡ id)
  Teardown lb_id name mine h (Call.delete_pool id) =
      (l : Listener) × (p : Pool) × Listed lb_id l h × mine l × PoolOf l.id p h × (p.id ≡ id)
  Teardown lb_id name mine h (Call.delete_monitor id) =
      (l : Listener) × (p : Pool) × Listed lb_id l h
      × mine l
      × PoolOf l.id p h
      × (p.monitor_id ≡ id)
  Teardown lb_id name mine h (Call.delete_member pool_id id) =
      (l : Listener) × (p : Pool) × (m : Member) × Listed lb_id l h
      × mine l
      × PoolOf l.id p h
      × (p.id ≡ pool_id)
      × MemberOf pool_id m h
      × (m.id ≡ id)
  Teardown lb_id name mine h (Call.delete_ip_group id) =
      (l : Listener) × (g : IpGroup) × Listed lb_id l h
      × mine l
      × (l.ip_group.ip_group_id ≡ id)
      × Answered w (Call.get_ip_group id) g h
      × (is_owned name g.name ≡ true)
  Teardown lb_id name mine h _ = ⊥

module _ (w : World) where
  found_pool :
      (id : Text) (listener : Listener) (reply : Result Pool) (s s' : State) (p : Pool)
      → Answered w (Call.get_listener id) listener s.calls
      → ((q : Pool) → reply ≡ ok q → Answered w (Call.get_pool listener.default_pool_id) q s.calls)
      → pool_or_none w listener.default_pool_id reply s ≡ (ok (some p), s')
      → PoolOf w id p s'.calls
  unfolding pure throw lift
  found_pool id listener (ok q) s s' p read all e =
      let same_pool : q ≡ p = ground arith in
      let same_state : s ≡ s' = ground arith in
      subst (λ x. PoolOf w id x s'.calls) same_pool
        (subst (λ t. PoolOf w id q t.calls) same_state
          (record { listener = listener; listener_read = read; pool_read = all q refl }))
  found_pool id listener (err f) s s' p read all e = absurd (ground arith)
  found_pool id listener panic s s' p read all e = absurd (ground arith)

  pub find_pool-PoolOf :
      (id : Text) (s s' : State) (p : Pool)
      → find_pool_for_listener w id s ≡ (ok (some p), s')
      → PoolOf w id p s'.calls
  unfolding find_pool_for_listener pure
  find_pool-PoolOf id s s' p e =
      let (listener, s1, e1, rest) = bind-eq-ok _ _ s s' (some p) e in
      let read =
        or_wrap-send-Answered w (Call.get_listener id) (Reason.get_listener id) s s1 listener e1 in
      elim (Bool-cases (is_empty listener.default_pool_id)) [
        | inl none_set ↦ absurd (ground arith)
        | inr set ↦
            let c = Call.get_pool listener.default_pool_id in
            let (reply, s2, e2, last) =
              bind-eq-ok (attempt (send w c)) _ s1 s' (some p) (rw set at rest) in
            found_pool id listener reply s2 s' p
              (subst (Answered w (Call.get_listener id) listener)
                (sym (calls-attempt-send w c s1 s2 (ok reply) e2)) (before c read))
              (λ q eq. attempt-send-Answered w c s1 s2 q (rw eq at e2)) last
      ]

  pub list_listeners-Answered :
      (id : Text) (s s' : State) (all : List Listener)
      → list_listeners w id s ≡ (ok all, s')
      → Answered w (Call.list_listeners id) (ok all) s'.calls
  unfolding list_listeners lift
  list_listeners-Answered id s s' all e =
      let (pages, s1, e1, rest) = bind-eq-ok _ _ s s' all e in
      let same_pages : pages ≡ ok all = ground arith in
      let same_state : s1 ≡ s' = ground arith in
      subst (λ t. Answered w (Call.list_listeners id) (ok all) t.calls) same_state
        (or_wrap-send-Answered w (Call.list_listeners id) (Reason.list_listeners id) s s1 (ok all)
          (rw same_pages at e1))
