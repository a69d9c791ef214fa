-- ===== src/Elb/Pools/Ensured/Whole.antt =====
-- ensurePool returns the pool of the listener.
use cloud_provider_opentelek.Base.{
  ◌≡◌, refl, sym, subst, ◌∙◌, false, List, ◌∷◌, Option, none, some, arith, inl, inr, Bool-cases,
}
use cloud_provider_opentelek.Text.{Text}
use cloud_provider_opentelek.Config.{is_empty}
use cloud_provider_opentelek.Kube.{Service, ServicePort}
use cloud_provider_opentelek.Settings.{ServiceSettings}
use cloud_provider_opentelek.Cloud.{
  World, WaitLaws, State, Reason, Call, Error, Result, ok, err, panic, Listener, Pool, PoolUpdate,
  send, attempt, lift, throw, pure, modify, or_wrap, ◌>>=◌,
}
use cloud_provider_opentelek.Cloud.Exec.Sends.{Extends}
use cloud_provider_opentelek.Cloud.Exec.Ends.{Any}
use cloud_provider_opentelek.Cloud.Exec.Gone.{answer_stays}
use cloud_provider_opentelek.Cloud.Exec.Answers.{
  Answered, Answered-Extends, bind-eq-ok, or_wrap-eq-ok, attempt-eq-ok, or_wrap-send-Answered,
  attempt-send-Answered,
}
use cloud_provider_opentelek.Elb.Wait.{mutate}
use cloud_provider_opentelek.Elb.Wait.Last.{Anywhere, Keeps}
use cloud_provider_opentelek.Elb.Wait.Kept.{mutate-Final}
use cloud_provider_opentelek.Elb.Pools.{
  pool_differs, desired_persistence, update_pool, assign_pool, captured_pool, pool_updated,
  create_pool, reconcile_pool, new_pool, ensure_pool, deref, set_pool,
}
use cloud_provider_opentelek.Elb.Pools.Ensured.{
  Ensured, UpdatedId, created, kept, read, stray, updated, wanted_pool, wanted_update,
}

captured : (s s' : State) (p : Pool) → captured_pool s ≡ (ok p, s') → (s.pool ≡ some p) × (s ≡ s')
unfolding captured_pool
captured s s' p e = go s.pool refl e
  where
    go : (o : Option Pool) → s.pool ≡ o → deref o s ≡ (ok p, s') → (s.pool ≡ some p) × (s ≡ s')
    go none held q = absurd (ground arith)
    go (some x) held q = (ground arith, ground arith)

module _ (w : World) where
  assigned :
      (reply : Result Pool) (s s' : State)
      → assign_pool w reply s ≡ (ok tt, s')
      → (p : Pool) × (reply ≡ ok p) × (s'.pool ≡ some p) × (s.calls ≡ s'.calls)
  unfolding assign_pool modify ◌>>=◌ lift throw
  assigned (ok p) s s' e = (p, refl, ground arith, ground arith)
  assigned (err f) s s' e = absurd (ground arith)
  assigned panic s s' e = absurd (ground arith)

module _ {w : World} (laws : WaitLaws w) (lb_id : Text) (listener : Listener) (name : Text)
    (settings : ServiceSettings) (service : Service) (port : ServicePort) where
  new_pool-Ensured :
      (s s' : State) (p : Pool)
      → new_pool w lb_id listener name settings service port s ≡ (ok p, s')
      → Answered w (Call.create_pool (wanted_pool w listener name settings service port)) p s'.calls
  unfolding new_pool create_pool
  new_pool-Ensured s s' p e =
      let c : Call = Call.create_pool (wanted_pool w listener name settings service port) in
      let (_, s1, _, rest) = bind-eq-ok (set_pool none) _ s s' p e in
      let (_, s2, e2, last) = bind-eq-ok _ (λ _. captured_pool) s1 s' p rest in
      let final =
        mutate-Final laws lb_id Anywhere _ s1 s2 (λ t t' r _ _. tt) tt
          (or_wrap-eq-ok (Reason.create_pool listener.id) _ s1 s2 tt e2) in
      let (reply, t, sent, put) =
        bind-eq-ok (attempt (send w c)) (assign_pool w) final.start final.end tt final.result in
      let (x, same_reply, held, same_calls) = assigned w reply t final.end put in
      let (found, same_state) = captured s2 s' p last in
      let same_pool : x ≡ p = ground (arith, final.same_vars.pool) in
      let answered : Answered w c x final.end.calls =
        subst (Answered w c x) same_calls
          (attempt-send-Answered w c final.start t x (rw same_reply at sent)) in
      answer_stays w c x p final.end.calls s2 s' answered final.trace same_state same_pool

  failed_update :
      (opts : PoolUpdate) (t t' : State) (e : Error)
      → update_pool w opts t ≡ (err e, t')
      → (h : List Call) × (t'.pool ≡ w.failed_pool h)
  unfolding update_pool captured_pool assign_pool modify attempt send throw lift ◌>>=◌
  failed_update opts t t' e run = go t.pool refl
    where
      go : (o : Option Pool) → t.pool ≡ o → (h : List Call) × (t'.pool ≡ w.failed_pool h)
      go none held = absurd (ground arith)
      go (some x) held = (Call.update_pool x.id opts ∷ t.calls, ground arith)

  abbrev IdAt : Pool → State → Type 0
  IdAt q t = (x : Pool) → t.pool ≡ some x → UpdatedId w q x.id

  update_pool-Keeps : (q : Pool) (opts : PoolUpdate) → Keeps (IdAt q) (update_pool w opts)
  update_pool-Keeps q opts t t' e inv run x held =
      let (h, same_pool) = failed_update opts t t' e run in stray h x (sym same_pool ∙ held) refl

  -- An update that succeeds was sent under the id that the variable held.
  update_pool-ok :
      (opts : PoolUpdate) (q : Pool) (t t' : State)
      → IdAt q t
      → update_pool w opts t ≡ (ok tt, t')
      → (p : Pool) × (id : Text) × UpdatedId w q id
        × Answered w (Call.update_pool id opts) p t'.calls
        × (t'.pool ≡ some p)
  unfolding update_pool
  update_pool-ok opts q t t' inv run =
      let (x, t1, held, rest) = bind-eq-ok captured_pool _ t t' tt run in
      let c : Call = Call.update_pool x.id opts in
      let (reply, t2, sent, put) = bind-eq-ok (attempt (send w c)) (assign_pool w) t1 t' tt rest in
      let (p, same_reply, now, same_calls) = assigned w reply t2 t' put in
      let (there, _) = captured t t1 x held in
      (
        p,
        x.id,
        inv x there,
        subst (Answered w c p) same_calls
            (attempt-send-Answered w c t1 t2 p (rw same_reply at sent)),
        now,
      )

  updated-ok :
      (r : Result (Unit {0})) (s s' : State) (p : Pool)
      → pool_updated w r s ≡ (ok p, s')
      → (r ≡ ok tt) × (s.pool ≡ some p) × (s ≡ s')
  unfolding pool_updated lift throw
  updated-ok (ok u) s s' p e =
      let (held, same_state) = captured s s' p e in (refl, held, same_state)
  updated-ok (err f) s s' p e =
      let (x, t, _, last) = bind-eq-ok captured_pool _ s s' p e in absurd (ground arith)
  updated-ok panic s s' p e = absurd (ground arith)

  pub reconcile_pool-Ensured :
      (q : Pool) (s s' : State) (p : Pool)
      → is_empty listener.default_pool_id ≡ false
      → Answered w (Call.get_pool listener.default_pool_id) q s.calls
      → Extends Any s.calls s'.calls
      → reconcile_pool w lb_id listener name settings service port q s ≡ (ok p, s')
      → Ensured w listener name settings service port p s'.calls
  unfolding reconcile_pool pure modify
  reconcile_pool-Ensured q s s' p set answered trace e =
      elim (Bool-cases (pool_differs settings (desired_persistence service) q)) [
        | inl differs ↦
            let opts : PoolUpdate = wanted_update w listener name settings service port in
            let (_, s1, e1, r1) = bind-eq-ok (set_pool (some q)) _ s s' p (rw differs at e) in
            let (done, s2, e2, r2) =
              bind-eq-ok (attempt (mutate w lb_id (update_pool w opts))) _ s1 s' p r1 in
            let (is_ok, held, same_state) = updated-ok done s2 s' p r2 in
            let set_to : s1.pool ≡ some q = ground arith in
            let final =
              mutate-Final laws lb_id (IdAt q) (update_pool w opts) s1 s2 (update_pool-Keeps q opts)
                (λ x there. read (ground arith)) (attempt-eq-ok _ s1 s2 tt (rw is_ok at e2)) in
            let (x, id, same_id, sent, now) =
              update_pool-ok opts q final.start final.end final.inv final.result in
            let same_pool : x ≡ p = ground (arith, final.same_vars.pool) in
            updated q id set (Answered-Extends _ _ trace answered) same_id (
              answer_stays w (Call.update_pool id opts) x p final.end.calls s2 s' sent final.trace
                same_state same_pool)
        | inr same ↦
            let r : ◌≡◌ {A = Result Pool × State} (ok q, s) (ok p, s') = rw same at e in
            let same_pool : q ≡ p = ground arith in
            kept set
              (subst (λ y. Answered w (Call.get_pool listener.default_pool_id) y s'.calls) same_pool
                (Answered-Extends _ _ trace answered))
              (rw same_pool at same)
      ]

  -- The pool that is returned is the listener's, read and updated as far as it differs, or one that was created
  -- for a listener that has none.
  pub ensure_pool-Ensured :
      (s s' : State) (p : Pool)
      → ((q : Pool) (t : State)
          → Extends Any t.calls
              (reconcile_pool w lb_id listener name settings service port q t).1.calls)
      → ensure_pool w lb_id listener name settings service port s ≡ (ok p, s')
      → Ensured w listener name settings service port p s'.calls
  unfolding ensure_pool
  ensure_pool-Ensured s s' p traces e = elim (Bool-cases (is_empty listener.default_pool_id)) [
    | inl none_set ↦ created none_set (new_pool-Ensured s s' p (rw none_set at e))
    | inr set ↦
        let c : Call = Call.get_pool listener.default_pool_id in
        let (q, t, e1, e2) =
          bind-eq-ok (or_wrap (Reason.get_pool listener.default_pool_id) (send w c)) _ s s' p
            (rw set at e) in
        reconcile_pool-Ensured q t s' p set
          (or_wrap-send-Answered w c (Reason.get_pool listener.default_pool_id) s t q e1)
          (subst (λ y. Extends Any t.calls y.1.calls) e2 (traces q t)) e2
  ]
