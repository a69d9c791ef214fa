-- ===== src/Elb/Pools/Nil.antt =====
-- The update of a pool reads the variable that it writes.
use cloud_provider_opentelek.Base.{
  ℕ, zero, suc, Bool-cases, inl, inr, ◌≡◌, refl, Bool, true, List, ◌∷◌, none, some, arith,
}
use cloud_provider_opentelek.Text.{Text}
use cloud_provider_opentelek.Kube.{Service, ServicePort}
use cloud_provider_opentelek.Settings.{ServiceSettings}
use cloud_provider_opentelek.Cloud.{
  modify, World, State, M, Call, Result, ok, err, panic, Error, Pool, PoolUpdate, Listener,
  is_conflict, attempts, send, attempt, ◌>>=◌,
}
use cloud_provider_opentelek.Elb.Wait.{retry_test, settled, retry_on_conflict, mutate}
use cloud_provider_opentelek.Elb.Pools.{
  pool_differs, desired_persistence, update_pool, assign_pool, captured_pool, pool_updated,
  reconcile_pool,
}

-- The variable is nil after an update that the cloud refuses.
failed_update :
    (w : World) (opts : PoolUpdate) (pool : Pool) (s : State) (e : Error)
    → s.pool ≡ some pool
    → w.answer (Call.update_pool pool.id opts) s.calls ≡ err e
    → ((h : List Call) → w.failed_pool h ≡ none)
    → update_pool w opts s
      ≡ (err e, record s { calls = Call.update_pool pool.id opts ∷ s.calls; pool = none })
unfolding update_pool assign_pool captured_pool ◌>>=◌ send
failed_update w opts pool s e held refused nil =
    ground (arith, nil (Call.update_pool pool.id opts ∷ s.calls))

-- And the next attempt reads it.
nil_update :
    (w : World) (opts : PoolUpdate) (s : State) → s.pool ≡ none → update_pool w opts s ≡ (panic, s)
unfolding update_pool captured_pool ◌>>=◌
nil_update w opts s nil = ground arith

-- How the retry loop ends once the variable is nil.
abbrev IsLost : Result (Unit {0}) × State → Type 0
IsLost (ok _, s) = ⊥
IsLost (err e, s) = s.pool ≡ none
IsLost (panic, s) = Unit

test_nil :
    (w : World) (opts : PoolUpdate) (s : State)
    → s.pool ≡ none
    → retry_test (update_pool w opts) s ≡ (panic, s)
unfolding retry_test ◌>>=◌
test_nil w opts s nil = rw (nil_update w opts s nil)

attempts_nil :
    (w : World) (opts : PoolUpdate) (k : ℕ) (s : State)
    → s.pool ≡ none
    → IsLost (attempts k (retry_test (update_pool w opts)) s)
unfolding attempts
attempts_nil w opts zero s nil = nil
attempts_nil w opts (suc k) s nil = rw (test_nil w opts s nil) tt

test_refused :
    (w : World) (opts : PoolUpdate) (pool : Pool) (s : State) (e : Error)
    → s.pool ≡ some pool
    → w.answer (Call.update_pool pool.id opts) s.calls ≡ err e
    → ((h : List Call) → w.failed_pool h ≡ none)
    → retry_test (update_pool w opts) s
      ≡ (settled (err e), record s { calls = Call.update_pool pool.id opts ∷ s.calls; pool = none })
unfolding retry_test ◌>>=◌
test_refused w opts pool s e held refused nil = rw (failed_update w opts pool s e held refused nil)

attempts_refused :
    (w : World) (opts : PoolUpdate) (pool : Pool) (k : ℕ) (s : State) (e : Error)
    → s.pool ≡ some pool
    → w.answer (Call.update_pool pool.id opts) s.calls ≡ err e
    → ((h : List Call) → w.failed_pool h ≡ none)
    → IsLost (attempts (suc k) (retry_test (update_pool w opts)) s)
unfolding attempts settled
attempts_refused w opts pool k s e held refused nil =
    let s' : State = record s { calls = Call.update_pool pool.id opts ∷ s.calls; pool = none } in
    rw (test_refused w opts pool s e held refused nil) (elim (Bool-cases (is_conflict e)) [
      | inl conflict ↦ rw conflict (attempts_nil w opts k s' refl)
      | inr other ↦ rw other refl
    ])

retry-IsLost :
    (w : World) (opts : PoolUpdate) (pool : Pool) (s : State) (e : Error) (k : ℕ)
    → ((h : List Call) → w.failed_pool h ≡ none)
    → ((test : M Bool) (t : State) → w.backoff 2000 150 6 test t ≡ attempts (suc k) test t)
    → s.pool ≡ some pool
    → w.answer (Call.update_pool pool.id opts) s.calls ≡ err e
    → IsLost (retry_on_conflict w (update_pool w opts) s)
unfolding retry_on_conflict
retry-IsLost w opts pool s e k nil tries held refused =
    rw (tries (retry_test (update_pool w opts)) s)
      (attempts_refused w opts pool k s e held refused nil)

mutate-IsLost_panics :
    (w : World) (lb_id : Text) (opts : PoolUpdate) (s : State)
    → IsLost (retry_on_conflict w (update_pool w opts) s)
    → ((do done ← attempt (mutate w lb_id (update_pool w opts)); pool_updated w done) s).0 ≡ panic
unfolding mutate ◌>>=◌ pool_updated captured_pool
mutate-IsLost_panics w lb_id opts s lost = go (retry_on_conflict w (update_pool w opts) s) refl lost
  where
    go :
        (x : Result (Unit {0}) × State)
        → retry_on_conflict w (update_pool w opts) s ≡ x
        → IsLost x
        → ((do done ← attempt (mutate w lb_id (update_pool w opts)); pool_updated w done) s).0
          ≡ panic
    go (ok _, t) e l = absurd l
    go (err f, t) e l = rw (e, l) refl
    go (panic, t) e l = rw e refl

-- Where the SDK returns nil beside an error, and time is left for one attempt, a refused update of a
-- pool ends in a nil dereference, on whatever error: a conflict is not retried.
pub reconcile_pool_panics :
    (w : World) (lb_id : Text) (listener : Listener) (name : Text) (settings : ServiceSettings)
    (service : Service) (port : ServicePort) (pool : Pool) (s : State) (e : Error) (k : ℕ)
    → ((h : List Call) → w.failed_pool h ≡ none)
    → ((test : M Bool) (t : State) → w.backoff 2000 150 6 test t ≡ attempts (suc k) test t)
    → pool_differs settings (desired_persistence service) pool ≡ true
    → w.answer
        (Call.update_pool pool.id
          (record { lb_method = settings.lb_algorithm; persistence = desired_persistence service }))
        s.calls
      ≡ err e
    → (reconcile_pool w lb_id listener name settings service port pool s).0 ≡ panic
unfolding reconcile_pool modify attempt ◌>>=◌ pool_updated
reconcile_pool_panics w lb_id listener name settings service port pool s e k nil tries differs
      refused =
    rw differs (
      mutate-IsLost_panics w lb_id
        (record { lb_method = settings.lb_algorithm; persistence = desired_persistence service })
        (record s { pool = some pool })
        (retry-IsLost w
          (record { lb_method = settings.lb_algorithm; persistence = desired_persistence service })
          pool (record s { pool = some pool }) e k nil tries refl refused))
