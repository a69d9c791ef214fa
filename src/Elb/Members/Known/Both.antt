-- ===== src/Elb/Members/Known/Both.antt =====
-- The two loops of reconcileMembers one after the other.
use cloud_provider_opentelek.Base.{ℕ, ◌≡◌, ◌≢◌, sym, subst, ap, List, none, In, arith, nat_eq}
use cloud_provider_opentelek.Text.{Text}
use cloud_provider_opentelek.Maps.{Dict, lookup, keys}
use cloud_provider_opentelek.Kube.{Node}
use cloud_provider_opentelek.Cloud.{
  World, WaitLaws, OrderLaws, State, Call, Member, LoadBalancer, gets, ◌>>=◌,
}
use cloud_provider_opentelek.Cloud.Exec.Sends.{Extends, same, Sends, Sends-bind, Sends-gets}
use cloud_provider_opentelek.Cloud.Exec.Ends.{Ends, Ends-mono, Ends-bind}
use cloud_provider_opentelek.Cloud.Exec.Orders.{contains-key_order}
use cloud_provider_opentelek.Cloud.Exec.Answers.{Answered-Extends}
use cloud_provider_opentelek.Elb.Members.{
  wanted_members, have_members, add_members, remove_members, sync_members,
}
use cloud_provider_opentelek.Elb.Members.Present.{key_of}
use cloud_provider_opentelek.Elb.Members.Sent.{add_members-Sends, remove_members-Sends}
use cloud_provider_opentelek.Elb.Members.Known.{MemberLaws, IsWanted}
use cloud_provider_opentelek.Elb.Members.Known.Loops.{
  F, Lists, framed, HasKey, HasKey-Changing, Stays, add_members-Ends, Lost,
}
use cloud_provider_opentelek.Elb.Members.Known.Removals.{remove_members-Ends}

gets-Ends :
    {A : Type 0} (f : State → A) (s : State) → Ends (λ a h. (h ≡ s.calls) × (a ≡ f s)) (gets f) s
unfolding gets
gets-Ends f s = record {
  trace = same;
  goal = λ a s' e. (ap (λ p. p.1.calls) (sym e), ground arith);
}

module _ {w : World} (laws : WaitLaws w) (orders : OrderLaws w) {pool_id : Text}
    (members : MemberLaws w pool_id) (balancer : LoadBalancer) (port : ℕ) (nodes : List Node) where
  abbrev Want : Text → Type 0
  Want = IsWanted members balancer.id port nodes

  abbrev wanted : Dict (Node × Text)
  wanted = wanted_members port nodes

  module _ (xs : List Member)
      (same_ids : (x y : Member) → In x xs → In y xs → key_of x ≡ key_of y → x.id ≡ y.id) where
    abbrev Has : Text → List Call → Type 0
    Has = HasKey laws members balancer port nodes xs

    abbrev L : Text → List Call → Type 0
    L = Lost laws members balancer port nodes xs

    abbrev AllHave : List Call → Type 0
    AllHave h = (key : Text) → lookup key wanted ≢ none → Has key h

    abbrev AllLost : List Call → Type 0
    AllLost h = (key : Text) → lookup key (have_members xs) ≢ none → L key h

    removals-Ends :
        (s : State)
        → Lists laws members balancer port nodes xs s.calls
        → Ends
            (λ _ h. AllLost h)
            (do
              removals ← gets (λ t. w.key_order t.calls (keys (have_members xs)))
              remove_members w balancer pool_id wanted (have_members xs) removals)
            s
    removals-Ends s answered =
        Ends-bind _ s (gets (λ t. w.key_order t.calls (keys (have_members xs)))) _
          (gets-Ends (λ t. w.key_order t.calls (keys (have_members xs))) s)
          (λ order t _ told.
            Ends-mono
              (λ _ h lost key there.
                lost key
                  (rw told.1 (contains-key_order orders s.calls key (have_members xs) there)))
              (remove_members-Ends laws members balancer port nodes xs same_ids order t
                (subst (Lists laws members balancer port nodes xs) (sym told.0) answered)))

    removals-Sends :
        (s : State)
        → Lists laws members balancer port nodes xs s.calls
        → Sends
            (F laws members balancer port nodes xs)
            (do
              removals ← gets (λ t. w.key_order t.calls (keys (have_members xs)))
              remove_members w balancer pool_id wanted (have_members xs) removals)
            s
    removals-Sends s answered = Sends-bind s _ _ (Sends-gets s _) (λ order t r.
        remove_members-Sends laws balancer pool_id port nodes xs order t
          (Answered-Extends _ _ r.trace answered))

    pub sync-Ends :
        (s : State)
        → Lists laws members balancer port nodes xs s.calls
        → Stays laws members balancer port nodes xs s.calls
        → Ends
            (λ _ h. AllHave h × AllLost h)
            (sync_members w balancer pool_id port wanted (have_members xs))
            s
    unfolding sync_members
    sync-Ends s answered there =
        Ends-bind _ s (gets (λ t. w.key_order t.calls (keys wanted))) _
          (gets-Ends (λ t. w.key_order t.calls (keys wanted)) s)
          (λ order t _ told.
            let answered_t =
              subst (Lists laws members balancer port nodes xs) (sym told.0) answered in
            let adds = add_members-Sends laws balancer pool_id port nodes xs order t answered_t in
            Ends-bind _ t (add_members w balancer pool_id port wanted (have_members xs) order) _
              (add_members-Ends laws members balancer port nodes xs order t answered_t
                (subst (Stays laws members balancer port nodes xs) (sym told.0) there))
              (λ _ u run has.
                let moved : Extends (F laws members balancer port nodes xs) t.calls u.calls =
                  subst (λ x. Extends (F laws members balancer port nodes xs) t.calls x.1.calls) run
                    adds.trace in
                let answered_u = Answered-Extends _ _ moved answered_t in
                framed laws members balancer port nodes xs
                  (λ h h' e all key want.
                    HasKey-Changing laws members balancer port nodes xs key h h' e (all key want))
                  (λ key want.
                    has key (rw told.1 (contains-key_order orders s.calls key wanted want)))
                  (removals-Sends u answered_u) (removals-Ends u answered_u)))
