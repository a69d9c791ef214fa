-- ===== src/Elb/Members/Sent.antt =====
-- What reconcileMembers sends.
use cloud_provider_opentelek.Base.{
  ℕ, nat_eq, ◌≡◌, ◌≢◌, refl, List, [], ◌∷◌, Option, none, some, In, arith, ◌==◌,
}
use cloud_provider_opentelek.Text.{Text}
use cloud_provider_opentelek.Maps.{Dict, lookup}
use cloud_provider_opentelek.Kube.{Node}
use cloud_provider_opentelek.Cloud.{World, WaitLaws, State, Call, ok, Member, LoadBalancer, send}
use cloud_provider_opentelek.Cloud.Exec.Sends.{
  Extends-trans, Sends, Sends-mono, Sends-pure, Sends-throw, Sends-gets, Sends-if, Sends-send,
  Sends-ignore, Sends-bind, Sends-or_wrap, Sends-or_gone, Sends-lift,
}
use cloud_provider_opentelek.Cloud.Exec.Answers.{Answered, Answered-Extends}
use cloud_provider_opentelek.Elb.Wait.Sent.{mutate-Sends}
use cloud_provider_opentelek.Elb.Members.{
  member_key, wanted_members, have_members, member_opts, list_members, add_member, add_wanted,
  add_members, remove_member, remove_unwanted, remove_members, sync_members, reconcile_members,
  is_nil,
}
use cloud_provider_opentelek.Elb.Members.Tables.{
  IsTarget, lookup-wanted_members, lookup-wanted_members-none,
}
use cloud_provider_opentelek.Elb.Members.Present.{
  list_members-Answered, key_of, lookup-have_members, lookup-have_members-none,
}

module _ (w : World) (lb_id pool_id : Text) (node_port : ℕ) (nodes : List Node) where
  -- The cloud has listed the pool's members, as `xs`.
  abbrev pub ListedMembers : List Member → List Call → Type 0
  ListedMembers xs h = Answered w (Call.list_members pool_id) (ok xs) h

  -- A member is added for an address of a node, where no listed member has that address and port; a listed
  -- member is removed where no node has its address and port.
  abbrev pub Syncing : List Call → Call → Type 0
  Syncing h (Call.get_balancer id) = id ≡ lb_id
  Syncing h (Call.list_members id) = id ≡ pool_id
  Syncing h (Call.create_member id o) =
      (id ≡ pool_id)
      × (xs : List Member) × ListedMembers xs h
      × (node : Node) × (o.protocol_port ≡ node_port)
      × IsTarget node_port nodes (member_key o.address node_port) node o.address
      × ((x : Member) → In x xs → key_of x ≢ member_key o.address node_port)
  Syncing h (Call.delete_member id member_id) =
      (id ≡ pool_id)
      × (xs : List Member) × ListedMembers xs h
      × (x : Member) × In x xs
      × (x.id ≡ member_id)
      × ((node : Node) (address : Text) → ¬ IsTarget node_port nodes (key_of x) node address)
  Syncing h _ = ⊥

  -- The same without the call that lists the members.
  abbrev pub Changing : List Call → Call → Type 0
  Changing h (Call.list_members id) = ⊥
  Changing h (Call.get_balancer id) = Syncing h (Call.get_balancer id)
  Changing h (Call.create_member id o) = Syncing h (Call.create_member id o)
  Changing h (Call.delete_member id member_id) = Syncing h (Call.delete_member id member_id)
  Changing h _ = ⊥

  Changing-Syncing : (h : List Call) (c : Call) → Changing h c → Syncing h c
  Changing-Syncing h (Call.get_balancer id) p = p
  Changing-Syncing h (Call.create_member id o) p = p
  Changing-Syncing h (Call.delete_member id member_id) p = p
  Changing-Syncing h (Call.list_members id) p = absurd p
  Changing-Syncing h c p = absurd p

module _ {w : World} (laws : WaitLaws w) (balancer : LoadBalancer) (pool_id : Text) (node_port : ℕ)
    (nodes : List Node) where
  abbrev S : List Call → Call → Type 0
  S = Changing w balancer.id pool_id node_port nodes

  abbrev wanted : Dict (Node × Text)
  wanted = wanted_members node_port nodes

  module _ (xs : List Member) where
    abbrev Listed : List Call → Type 0
    Listed = ListedMembers w balancer.id pool_id node_port nodes xs

    add_member-Sends :
        (key : Text) (node : Node) (address : Text) (s : State)
        → Listed s.calls
        → lookup key wanted ≡ some (node, address)
        → lookup key (have_members xs) ≡ none
        → Sends S (add_member w balancer pool_id node_port key (node, address)) s
    unfolding add_member
    add_member-Sends key node address s listed is_wanted absent =
        let t : IsTarget node_port nodes key node address =
          lookup-wanted_members node_port nodes key node address is_wanted in
        let c : Call =
          Call.create_member pool_id (member_opts w balancer pool_id node_port node address) in
        Sends-or_wrap s _ _ (
          mutate-Sends laws balancer.id (λ h. refl) _ s
            (λ s' e.
              let permitted : S s'.calls c = (
                refl,
                xs,
                Answered-Extends _ _ e listed,
                node,
                refl,
                record { among = t.among; at = t.at; same_key = refl },
                λ x i. rw (t.same_key) (lookup-have_members-none xs key x absent i),
              ) in
              Sends-ignore s' (send w c) (Sends-send s' w c permitted)))

    remove_member-Sends :
        (key id : Text) (s : State)
        → Listed s.calls
        → lookup key (have_members xs) ≡ some id
        → lookup key wanted ≡ none
        → Sends S (remove_member w balancer pool_id key id) s
    unfolding remove_member
    remove_member-Sends key id s listed present unwanted =
        let (x, i, same_key, same_id) = lookup-have_members xs key id present in
        Sends-or_gone s _ _ (
          mutate-Sends laws balancer.id (λ h. refl) _ s
            (λ s' e.
              let permitted : S s'.calls (Call.delete_member pool_id id) = (
                refl,
                xs,
                Answered-Extends _ _ e listed,
                x,
                i,
                same_id,
                rw same_key (λ node address.
                    lookup-wanted_members-none node_port nodes key node address unwanted),
              ) in
              Sends-send s' w (Call.delete_member pool_id id) permitted))

    pub add_wanted-Sends :
        (key : Text) (entry : Option (Node × Text)) (s : State)
        → Listed s.calls
        → lookup key wanted ≡ entry
        → Sends S (add_wanted w balancer pool_id node_port (have_members xs) key entry) s
    unfolding add_wanted
    add_wanted-Sends key none s listed e = Sends-pure s tt
    add_wanted-Sends key (some (node, address)) s listed e =
        Sends-if s _ _ _ (λ _. Sends-pure s tt)
          (λ absent. add_member-Sends key node address s listed e (ground arith))

    pub add_members-Sends :
        (order : List Text) (s : State)
        → Listed s.calls
        → Sends S (add_members w balancer pool_id node_port wanted (have_members xs) order) s
    unfolding add_members
    add_members-Sends [] s listed = Sends-pure s tt
    add_members-Sends (key ∷ order) s listed =
        Sends-bind s _ _ (add_wanted-Sends key (lookup key wanted) s listed refl)
          (λ _ s' r. add_members-Sends order s' (Answered-Extends _ _ r.trace listed))

    pub remove_unwanted-Sends :
        (key : Text) (entry : Option Text) (s : State)
        → Listed s.calls
        → lookup key (have_members xs) ≡ entry
        → Sends S (remove_unwanted w balancer pool_id wanted key entry) s
    unfolding remove_unwanted
    remove_unwanted-Sends key none s listed e = Sends-pure s tt
    remove_unwanted-Sends key (some id) s listed e =
        Sends-if s _ _ _ (λ _. Sends-pure s tt)
          (λ absent. remove_member-Sends key id s listed e (ground arith))

    pub remove_members-Sends :
        (order : List Text) (s : State)
        → Listed s.calls
        → Sends S (remove_members w balancer pool_id wanted (have_members xs) order) s
    unfolding remove_members
    remove_members-Sends [] s listed = Sends-pure s tt
    remove_members-Sends (key ∷ order) s listed =
        Sends-bind s _ _ (remove_unwanted-Sends key (lookup key (have_members xs)) s listed refl)
          (λ _ s' r. remove_members-Sends order s' (Answered-Extends _ _ r.trace listed))

    pub sync_members-Sends :
        (s : State)
        → Listed s.calls
        → Sends S (sync_members w balancer pool_id node_port wanted (have_members xs)) s
    unfolding sync_members
    sync_members-Sends s listed = Sends-bind s _ _ (Sends-gets s _) (λ additions s1 r1.
        Sends-bind s1 _ _ (add_members-Sends additions s1 (Answered-Extends _ _ r1.trace listed))
          (λ _ s2 r2. Sends-bind s2 _ _ (Sends-gets s2 _) (λ removals s3 r3.
            remove_members-Sends removals s3 (
              Answered-Extends _ _ (Extends-trans r1.trace (Extends-trans r2.trace r3.trace))
                listed))))

  abbrev Permitted : List Call → Call → Type 0
  Permitted = Syncing w balancer.id pool_id node_port nodes

  -- Whatever the cloud answers, and wherever it fails, the reconciliation of the members of a pool sends
  -- only what `Syncing` permits: it adds a member only for the address of a node that no listed member
  -- has, and removes only listed members that stand for no node.
  pub reconcile_members-Sends :
      (s : State) → Sends Permitted (reconcile_members w balancer pool_id node_port nodes) s
  unfolding reconcile_members list_members
  reconcile_members-Sends s =
      Sends-if s (node_port == 0) _ _ (λ _. Sends-throw s _)
        (λ _.
          Sends-bind s (list_members w pool_id) _
            (Sends-bind s _ _
              (Sends-or_wrap s _ _ (
                let permitted : Permitted s.calls (Call.list_members pool_id) = refl in
                Sends-send s w (Call.list_members pool_id) permitted))
              (λ pages s' r. Sends-lift s' pages))
            (λ xs s' r.
              Sends-if s' (is_nil wanted) _ _ (λ _. Sends-throw s' _)
                (λ _.
                  Sends-mono (λ h c _. Changing-Syncing w balancer.id pool_id node_port nodes h c)
                    (sync_members-Sends xs s' (list_members-Answered w pool_id s s' xs r.result)))))
