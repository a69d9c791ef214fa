-- ===== src/Elb/Members/Complete.antt =====
-- After a success every node with an address is a member of the pool.
use cloud_provider_opentelek.Base.{
  ℕ, nat_eq, ◌≡◌, ◌≢◌, refl, subst, true, List, [], ◌∷◌, Option, none, some, In, arith, ◌==◌, inl,
  inr, Bool-cases, Option-cases,
}
use cloud_provider_opentelek.Text.{Text, text_eq, text_beq_iff}
use cloud_provider_opentelek.Maps.{Dict, lookup, keys, contains}
use cloud_provider_opentelek.Kube.{Node}
use cloud_provider_opentelek.Cloud.{
  World, WaitLaws, OrderLaws, State, M, Reason, Call, ok, Member, MemberOpts, LoadBalancer, send,
  pure, throw, ignore, gets,
}
use cloud_provider_opentelek.Cloud.Exec.Sends.{Extends, Sends, Sends-mono}
use cloud_provider_opentelek.Cloud.Exec.Orders.{contains-key_order}
use cloud_provider_opentelek.Cloud.Exec.Answers.{
  Answered, Answered-Extends, bind-eq-ok, or_wrap-eq-ok, send-Answered,
}
use cloud_provider_opentelek.Elb.Nodes.{node_address}
use cloud_provider_opentelek.Elb.Wait.{mutate}
use cloud_provider_opentelek.Cloud.Exec.Ends.{Any}
use cloud_provider_opentelek.Elb.Wait.Last.{Anywhere}
use cloud_provider_opentelek.Elb.Wait.Kept.{mutate-Final}
use cloud_provider_opentelek.Elb.Members.{
  member_key, wanted_members, have_members, member_opts, list_members, add_member, add_wanted,
  add_members, sync_members, reconcile_members, is_nil,
}
use cloud_provider_opentelek.Elb.Members.Tables.{lookup-wanted_members, lookup-wanted_members-none}
use cloud_provider_opentelek.Elb.Members.Present.{
  key_of, lookup-have_members, list_members-Answered,
}
use cloud_provider_opentelek.Elb.Members.Sent.{
  add_wanted-Sends, add_members-Sends, remove_members-Sends,
}

-- The cloud has listed a member with the key, or has answered the call that adds one.
pub data IsMember (w : World) (pool_id : Text) (port : ℕ) (key : Text) (h : List Call)
    : Type 0 where
  listed :
      (xs : List Member) (x : Member)
      → Answered w (Call.list_members pool_id) (ok xs) h
      → In x xs
      → key_of x ≡ key
      → IsMember w pool_id port key h
  added :
      (o : MemberOpts) (x : Member)
      → Answered w (Call.create_member pool_id o) x h
      → member_key o.address port ≡ key
      → IsMember w pool_id port key h

pub IsMember-Extends :
    {F : List Call → Call → Type 0} {w : World} {pool_id : Text} {port : ℕ} {key : Text}
    {h h' : List Call}
    → Extends F h h'
    → IsMember w pool_id port key h
    → IsMember w pool_id port key h'
IsMember-Extends e (listed xs x a i k) = listed xs x (Answered-Extends _ _ e a) i k
IsMember-Extends e (added o x a k) = added o x (Answered-Extends _ _ e a) k

module _ {w : World} (laws : WaitLaws w) (balancer : LoadBalancer) (pool_id : Text) (port : ℕ)
    (nodes : List Node) where
  abbrev wanted : Dict (Node × Text)
  wanted = wanted_members port nodes

  abbrev Has : Text → List Call → Type 0
  Has key h = IsMember w pool_id port key h

  added_member :
      (key : Text) (node : Node) (address : Text) (s s' : State)
      → member_key address port ≡ key
      → add_member w balancer pool_id port key (node, address) s ≡ (ok tt, s')
      → Has key s'.calls
  unfolding add_member ignore pure
  added_member key node address s s' same_key e =
      let c : Call =
        Call.create_member pool_id (member_opts w balancer pool_id port node address) in
      let ran =
        mutate-Final laws balancer.id Anywhere (ignore (send w c)) s s' (λ u u' r _ _. tt) tt
          (or_wrap-eq-ok (Reason.add_member key pool_id) (mutate w balancer.id (ignore (send w c)))
            s s' tt e) in
      let (x, t, sent, rest) =
        bind-eq-ok (send w c) (λ _. pure tt) ran.start ran.end tt ran.result in
      let same_state : t ≡ ran.end = ground arith in
      added (member_opts w balancer pool_id port node address) x
        (Answered-Extends _ _ ran.trace
          (subst (λ u. Answered w c x u.calls) same_state (send-Answered w c ran.start t x sent)))
        same_key

  module _ (xs : List Member) where
    wanted-Has :
        (key : Text) (entry : Option (Node × Text)) (s s' : State)
        → lookup key wanted ≡ entry
        → entry ≢ none
        → Answered w (Call.list_members pool_id) (ok xs) s.calls
        → Extends Any s.calls s'.calls
        → add_wanted w balancer pool_id port (have_members xs) key entry s ≡ (ok tt, s')
        → Has key s'.calls
    unfolding add_wanted
    wanted-Has key none s s' e there a ext r = absurd (there refl)
    wanted-Has key (some (node, address)) s s' e there a ext r =
        elim (Option-cases (lookup key (have_members xs))) [
          | inl absent ↦
              added_member key node address s s'
                (lookup-wanted_members port nodes key node address e).same_key (rw absent at r)
          | inr (id, present) ↦
              let (x, i, same_key, _) = lookup-have_members xs key id present in
              listed xs x (Answered-Extends _ _ ext a) i same_key
        ]

    any :
        {F : List Call → Call → Type 0} {A : Type 0} {m : M A} {s : State}
        → Sends F m s
        → Extends Any s.calls (m s).1.calls
    any k = (Sends-mono (λ h c _ _. tt) k).trace

    add_members-Has :
        (key : Text) (order : List Text) (s s' : State)
        → contains order key ≡ true
        → lookup key wanted ≢ none
        → Answered w (Call.list_members pool_id) (ok xs) s.calls
        → add_members w balancer pool_id port wanted (have_members xs) order s ≡ (ok tt, s')
        → Has key s'.calls
    unfolding add_members contains
    add_members-Has key [] s s' i there a r = absurd (ground arith)
    add_members-Has key (k ∷ order) s s' i there a r =
        let (_, s1, r1, r2) =
          bind-eq-ok (add_wanted w balancer pool_id port (have_members xs) k (lookup k wanted)) _ s
            s' tt r in
        let ext1 : Extends Any s.calls s1.calls =
          subst (λ x. Extends Any s.calls x.1.calls) r1
            (any (
              add_wanted-Sends laws balancer pool_id port nodes xs k (lookup k wanted) s a refl)) in
        let a1 : Answered w (Call.list_members pool_id) (ok xs) s1.calls =
          Answered-Extends _ _ ext1 a in
        let ext2 : Extends Any s1.calls s'.calls =
          subst (λ x. Extends Any s1.calls x.1.calls) r2
            (any (add_members-Sends laws balancer pool_id port nodes xs order s1 a1)) in
        elim (Bool-cases (k == key)) [
          | inl hit ↦
              let same_key : k ≡ key = (text_beq_iff k key).0 hit in
              IsMember-Extends ext2 (
                wanted-Has key (lookup key wanted) s s1 refl there a ext1 (
                  subst
                    (λ j.
                      add_wanted w balancer pool_id port (have_members xs) j (lookup j wanted) s
                      ≡ (ok tt, s1))
                    same_key r1))
          | inr miss ↦ add_members-Has key order s1 s' (rw miss at i) there a1 r2
        ]

  sync_members-Has :
      (xs : List Member) (key : Text) (s s' : State)
      → OrderLaws w
      → lookup key wanted ≢ none
      → Answered w (Call.list_members pool_id) (ok xs) s.calls
      → sync_members w balancer pool_id port wanted (have_members xs) s ≡ (ok tt, s')
      → Has key s'.calls
  unfolding sync_members gets
  sync_members-Has xs key s s' laws' there a r =
      let (order, s1, r1, rest) =
        bind-eq-ok (gets (λ t. w.key_order t.calls (keys wanted))) _ s s' tt r in
      let (_, s2, r2, rest2) =
        bind-eq-ok (add_members w balancer pool_id port wanted (have_members xs) order) _ s1 s' tt
          rest in
      let (removals, s3, r3, r4) =
        bind-eq-ok (gets (λ t. w.key_order t.calls (keys (have_members xs)))) _ s2 s' tt rest2 in
      let same_order : w.key_order s.calls (keys wanted) ≡ order = ground arith in
      let same_1 : s ≡ s1 = ground arith in
      let same_3 : s2 ≡ s3 = ground arith in
      let a1 : Answered w (Call.list_members pool_id) (ok xs) s1.calls =
        subst (λ t. Answered w (Call.list_members pool_id) (ok xs) t.calls) same_1 a in
      let a2 : Answered w (Call.list_members pool_id) (ok xs) s2.calls =
        Answered-Extends _ _
          (subst (λ x. Extends Any s1.calls x.1.calls) r2
            (any xs (add_members-Sends laws balancer pool_id port nodes xs order s1 a1)))
          a1 in
      let a3 : Answered w (Call.list_members pool_id) (ok xs) s3.calls =
        subst (λ t. Answered w (Call.list_members pool_id) (ok xs) t.calls) same_3 a2 in
      let has : Has key s2.calls =
        add_members-Has xs key order s1 s2
          (subst (λ o. contains o key ≡ true) same_order
            (contains-key_order laws' s.calls key wanted there))
          there a1 r2 in
      IsMember-Extends
        (subst (λ x. Extends Any s3.calls x.1.calls) r4
          (any xs (remove_members-Sends laws balancer pool_id port nodes xs removals s3 a3)))
        (subst (λ t. Has key t.calls) same_3 has)

  -- After a success, each address of a node is a member with the node port: the cloud listed it, or answered
  -- the call that adds it.
  pub reconcile_members-IsMember :
      (s s' : State) (node : Node) (address : Text)
      → OrderLaws w
      → reconcile_members w balancer pool_id port nodes s ≡ (ok tt, s')
      → In node nodes
      → node_address node ≡ some address
      → IsMember w pool_id port (member_key address port) s'.calls
  unfolding reconcile_members throw
  reconcile_members-IsMember s s' node address laws' r i at = elim (Bool-cases (port == 0)) [
    | inl zero_port ↦ absurd (ground arith)
    | inr some_port ↦
        let (xs, s1, r1, rest) =
          bind-eq-ok (list_members w pool_id) _ s s' tt (rw some_port at r) in
        let there : lookup (member_key address port) wanted ≢ none = λ missing.
          lookup-wanted_members-none port nodes (member_key address port) node address missing
            (record { among = i; at = at; same_key = refl }) in
        elim (Bool-cases (is_nil wanted)) [
          | inl empty ↦ absurd (ground arith)
          | inr filled ↦
              sync_members-Has xs (member_key address port) s1 s' laws' there
                (list_members-Answered w pool_id s s1 xs r1) (rw filled at rest)
        ]
  ]
