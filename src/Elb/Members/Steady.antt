-- ===== src/Elb/Members/Steady.antt =====
-- reconcileMembers where the members are those of the nodes already.
use cloud_provider_opentelek.Base.{
  ℕ, ◌≡◌, ◌≢◌, refl, true, false, List, [], ◌∷◌, Option, none, some, In, inl, inr, Option-cases,
  ◌==◌, nat_eq,
}
use cloud_provider_opentelek.Text.{Text}
use cloud_provider_opentelek.Maps.{Dict, lookup, is_some, keys}
use cloud_provider_opentelek.Kube.{Node}
use cloud_provider_opentelek.Cloud.{
  World, State, Call, ok, Member, LoadBalancer, lift, pure, gets, or_wrap, send, ◌>>=◌,
}
use cloud_provider_opentelek.Elb.Nodes.{node_address}
use cloud_provider_opentelek.Elb.Members.{
  member_key, wanted_members, have_members, list_members, add_wanted, add_members, remove_unwanted,
  remove_members, sync_members, reconcile_members, is_nil,
}
use cloud_provider_opentelek.Elb.Members.Present.{
  key_of, lookup-have_members, lookup-have_members-none,
}
use cloud_provider_opentelek.Elb.Members.Tables.{
  IsTarget, lookup-wanted_members, lookup-wanted_members-none,
}

-- The members of a pool are the addresses of the nodes, with the node port.
pub record InPlace (port : ℕ) (nodes : List Node) (xs : List Member) : Type 0 where
  pub present :
      (node : Node) (address : Text)
      → In node nodes
      → node_address node ≡ some address
      → (x : Member) × In x xs × (key_of x ≡ member_key address port)
  pub wanted :
      (x : Member)
      → In x xs
      → (node : Node) × (address : Text) × IsTarget port nodes (key_of x) node address

module _ (w : World) (balancer : LoadBalancer) (pool_id : Text) (port : ℕ) (nodes : List Node)
    (xs : List Member) (steady : InPlace port nodes xs) where
  has_each :
      (key : Text) (entry : Node × Text)
      → lookup key (wanted_members port nodes) ≡ some entry
      → is_some (lookup key (have_members xs)) ≡ true
  has_each key (node, address) e = elim (Option-cases (lookup key (have_members xs))) [
    | inl missing ↦
        let t : IsTarget port nodes key node address =
          lookup-wanted_members port nodes key node address e in
        let (x, i, same_key) = steady.present node address t.among t.at in
        absurd (lookup-have_members-none xs key x missing i (rw same_key t.same_key))
    | inr (id, there) ↦ rw there refl
  ]

  wants_each :
      (key id : Text)
      → lookup key (have_members xs) ≡ some id
      → is_some (lookup key (wanted_members port nodes)) ≡ true
  wants_each key id e = elim (Option-cases (lookup key (wanted_members port nodes))) [
    | inl missing ↦
        let (x, i, same_key, _) = lookup-have_members xs key id e in
        let (node, address, t) = steady.wanted x i in
        absurd (lookup-wanted_members-none port nodes key node address missing (rw same_key at t))
    | inr (entry, there) ↦ rw there refl
  ]

  add_wanted_skips :
      (key : Text) (o : Option (Node × Text)) (s : State)
      → lookup key (wanted_members port nodes) ≡ o
      → add_wanted w balancer pool_id port (have_members xs) key o s ≡ (ok tt, s)
  unfolding add_wanted pure
  add_wanted_skips key none s e = refl
  add_wanted_skips key (some entry) s e = rw (has_each key entry e) refl

  remove_unwanted_skips :
      (key : Text) (o : Option Text) (s : State)
      → lookup key (have_members xs) ≡ o
      → remove_unwanted w balancer pool_id (wanted_members port nodes) key o s ≡ (ok tt, s)
  unfolding remove_unwanted pure
  remove_unwanted_skips key none s e = refl
  remove_unwanted_skips key (some id) s e = rw (wants_each key id e) refl

  add_members_skips :
      (order : List Text) (s : State)
      → add_members w balancer pool_id port (wanted_members port nodes) (have_members xs) order s
        ≡ (ok tt, s)
  unfolding add_members ◌>>=◌ pure
  add_members_skips [] s = refl
  add_members_skips (key ∷ order) s =
      rw (add_wanted_skips key (lookup key (wanted_members port nodes)) s refl)
        (add_members_skips order s)

  remove_members_skips :
      (order : List Text) (s : State)
      → remove_members w balancer pool_id (wanted_members port nodes) (have_members xs) order s
        ≡ (ok tt, s)
  unfolding remove_members ◌>>=◌ pure
  remove_members_skips [] s = refl
  remove_members_skips (key ∷ order) s =
      rw (remove_unwanted_skips key (lookup key (have_members xs)) s refl)
        (remove_members_skips order s)

  sync_members_skips :
      (s : State)
      → sync_members w balancer pool_id port (wanted_members port nodes) (have_members xs) s
        ≡ (ok tt, s)
  unfolding sync_members gets ◌>>=◌
  sync_members_skips s =
      rw (add_members_skips (w.key_order s.calls (keys (wanted_members port nodes))) s)
        (remove_members_skips (w.key_order s.calls (keys (have_members xs))) s)

  wants_some :
      (node : Node) (address : Text)
      → In node nodes
      → node_address node ≡ some address
      → is_nil (wanted_members port nodes) ≡ false
  unfolding lookup
  wants_some node address i at = filled (wanted_members port nodes) (λ missing.
      lookup-wanted_members-none port nodes (member_key address port) node address missing
        (record { among = i; at = at; same_key = refl }))
    where
      filled :
          (m : Dict (Node × Text)) → lookup (member_key address port) m ≢ none → is_nil m ≡ false
      filled [] h = absurd (h refl)
      filled (_ ∷ _) h = refl

  -- Where the members that the cloud lists are the addresses of the nodes with the node port, reconcileMembers
  -- succeeds and sends nothing but the call that lists them, in whatever order a range visits the maps. The
  -- node port is set and a node has an address.
  pub reconcile_members_steady :
      (s : State) (node : Node) (address : Text)
      → port == 0 ≡ false
      → In node nodes
      → node_address node ≡ some address
      → w.answer (Call.list_members pool_id) s.calls ≡ ok (ok xs)
      → reconcile_members w balancer pool_id port nodes s
        ≡ (ok tt, record s { calls = Call.list_members pool_id ∷ s.calls })
  unfolding reconcile_members list_members or_wrap send lift ◌>>=◌
  reconcile_members_steady s node address some_port i at answered =
      rw (some_port, answered, wants_some node address i at)
        (sync_members_skips (record s { calls = Call.list_members pool_id ∷ s.calls }))
