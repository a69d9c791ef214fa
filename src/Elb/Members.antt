-- ===== src/Elb/Members.antt =====
-- reconcileMembers of pkg/elb/elb.go.
pub mod Tables
pub mod Present
pub mod Sent
pub mod Complete
pub mod Steady
pub mod Known
use cloud_provider_opentelek.Base.{
  ℕ, Bool, List, [], ◌∷◌, ◌++◌, Option, none, some, if◌then◌else◌, ◌==◌, nat_eq,
}
use cloud_provider_opentelek.Text.{Text, codes, text_eq, cut_string}
use cloud_provider_opentelek.Text.Decimal.{format_nat}
use cloud_provider_opentelek.Maps.{Dict, lookup, insert, keys, is_some}
use cloud_provider_opentelek.Kube.{Node}
use cloud_provider_opentelek.Cloud.{
  World, M, send, pure, throw, lift, gets, ignore, or_wrap, or_gone, ◌>>=◌, ◌>>◌, fail, Reason,
  Call, Member, MemberOpts, LoadBalancer,
}
use cloud_provider_opentelek.Elb.Names.{max_resource_name_length}
use cloud_provider_opentelek.Elb.Nodes.{node_address}
use cloud_provider_opentelek.Elb.Wait.{mutate}

-- `%s:%d`
unfoldable pub member_key : Text → ℕ → Text
member_key address port = address ++ (codes ":" ++ format_nat port)

-- The map from `addr:port` to the node; a node without an address is skipped. The value keeps the
-- address, which the source computes a second time.
put_node : ℕ → Node → Option Text → Dict (Node × Text) → Dict (Node × Text)
put_node port node none m = m
put_node port node (some address) m = insert (member_key address port) (node, address) m

wanted_from : ℕ → List Node → Dict (Node × Text) → Dict (Node × Text)
wanted_from port [] m = m
wanted_from port (node ∷ nodes) m =
    wanted_from port nodes (put_node port node (node_address node) m)

unfoldable pub wanted_members : ℕ → List Node → Dict (Node × Text)
unfolding put_node wanted_from
wanted_members port nodes = wanted_from port nodes []

have_from : List Member → Dict Text → Dict Text
have_from [] m = m
have_from (x ∷ xs) m = have_from xs (insert (member_key x.address x.protocol_port) x.id m)

-- The map from `addr:port` to the member's id.
unfoldable pub have_members : List Member → Dict Text
unfolding have_from
have_members members = have_from members []

abbrev pub is_nil {ℓ} : {V : Type ℓ} → Dict V → Bool
is_nil [] = Bool.true
is_nil (_ ∷ _) = Bool.false

module _ (w : World) where
  unfoldable pub list_members : Text → M (List Member)
  list_members pool_id = do
    pages ← or_wrap (Reason.list_members pool_id) (send w (Call.list_members pool_id))
    lift pages

  module _ (balancer : LoadBalancer) (pool_id : Text) where
    abbrev pub member_opts : ℕ → Node → Text → MemberOpts
    member_opts node_port node address = record {
      address = address;
      protocol_port = node_port;
      name = cut_string node.name max_resource_name_length;
      subnet_id = balancer.vip_subnet_cidr_id;
    }

    unfoldable pub add_member : ℕ → Text → Node × Text → M Unit
    add_member node_port key (node, address) = or_wrap (Reason.add_member key pool_id) (
        mutate w balancer.id
          (ignore (send w (Call.create_member pool_id (member_opts node_port node address)))))

    -- The body of the first loop, for one key of `wanted`. A key is always found in its own map.
    unfoldable pub add_wanted : ℕ → Dict Text → Text → Option (Node × Text) → M Unit
    add_wanted node_port have key none = pure tt
    add_wanted node_port have key (some entry) =
        if is_some (lookup key have) then pure tt else add_member node_port key entry

    unfoldable pub add_members : ℕ → Dict (Node × Text) → Dict Text → List Text → M Unit
    add_members node_port wanted have [] = pure tt
    add_members node_port wanted have (key ∷ order) = do
      add_wanted node_port have key (lookup key wanted)
      add_members node_port wanted have order

    unfoldable pub remove_member : Text → Text → M Unit
    remove_member key id =
        or_gone (Reason.remove_member key pool_id)
          (mutate w balancer.id (send w (Call.delete_member pool_id id)))

    unfoldable pub remove_unwanted : Dict (Node × Text) → Text → Option Text → M Unit
    remove_unwanted wanted key none = pure tt
    remove_unwanted wanted key (some id) =
        if is_some (lookup key wanted) then pure tt else remove_member key id

    unfoldable pub remove_members : Dict (Node × Text) → Dict Text → List Text → M Unit
    remove_members wanted have [] = pure tt
    remove_members wanted have (key ∷ order) = do
      remove_unwanted wanted key (lookup key have)
      remove_members wanted have order

    -- The two loops, over the maps' keys in the order of `range`.
    unfoldable pub sync_members : ℕ → Dict (Node × Text) → Dict Text → M Unit
    sync_members node_port wanted have = do
      additions ← gets (λ s. w.key_order s.calls (keys wanted))
      add_members node_port wanted have additions
      removals ← gets (λ s. w.key_order s.calls (keys have))
      remove_members wanted have removals

    unfoldable pub reconcile_members : ℕ → List Node → M Unit
    reconcile_members node_port nodes =
        if node_port == 0 then throw (fail (Reason.no_node_port pool_id)) else do
          existing ← list_members pool_id
          let wanted = wanted_members node_port nodes
          if is_nil wanted
              then throw (fail (Reason.no_addresses pool_id))
              else sync_members node_port wanted (have_members existing)
