-- ===== src/Tests/Membership.antt =====
-- The addresses of the nodes as members of a pool of the fake cloud, whose members have another port.
use cloud_provider_opentelek.Base.{◌≡◌, refl, ap, List, [], ◌∷◌, some, In, first, later, arith}
use cloud_provider_opentelek.Text.{Text, codes, text_beq}
use cloud_provider_opentelek.Kube.{Node}
use cloud_provider_opentelek.Text.Decimal.{format_nat}
use cloud_provider_opentelek.Maps.{lookup, insert, erase, keys}
use cloud_provider_opentelek.Cloud.{ok, State, Call, Member}
use cloud_provider_opentelek.Cloud.Exec.{
  pure, throw, lift, gets, attempt, or_wrap, modify, or_gone, ◌>>=◌, send, ignore, attempts,
}
use cloud_provider_opentelek.Elb.Wait.{
  active_status, settled, retry_test, active_test, wait_for_active, retry_on_conflict, mutate,
}
use cloud_provider_opentelek.Elb.Nodes.{node_address}
use cloud_provider_opentelek.Elb.Members.{
  member_key, wanted_members, have_members, list_members, add_member, add_wanted, add_members,
  remove_member, remove_unwanted, remove_members, sync_members, reconcile_members,
}
use cloud_provider_opentelek.Elb.Members.Complete.{IsMember, reconcile_members-IsMember}
use cloud_provider_opentelek.Elb.Members.Present.{key_of}
use cloud_provider_opentelek.Elb.Members.Tables.{IsTarget}
use cloud_provider_opentelek.Elb.Members.Steady.{InPlace, reconcile_members_steady}
use cloud_provider_opentelek.Fake.{
  fake_world-WaitLaws, fake_world-OrderLaws, handle, replay, fake_world,
}
use cloud_provider_opentelek.Tests.Data.{
  balancer, member, pool, node, nodes, start, running, running_fake,
}

abbrev after_sync : State
after_sync = (reconcile_members running balancer pool.id 30081 nodes start).1

syncs : reconcile_members running balancer pool.id 30081 nodes start ≡ (ok tt, after_sync)
unfolding text_beq format_nat lookup insert erase keys pure throw lift gets attempt or_wrap modify
    or_gone ◌>>=◌ send ignore attempts active_status settled retry_test active_test wait_for_active
    retry_on_conflict mutate node_address member_key wanted_members have_members list_members
    add_member add_wanted add_members remove_member remove_unwanted remove_members sync_members
    reconcile_members handle replay fake_world
syncs = refl

addressed : node_address (node (codes "node-1") (codes "10.0.0.1")) ≡ some (codes "10.0.0.1")
unfolding node_address text_beq
addressed = refl

reconcile_members-IsMember_example :
    IsMember running pool.id 30081 (member_key (codes "10.0.0.1") 30081) after_sync.calls
reconcile_members-IsMember_example =
    reconcile_members-IsMember (fake_world-WaitLaws running_fake) balancer pool.id 30081 nodes start
      after_sync (node (codes "node-1") (codes "10.0.0.1")) (codes "10.0.0.1")
      (fake_world-OrderLaws running_fake) syncs first addressed

abbrev listed : List Member
listed =
    member (codes "member-0004") (codes "10.0.0.1")
    ∷ member (codes "member-0005") (codes "10.0.0.2")
    ∷ []

in_place : InPlace 30080 nodes listed
unfolding node_address text_beq
in_place = record { present = has_node; wanted = has_target }
  where
    has_node :
        (n : Node) (address : Text)
        → In n nodes
        → node_address n ≡ some address
        → (x : Member) × In x listed × (key_of x ≡ member_key address 30080)
    has_node _ address first at = (
      member (codes "member-0004") (codes "10.0.0.1"),
      first,
      ap (λ a. member_key a 30080) (ground arith),
    )
    has_node _ address (later _ first) at = (
      member (codes "member-0005") (codes "10.0.0.2"),
      later _ first,
      ap (λ a. member_key a 30080) (ground arith),
    )
    has_node _ address (later _ (later _ i)) at = elim i [ ]

    has_target :
        (x : Member)
        → In x listed
        → (n : Node) × (address : Text) × IsTarget 30080 nodes (key_of x) n address
    has_target _ first = (
      node (codes "node-1") (codes "10.0.0.1"),
      codes "10.0.0.1",
      record { among = first; at = refl; same_key = refl },
    )
    has_target _ (later _ first) = (
      node (codes "node-2") (codes "10.0.0.2"),
      codes "10.0.0.2",
      record { among = later _ first; at = refl; same_key = refl },
    )
    has_target _ (later _ (later _ i)) = elim i [ ]

lists_both : running.answer (Call.list_members pool.id) start.calls ≡ ok (ok listed)
unfolding text_beq lookup handle replay fake_world
lists_both = refl

reconcile_members_steady_example :
    reconcile_members running balancer pool.id 30080 nodes start
    ≡ (ok tt, record start { calls = Call.list_members pool.id ∷ [] })
reconcile_members_steady_example =
    reconcile_members_steady running balancer pool.id 30080 nodes listed in_place start
      (node (codes "node-1") (codes "10.0.0.1")) (codes "10.0.0.1") refl first addressed lists_both
