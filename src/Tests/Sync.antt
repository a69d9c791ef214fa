-- ===== src/Tests/Sync.antt =====
-- A sync of members on a cloud that names each member after its address and port.
use cloud_provider_opentelek.Base.{◌≡◌, ◌↔◌, refl}
use cloud_provider_opentelek.Text.{codes, text_beq}
use cloud_provider_opentelek.Text.Decimal.{format_nat}
use cloud_provider_opentelek.Maps.{lookup, insert, erase, keys}
use cloud_provider_opentelek.Cloud.{State, ok}
use cloud_provider_opentelek.Cloud.Exec.{
  pure, throw, lift, gets, attempt, or_wrap, modify, or_gone, ◌>>=◌, send, ignore, attempts,
}
use cloud_provider_opentelek.Elb.Wait.{
  active_status, settled, retry_test, active_test, wait_for_active, retry_on_conflict, mutate,
}
use cloud_provider_opentelek.Elb.Nodes.{node_address}
use cloud_provider_opentelek.Elb.Members.{
  member_key, wanted_members, have_members, list_members, add_member, add_wanted, add_members,
  remove_member, remove_unwanted, remove_members, sync_members, reconcile_members,
}
use cloud_provider_opentelek.Elb.Members.Known.{IsWanted}
use cloud_provider_opentelek.Elb.Members.Known.Exact.{HasMember, reconcile_members-exact}
use cloud_provider_opentelek.Fake.{
  handle, replay, fake_world-WaitLaws, fake_world-OrderLaws, fake_world,
}
use cloud_provider_opentelek.Tests.Keyed.{keyed, keyed-WaitLaws, keyed-OrderLaws, keyed-MemberLaws}
use cloud_provider_opentelek.Tests.Data.{balancer, pool, nodes, start, running, running_fake}

abbrev synced : State
synced = (reconcile_members (keyed running) balancer pool.id 30080 nodes start).1

syncs_keyed : reconcile_members (keyed running) balancer pool.id 30080 nodes start ≡ (ok tt, synced)
unfolding text_beq format_nat lookup insert erase keys pure throw lift gets attempt or_wrap modify
    or_gone ◌>>=◌ send ignore attempts active_status settled retry_test active_test wait_for_active
    retry_on_conflict mutate node_address member_key wanted_members have_members list_members
    add_member add_wanted add_members remove_member remove_unwanted remove_members sync_members
    reconcile_members handle replay fake_world
syncs_keyed = refl

reconcile_members-exact_example :
    HasMember
      (keyed-WaitLaws (fake_world-WaitLaws running_fake))
      (keyed-OrderLaws (fake_world-OrderLaws running_fake))
      (keyed-MemberLaws running pool.id)
      balancer
      30080
      nodes
      (member_key (codes "10.0.0.9") 30080)
      synced.calls
    ↔ IsWanted
        (keyed-MemberLaws running pool.id)
        balancer.id
        30080
        nodes
        (member_key (codes "10.0.0.9") 30080)
reconcile_members-exact_example =
    reconcile_members-exact (keyed-WaitLaws (fake_world-WaitLaws running_fake))
      (keyed-OrderLaws (fake_world-OrderLaws running_fake)) (keyed-MemberLaws running pool.id)
      balancer 30080 nodes start synced syncs_keyed (member_key (codes "10.0.0.9") 30080)
