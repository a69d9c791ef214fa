-- ===== src/Tests/Balancer.antt =====
-- The interface methods on the fake cloud.
use cloud_provider_opentelek.Base.{◌≡◌, refl, [], ◌∷◌, some, first, arith}
use cloud_provider_opentelek.Base.Int.{negsuc}
use cloud_provider_opentelek.Text.{text_beq, cut_string}
use cloud_provider_opentelek.Text.Decimal.{atoi}
use cloud_provider_opentelek.Settings.{
  settings_for_service, ann_int, ann_value, parsed, annotation_eip_bandwidth,
}
use cloud_provider_opentelek.Settings.Valid.{IsValid, settings_for_service-IsValid}
use cloud_provider_opentelek.Cloud.{State, Call, send, ◌>>=◌, ok, err, fail, negative_value}
use cloud_provider_opentelek.Cloud.Exec.Sends.{Sends}
use cloud_provider_opentelek.Cloud.Exec.Answers.{now}
use cloud_provider_opentelek.Elb.LoadBalancers.{find_load_balancer, find_by_name}
use cloud_provider_opentelek.Elb.Balancer.{
  ensure_load_balancer, update_load_balancer, get_load_balancer, ensure_load_balancer_deleted,
}
use cloud_provider_opentelek.Elb.Balancer.Found.{Found, find_load_balancer-Found}
use cloud_provider_opentelek.Elb.Balancer.Guards.{Checked, ensure_load_balancer_checks}
use cloud_provider_opentelek.Elb.Balancer.Permits.{Deletion}
use cloud_provider_opentelek.Elb.Balancer.Deletion.{ensure_load_balancer_deleted-Sends}
use cloud_provider_opentelek.Elb.Balancer.Reading.{Reading, get_load_balancer-Sends}
use cloud_provider_opentelek.Elb.Members.Sent.{Syncing, reconcile_members-Sends}
use cloud_provider_opentelek.Elb.Members.{reconcile_members}
use cloud_provider_opentelek.Elb.Monitors.{desired_probe, reconcile_monitor}
use cloud_provider_opentelek.Elb.Monitors.Sent.{Probing, reconcile_monitor-Sends}
use cloud_provider_opentelek.Elb.Listeners.{delete_listener}
use cloud_provider_opentelek.Elb.Listeners.Permits.{Teardown, Listed}
use cloud_provider_opentelek.Elb.Listeners.Teardown.{delete_listener-Sends}
use cloud_provider_opentelek.Elb.Balancer.Permits.{Mine}
use cloud_provider_opentelek.Elb.Balancer.Ensuring.{Ensuring, ensure_load_balancer-Sends}
use cloud_provider_opentelek.Elb.Balancer.Updating.{Updating, update_load_balancer-Sends}
use cloud_provider_opentelek.Elb.Reconcile.{reconcile}
use cloud_provider_opentelek.Elb.Reconcile.Permits.{Reconciling}
use cloud_provider_opentelek.Elb.Reconcile.Sent.{reconcile-Sends}
use cloud_provider_opentelek.Fake.Resources.{empty_fake}
use cloud_provider_opentelek.Fake.{fake_world-WaitLaws, fake_world, handle, replay}
use cloud_provider_opentelek.Maps.{lookup}
use cloud_provider_opentelek.Elb.Names.{load_balancer_name}
use cloud_provider_opentelek.Tests.Data.{
  opts, web, wrong, http, nodes, cloud, running, running_fake, start, cluster, name, web_settings,
  web_settings_lem, balancer, listener, pool,
}

ensure_load_balancer_deleted-Sends_example :
    Sends
      (Deletion running web_settings name)
      (ensure_load_balancer_deleted running opts cluster web)
      start
ensure_load_balancer_deleted-Sends_example =
    ensure_load_balancer_deleted-Sends (fake_world-WaitLaws running_fake) web_settings opts cluster
      web start web_settings_lem

wrong_settings :
    settings_for_service opts wrong
    ≡ err (fail (negative_value (negsuc 4) annotation_eip_bandwidth))
unfolding settings_for_service ann_int ann_value parsed text_beq atoi
wrong_settings = refl

reconcile_members-Sends_example :
    Sends
      (Syncing running balancer.id pool.id 30080 nodes)
      (reconcile_members running balancer pool.id 30080 nodes)
      start
reconcile_members-Sends_example =
    reconcile_members-Sends (fake_world-WaitLaws running_fake) balancer pool.id 30080 nodes start

reconcile_monitor-Sends_example :
    Sends
      (Probing running pool web_settings (desired_probe web_settings web http) balancer.id)
      (reconcile_monitor running balancer.id pool name web_settings http web)
      start
reconcile_monitor-Sends_example =
    reconcile_monitor-Sends (fake_world-WaitLaws running_fake) pool name web_settings web http
      balancer.id start

ensure_load_balancer_checks_example : Checked cloud opts cluster web nodes start
ensure_load_balancer_checks_example = ensure_load_balancer_checks cloud opts cluster web nodes start

get_load_balancer-Sends_example :
    Sends (Reading name) (get_load_balancer running opts cluster web) start
get_load_balancer-Sends_example = get_load_balancer-Sends running opts cluster web start

settings_for_service-IsValid_example : IsValid web_settings
settings_for_service-IsValid_example =
    settings_for_service-IsValid opts web web_settings web_settings_lem

-- The load balancer is found by its name.
abbrev after_find : State
after_find = (find_load_balancer running web_settings name start).1

found_it : find_load_balancer running web_settings name start ≡ (ok (some balancer), after_find)
unfolding find_load_balancer ◌>>=◌ send fake_world find_by_name handle lookup text_beq
    load_balancer_name cut_string
found_it = refl

find_load_balancer-Found_example : Found running web_settings name balancer after_find.calls
find_load_balancer-Found_example =
    find_load_balancer-Found running web_settings name start after_find balancer found_it

-- The listener is listed.
abbrev after_list : State
after_list = record start { calls = Call.list_listeners balancer.id ∷ [] }

lists_it : running.answer (Call.list_listeners balancer.id) [] ≡ ok (ok (listener ∷ []))
unfolding fake_world handle replay text_beq
lists_it = refl

listed : Listed running balancer.id listener after_list.calls
listed = record { all = listener ∷ []; answered = now lists_it; member = first }

delete_listener-Sends_example :
    Sends
      (Teardown running balancer.id name (Mine web_settings name))
      (delete_listener running balancer.id name listener)
      after_list
delete_listener-Sends_example =
    delete_listener-Sends (fake_world-WaitLaws running_fake) balancer.id name
      (Mine web_settings name) listener after_list (λ shared. ground arith) listed

ensure_load_balancer-Sends_example :
    Sends
      (Ensuring cloud web_settings name web nodes)
      (ensure_load_balancer cloud opts cluster web nodes)
      start
ensure_load_balancer-Sends_example =
    ensure_load_balancer-Sends (fake_world-WaitLaws empty_fake) web_settings opts cluster web nodes
      start web_settings_lem

update_load_balancer-Sends_example :
    Sends
      (Updating running web_settings name web nodes)
      (update_load_balancer running opts cluster web nodes)
      start
update_load_balancer-Sends_example =
    update_load_balancer-Sends (fake_world-WaitLaws running_fake) web_settings opts cluster web
      nodes start web_settings_lem

reconcile-Sends_example :
    Sends
      (Reconciling running balancer.id name web nodes)
      (reconcile running balancer name web_settings web nodes)
      start
reconcile-Sends_example =
    reconcile-Sends (fake_world-WaitLaws running_fake) balancer name web_settings web nodes start
