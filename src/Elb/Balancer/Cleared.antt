-- ===== src/Elb/Balancer/Cleared.antt =====
-- What EnsureLoadBalancerDeleted has removed when it succeeds.
pub mod Search
pub mod Eips
pub mod Whole
use cloud_provider_opentelek.Base.{◌≡◌, ◌≢◌, true, false, ◌&&◌, List, ◌∷◌, In, arith, if◌then◌else◌}
use cloud_provider_opentelek.Text.{Text}
use cloud_provider_opentelek.Config.{is_empty}
use cloud_provider_opentelek.Settings.{ServiceSettings}
use cloud_provider_opentelek.Cloud.{World, Call, ok, LoadBalancer, Listener, PublicIpInfo}
use cloud_provider_opentelek.Cloud.Exec.Gone.{Gone, Missing, IsMissing, Replied-Lasts}
use cloud_provider_opentelek.Cloud.Exec.Ends.{Lasts}
use cloud_provider_opentelek.Cloud.Exec.Answers.{Answered, Answered-Extends}
use cloud_provider_opentelek.Elb.Listeners.Cleared.{Cleared}
use cloud_provider_opentelek.Elb.LoadBalancers.{is_shared}
use cloud_provider_opentelek.Elb.Balancer.Found.{Found}
use cloud_provider_opentelek.Elb.Balancer.Permits.{Mine, releases_eips}

abbrev pub EipsGone : World → List PublicIpInfo → List Call → Type 0
EipsGone w eips h =
    (eip : PublicIpInfo)
    → In eip eips
    → is_empty eip.public_ip_id ≡ false
    → Gone w (Call.delete_eip eip.public_ip_id) h

module _ (w : World) (settings : ServiceSettings) (name : Text) where
  -- The cloud has shown that the Service has no load balancer.
  pub data Absent (h : List Call) : Type 0 where
    unlisted :
        (items : List LoadBalancer)
        → is_empty settings.load_balancer_id ≡ true
        → Answered w (Call.list_balancers name) (ok items) h
        → ((b : LoadBalancer) → In b items → b.name ≢ name)
        → Absent h
    unread :
        is_empty settings.load_balancer_id ≡ false
        → Missing w (Call.get_balancer settings.load_balancer_id) h
        → Absent h

  abbrev pub ListenersCleared : List Listener → List Call → Type 0
  ListenersCleared xs h = (l : Listener) → In l xs → Mine settings name l → Cleared w name l h

  -- All that the Service has on `b` is gone: its listeners; and where the load balancer is its own, that
  -- too, with the EIPs that were created with it and are not to be kept.
  pub record Removed (b : LoadBalancer) (h : List Call) : Type 0 where
    pub found : Found w settings name b h
    pub all : List Listener
    pub listed : Answered w (Call.list_listeners b.id) (ok all) h
    pub listeners : ListenersCleared all h
    pub balancer : is_shared settings ≡ false → Gone w (Call.delete_balancer b.id) h
    pub eips :
        is_shared settings ≡ false → releases_eips settings ≡ true → EipsGone w b.public_ips h

  pub data Deleted (h : List Call) : Type 0 where
    absent : Absent h → Deleted h
    removed : (b : LoadBalancer) → Removed b h → Deleted h

  pub Absent-Lasts : Lasts Absent
  Absent-Lasts h h' e (unlisted items own read others) =
      unlisted items own (Answered-Extends _ _ e read) others
  Absent-Lasts h h' e (unread given lost) =
      unread given
        (Replied-Lasts w (Call.get_balancer settings.load_balancer_id) IsMissing h h' e lost)
