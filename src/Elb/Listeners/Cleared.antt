-- ===== src/Elb/Listeners/Cleared.antt =====
-- What deleteListener has removed when it succeeds.
pub mod Pools
pub mod Whole
use cloud_provider_opentelek.Base.{◌≡◌, true, false, List, ◌∷◌, In, arith, if◌then◌else◌}
use cloud_provider_opentelek.Text.{Text}
use cloud_provider_opentelek.Config.{is_empty}
use cloud_provider_opentelek.Cloud.{World, Call, ok, Listener, Pool, Member, IpGroup, ◌>>=◌, ◌>>◌}
use cloud_provider_opentelek.Cloud.Exec.Ends.{Lasts}
use cloud_provider_opentelek.Cloud.Exec.Gone.{IsMissing, IsGone, Gone, Missing, Replied-Lasts}
use cloud_provider_opentelek.Cloud.Exec.Answers.{Answered, Answered-Extends}
use cloud_provider_opentelek.Elb.Names.{is_owned}
use cloud_provider_opentelek.Elb.Members.{list_members}
use cloud_provider_opentelek.Elb.Monitors.{delete_monitor}
use cloud_provider_opentelek.Elb.IpGroups.{delete_ip_group}
use cloud_provider_opentelek.Elb.Listeners.{delete_pool, delete_listener}
use cloud_provider_opentelek.Elb.Listeners.Permits.{PoolOf, PoolOf-Extends}

module _ (w : World) where
  -- The cloud has shown that the listener has no pool.
  pub data NoPool (id : Text) (h : List Call) : Type 0 where
    unset :
        (l : Listener)
        → Answered w (Call.get_listener id) l h
        → is_empty l.default_pool_id ≡ true
        → NoPool id h
    vanished :
        (l : Listener)
        → Answered w (Call.get_listener id) l h
        → Missing w (Call.get_pool l.default_pool_id) h
        → NoPool id h

  abbrev pub MembersGone : Text → List Member → List Call → Type 0
  MembersGone pool_id xs h = (m : Member) → In m xs → Gone w (Call.delete_member pool_id m.id) h

  pub MembersGone-Lasts : (pool_id : Text) (xs : List Member) → Lasts (MembersGone pool_id xs)
  MembersGone-Lasts pool_id xs h h' e gone m i =
      Replied-Lasts w (Call.delete_member pool_id m.id) IsGone h h' e (gone m i)

  -- The pool is gone, with its monitor and with all its members that the cloud has listed.
  pub record PoolCleared (p : Pool) (h : List Call) : Type 0 where
    pub monitor : is_empty p.monitor_id ≡ false → Gone w (Call.delete_monitor p.monitor_id) h
    pub all : List Member
    pub listed : Answered w (Call.list_members p.id) (ok all) h
    pub members : MembersGone p.id all h
    pub pool : Gone w (Call.delete_pool p.id) h

  pub data PoolSettled (id : Text) (h : List Call) : Type 0 where
    no_pool : NoPool id h → PoolSettled id h
    cleared : (p : Pool) → PoolOf w id p h → PoolCleared p h → PoolSettled id h

  -- The IP group is gone, unless it is not the Service's.
  pub data GroupSettled (name id : Text) (h : List Call) : Type 0 where
    no_group : is_empty id ≡ true → GroupSettled name id h
    missing : Missing w (Call.get_ip_group id) h → GroupSettled name id h
    foreign :
        (g : IpGroup)
        → Answered w (Call.get_ip_group id) g h
        → is_owned name g.name ≡ false
        → GroupSettled name id h
    removed : Gone w (Call.delete_ip_group id) h → GroupSettled name id h

  pub record Cleared (name : Text) (l : Listener) (h : List Call) : Type 0 where
    pub pool : PoolSettled l.id h
    pub listener : Gone w (Call.delete_listener l.id) h
    pub group : GroupSettled name l.ip_group.ip_group_id h

  pub PoolOf-Lasts : (id : Text) (p : Pool) → Lasts (PoolOf w id p)
  PoolOf-Lasts id p h h' e x = PoolOf-Extends w e x

  NoPool-Lasts : (id : Text) → Lasts (NoPool id)
  NoPool-Lasts id h h' e (unset l read none_set) = unset l (Answered-Extends _ _ e read) none_set
  NoPool-Lasts id h h' e (vanished l read lost) =
      vanished l (Answered-Extends _ _ e read)
        (Replied-Lasts w (Call.get_pool l.default_pool_id) IsMissing h h' e lost)

  PoolCleared-Lasts : (p : Pool) → Lasts (PoolCleared p)
  PoolCleared-Lasts p h h' e x = record {
    monitor =
        λ set. Replied-Lasts w (Call.delete_monitor p.monitor_id) IsGone h h' e (x.monitor set);
    all = x.all;
    listed = Answered-Extends _ _ e x.listed;
    members = MembersGone-Lasts p.id x.all h h' e x.members;
    pool = Replied-Lasts w (Call.delete_pool p.id) IsGone h h' e x.pool;
  }

  pub PoolSettled-Lasts : (id : Text) → Lasts (PoolSettled id)
  PoolSettled-Lasts id h h' e (no_pool n) = no_pool (NoPool-Lasts id h h' e n)
  PoolSettled-Lasts id h h' e (cleared p pooled x) =
      cleared p (PoolOf-Extends w e pooled) (PoolCleared-Lasts p h h' e x)

  GroupSettled-Lasts : (name id : Text) → Lasts (GroupSettled name id)
  GroupSettled-Lasts name id h h' e (no_group none_set) = no_group none_set
  GroupSettled-Lasts name id h h' e (missing lost) =
      missing (Replied-Lasts w (Call.get_ip_group id) IsMissing h h' e lost)
  GroupSettled-Lasts name id h h' e (foreign g read others) =
      foreign g (Answered-Extends _ _ e read) others
  GroupSettled-Lasts name id h h' e (removed gone) =
      removed (Replied-Lasts w (Call.delete_ip_group id) IsGone h h' e gone)

  pub Cleared-Lasts : (name : Text) (l : Listener) → Lasts (Cleared name l)
  Cleared-Lasts name l h h' e x = record {
    pool = PoolSettled-Lasts l.id h h' e x.pool;
    listener = Replied-Lasts w (Call.delete_listener l.id) IsGone h h' e x.listener;
    group = GroupSettled-Lasts name l.ip_group.ip_group_id h h' e x.group;
  }
