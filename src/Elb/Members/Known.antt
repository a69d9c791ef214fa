-- ===== src/Elb/Members/Known.antt =====
-- The members of a pool as the cloud's own answers tell them, and how the calls of a sync change them.
pub mod Loops
pub mod Removals
pub mod Both
pub mod Exact
use cloud_provider_opentelek.Base.{ℕ, ◌≡◌, refl, sym, subst, List, ◌∷◌, In, inl, inr, ◌⊎◌, arith}
use cloud_provider_opentelek.Text.{Text}
use cloud_provider_opentelek.Kube.{Node}
use cloud_provider_opentelek.Cloud.{World, Call, ok, Member, MemberOpts}
use cloud_provider_opentelek.Cloud.Exec.Sends.{Extends, same, more}
use cloud_provider_opentelek.Cloud.Exec.Gone.{IsGone}
use cloud_provider_opentelek.Cloud.Exec.Answers.{Answered}
use cloud_provider_opentelek.Elb.Wait.Last.{Waits, waits}
use cloud_provider_opentelek.Elb.Members.Tables.{IsTarget}
use cloud_provider_opentelek.Elb.Members.Present.{key_of}
use cloud_provider_opentelek.Elb.Members.Sent.{Changing}

module _ (w : World) (pool_id : Text) where
  -- The call takes the member out of what is known: it is deleted, or a listing tells anew what there is.
  pub data Drops (h : List Call) (x : Member) : Call → Type 0 where
    deleted :
        IsGone (w.answer (Call.delete_member pool_id x.id) h)
        → Drops h x (Call.delete_member pool_id x.id)
    relisted :
        (xs : List Member)
        → w.answer (Call.list_members pool_id) h ≡ ok (ok xs)
        → Drops h x (Call.list_members pool_id)

  -- After these calls the pool has the member: it was listed or created, and not dropped since.
  pub data Known (x : Member) : List Call → Type 0 where
    listed :
        {h : List Call} (xs : List Member)
        → w.answer (Call.list_members pool_id) h ≡ ok (ok xs)
        → In x xs
        → Known x (Call.list_members pool_id ∷ h)
    created :
        {h : List Call} (o : MemberOpts)
        → w.answer (Call.create_member pool_id o) h ≡ ok x
        → Known x (Call.create_member pool_id o ∷ h)
    kept : {h : List Call} (c : Call) → Known x h → ¬ Drops h x c → Known x (c ∷ h)

  -- A member is created as asked for, keeps its address and port, and is the only one with them in a listing.
  pub record MemberLaws : Type 0 where
    pub echoes :
        (h : List Call) (o : MemberOpts) (x : Member)
        → w.answer (Call.create_member pool_id o) h ≡ ok x
        → (x.address ≡ o.address) × (x.protocol_port ≡ o.protocol_port)
    pub immutable :
        (h : List Call) (xs : List Member) (x y : Member)
        → Answered w (Call.list_members pool_id) (ok xs) h
        → In x xs
        → Known y h
        → x.id ≡ y.id
        → key_of x ≡ key_of y
    pub unique :
        (h : List Call) (xs : List Member) (x y : Member)
        → w.answer (Call.list_members pool_id) h ≡ ok (ok xs)
        → In x xs
        → In y xs
        → key_of x ≡ key_of y
        → x.id ≡ y.id

module _ {w : World} {pool_id : Text} (laws : MemberLaws w pool_id) (lb_id : Text) (port : ℕ)
    (nodes : List Node) where
  abbrev C : List Call → Call → Type 0
  C = Changing w lb_id pool_id port nodes

  abbrev pub IsWanted : Text → Type 0
  IsWanted key = (node : Node) × (address : Text) × IsTarget port nodes key node address

  Known-Waits :
      (x : Member) (h : List Call) (c : Call)
      → Waits lb_id h c
      → Known w pool_id x h
      → Known w pool_id x (c ∷ h)
  Known-Waits x h _ waits k = kept (Call.get_balancer lb_id) k (λ d. elim d [ ])

  -- The wait keeps what is known.
  pub Known-Awaits :
      (x : Member) (h h' : List Call)
      → Extends (Waits lb_id) h h'
      → Known w pool_id x h
      → Known w pool_id x h'
  Known-Awaits x h _ same k = k
  Known-Awaits x h _ (more {h'} c e p) k = Known-Waits x h' c p (Known-Awaits x h h' e k)

  unknown-Waits :
      (x : Member) (h : List Call) (c : Call)
      → Waits lb_id h c
      → Known w pool_id x (c ∷ h)
      → Known w pool_id x h
  unknown-Waits x h _ waits (kept _ k _) = k

  pub unknown-Awaits :
      (x : Member) (h h' : List Call)
      → Extends (Waits lb_id) h h'
      → ¬ Known w pool_id x h
      → ¬ Known w pool_id x h'
  unknown-Awaits x h _ same lost k = lost k
  unknown-Awaits x h _ (more {h'} c e p) lost k =
      unknown-Awaits x h h' e lost (unknown-Waits x h' c p k)

  -- The calls of a sync drop no member that a node wants.
  wanted_stays :
      (x : Member) (h : List Call) (c : Call)
      → IsWanted (key_of x)
      → Known w pool_id x h
      → C h c
      → ¬ Drops w pool_id h x c
  wanted_stays x h _ (node, address, t) k p (deleted gone) =
      let (_, xs, answered, y, i, same_id, unwanted) = p in
      unwanted node address (
        subst (λ key. IsTarget port nodes key node address)
          (sym (laws.immutable h xs y x answered i k same_id)) t)
  wanted_stays x h _ want k p (relisted xs answered) = absurd p

  pub Known-Changing :
      (x : Member) (h h' : List Call)
      → Extends C h h'
      → IsWanted (key_of x)
      → Known w pool_id x h
      → Known w pool_id x h'
  Known-Changing x h _ same want k = k
  Known-Changing x h _ (more {h'} c e p) want k =
      let k' = Known-Changing x h h' e want k in kept c k' (wanted_stays x h' c want k' p)

  -- And they add none that no node wants.
  added-IsWanted :
      (x : Member) (h : List Call) (c : Call)
      → C h c
      → Known w pool_id x (c ∷ h)
      → Known w pool_id x h ⊎ IsWanted (key_of x)
  added-IsWanted x h _ p (listed xs a i) = absurd p
  added-IsWanted x h _ p (kept c k d) = inl k
  added-IsWanted x h _ p (created o a) =
      let (_, xs, _, node, same_port, t, _) = p in
      let (same_address, echoed_port) = laws.echoes h o x a in
      inr (
        node,
        o.address,
        subst (λ key. IsTarget port nodes key node o.address)
            (rw (same_address, echoed_port, same_port) refl) t,
      )

  pub Changing-Known :
      (x : Member) (h h' : List Call)
      → Extends C h h'
      → Known w pool_id x h'
      → Known w pool_id x h ⊎ IsWanted (key_of x)
  Changing-Known x h _ same k = inl k
  Changing-Known x h _ (more {h'} c e p) k = elim (added-IsWanted x h' c p k) [
    | inl old ↦ Changing-Known x h h' e old
    | inr want ↦ inr want
  ]
