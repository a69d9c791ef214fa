-- ===== src/Elb/Members/Known/Exact.antt =====
-- After reconcileMembers the members of the pool are exactly those of the nodes.
use cloud_provider_opentelek.Base.{
  ℕ, ◌≡◌, ◌≢◌, ◌↔◌, refl, sym, subst, ap, ◌∙◌, List, ◌∷◌, none, In, inl, inr, ◌⊎◌, arith,
  Bool-cases, Option-cases, ◌==◌, nat_eq,
}
use cloud_provider_opentelek.Text.{Text}
use cloud_provider_opentelek.Maps.{Dict, lookup}
use cloud_provider_opentelek.Kube.{Node}
use cloud_provider_opentelek.Cloud.{
  World, WaitLaws, OrderLaws, State, Reason, Call, ok, Member, LoadBalancer, send, lift, or_wrap,
  throw,
}
use cloud_provider_opentelek.Cloud.Exec.Sends.{Extends}
use cloud_provider_opentelek.Cloud.Exec.Answers.{now, bind-eq-ok, or_wrap-eq-ok}
use cloud_provider_opentelek.Elb.Members.{
  wanted_members, have_members, list_members, sync_members, reconcile_members, is_nil,
}
use cloud_provider_opentelek.Elb.Members.Tables.{lookup-wanted_members, lookup-wanted_members-none}
use cloud_provider_opentelek.Elb.Members.Present.{key_of, lookup-have_members-none}
use cloud_provider_opentelek.Elb.Members.Sent.{sync_members-Sends}
use cloud_provider_opentelek.Elb.Members.Known.{
  Drops, Known, listed, kept, relisted, MemberLaws, IsWanted, Changing-Known,
}
use cloud_provider_opentelek.Elb.Members.Known.Loops.{F, Lists, HasKey, Stays, Lost}
use cloud_provider_opentelek.Elb.Members.Known.Both.{sync-Ends}

-- A listing that succeeds is one call.
list_members-run :
    (w : World) (id : Text) (s s' : State) (xs : List Member)
    → list_members w id s ≡ (ok xs, s')
    → (w.answer (Call.list_members id) s.calls ≡ ok (ok xs))
      × (s'.calls ≡ Call.list_members id ∷ s.calls)
unfolding list_members lift send
list_members-run w id s s' xs e =
    let c : Call = Call.list_members id in
    let (pages, t, e1, e2) = bind-eq-ok (or_wrap (Reason.list_members id) (send w c)) _ s s' xs e in
    let sent = or_wrap-eq-ok (Reason.list_members id) (send w c) s t pages e1 in
    let same_pages : pages ≡ ok xs = ap (λ p. p.0) e2 in
    let same_state : t ≡ s' = ap (λ p. p.1) e2 in
    (
      ap (λ p. p.0) sent ∙ ap ok same_pages,
      sym (ap (λ p. p.1.calls) sent ∙ ap (λ x. x.calls) same_state),
    )

module _ {w : World} (laws : WaitLaws w) (orders : OrderLaws w) {pool_id : Text}
    (members : MemberLaws w pool_id) (balancer : LoadBalancer) (port : ℕ) (nodes : List Node) where
  abbrev Want : Text → Type 0
  Want = IsWanted members balancer.id port nodes

  abbrev wanted : Dict (Node × Text)
  wanted = wanted_members port nodes

  -- A listing tells all that is known right after it.
  fresh_listing :
      (xs : List Member) (h : List Call) (x : Member) (id : Text)
      → id ≡ pool_id
      → w.answer (Call.list_members id) h ≡ ok (ok xs)
      → Known w pool_id x (Call.list_members id ∷ h)
      → In x xs
  fresh_listing xs h x _ same_id answered (listed ys answered' i) =
      let same_list : ys ≡ xs = ground arith in subst (In x) same_list i
  fresh_listing xs h x id same_id answered (kept c k stays) = absurd (
      subst (λ p. ¬ Drops w pool_id h x (Call.list_members p)) same_id stays
        (relisted xs (subst (λ p. w.answer (Call.list_members p) h ≡ ok (ok xs)) same_id answered)))

  wants : (key : Text) → (lookup key wanted ≢ none × Want key) ⊎ ¬ Want key
  wants key = elim (Option-cases (lookup key wanted)) [
    | inl missing ↦ inr (λ want.
        let (node, address, t) = want in
        lookup-wanted_members-none port nodes key node address missing t)
    | inr (entry, found) ↦
        let (node, address) = entry in
        inl (
          λ missing. absurd (ground arith),
          (node, address, lookup-wanted_members port nodes key node address found),
        )
  ]

  abbrev pub HasMember : Text → List Call → Type 0
  HasMember key h = (x : Member) × Known w pool_id x h × (key_of x ≡ key)

  synced :
      (xs : List Member) (s s' : State)
      → w.answer (Call.list_members pool_id) s.calls ≡ ok (ok xs)
      → Extends
          (F laws members balancer port nodes xs)
          (Call.list_members pool_id ∷ s.calls)
          s'.calls
      → ((key : Text)
          → lookup key wanted ≢ none
          → HasKey laws members balancer port nodes xs key s'.calls)
      → ((key : Text)
          → lookup key (have_members xs) ≢ none
          → Lost laws members balancer port nodes xs key s'.calls)
      → (key : Text) → HasMember key s'.calls ↔ Want key
  synced xs s s' answered trace has lost key = (only, all)
    where
      known_is_wanted : (x : Member) → Known w pool_id x s'.calls → Want (key_of x)
      known_is_wanted x k =
          elim (Changing-Known members balancer.id port nodes x _ s'.calls trace k) [
            | inr want ↦ want
            | inl old ↦ elim (wants (key_of x)) [
              | inl (_, want) ↦ want
              | inr unwanted ↦
                  let i = fresh_listing xs s.calls x pool_id refl answered old in
                  absurd (
                    lost (key_of x)
                      (λ missing. lookup-have_members-none xs (key_of x) x missing i refl) unwanted
                      x i refl k)
            ]
          ]

      only : HasMember key s'.calls → Want key
      only found = let (x, k, same_key) = found in subst Want same_key (known_is_wanted x k)

      all : Want key → HasMember key s'.calls
      all want = elim (wants key) [
        | inl (there, _) ↦ has key there want
        | inr unwanted ↦ absurd (unwanted want)
      ]

  after_listing :
      (xs : List Member) (s t s' : State)
      → w.answer (Call.list_members pool_id) s.calls ≡ ok (ok xs)
      → t.calls ≡ Call.list_members pool_id ∷ s.calls
      → sync_members w balancer pool_id port wanted (have_members xs) t ≡ (ok tt, s')
      → (key : Text) → HasMember key s'.calls ↔ Want key
  after_listing xs s t s' answered grown run =
      let same_ids : (x y : Member) → In x xs → In y xs → key_of x ≡ key_of y → x.id ≡ y.id =
        λ x y i j same_key. members.unique s.calls xs x y answered i j same_key in
      let answered_t : Lists laws members balancer port nodes xs t.calls =
        subst (Lists laws members balancer port nodes xs) (sym grown) (now answered) in
      let there : Stays laws members balancer port nodes xs t.calls =
        subst (Stays laws members balancer port nodes xs) (sym grown)
          (λ x i _. listed xs answered i) in
      let (has, lost) =
        (sync-Ends laws orders members balancer port nodes xs same_ids t answered_t there).goal tt
          s' run in
      let trace : Extends (F laws members balancer port nodes xs) t.calls s'.calls =
        subst (λ x. Extends (F laws members balancer port nodes xs) t.calls x.1.calls) run
          (sync_members-Sends laws balancer pool_id port nodes xs t answered_t).trace in
      synced xs s s' answered
        (subst (λ h. Extends (F laws members balancer port nodes xs) h s'.calls) grown trace) has
        lost

  -- After a success of reconcileMembers, the pool has, by the answers of the cloud, a member with an address and port
  -- exactly where a node has the address and the port is the node port. Waits are attempts of their test (`laws`), a range
  -- over a map visits each key (`orders`), and a member is created as asked for, keeps its address and port, and has
  -- no double in a listing (`members`).
  pub reconcile_members-exact :
      (s s' : State)
      → reconcile_members w balancer pool_id port nodes s ≡ (ok tt, s')
      → (key : Text) → HasMember key s'.calls ↔ Want key
  unfolding reconcile_members throw
  reconcile_members-exact s s' e = elim (Bool-cases (port == 0)) [
    | inl zero_port ↦ absurd (ground arith)
    | inr some_port ↦
        let (xs, t, r1, rest) = bind-eq-ok (list_members w pool_id) _ s s' tt (rw some_port at e) in
        let (answered, grown) = list_members-run w pool_id s t xs r1 in
        elim (Bool-cases (is_nil wanted)) [
          | inl empty ↦ absurd (ground arith)
          | inr filled ↦ after_listing xs s t s' answered grown (rw filled at rest)
        ]
  ]
