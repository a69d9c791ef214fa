-- ===== src/Elb/Members/Known/Loops.antt =====
-- The first loop of reconcileMembers: what a node wants is there after it.
use cloud_provider_opentelek.Base.{
  ℕ, ◌≡◌, refl, sym, subst, true, List, [], ◌∷◌, Option, none, some, In, inl, inr, arith,
  Bool-cases, Option-cases, ◌==◌,
}
use cloud_provider_opentelek.Text.{Text, text_eq, text_beq_iff}
use cloud_provider_opentelek.Maps.{Dict, lookup, contains, is_some}
use cloud_provider_opentelek.Kube.{Node}
use cloud_provider_opentelek.Cloud.{
  World, WaitLaws, State, M, Reason, Call, ok, Member, LoadBalancer, send, ignore,
}
use cloud_provider_opentelek.Cloud.Exec.Sends.{Extends, Sends}
use cloud_provider_opentelek.Cloud.Exec.Ends.{
  Ends, Ends-mono, Ends-pure, Ends-or_wrap, Ends-if, Ends-send, Ends-bind,
}
use cloud_provider_opentelek.Cloud.Exec.Gone.{IsGone}
use cloud_provider_opentelek.Cloud.Exec.Answers.{Answered, Answered-Extends}
use cloud_provider_opentelek.Elb.Wait.Last.{Ends-mutate_await}
use cloud_provider_opentelek.Elb.Members.{
  member_key, member_opts, wanted_members, have_members, add_member, add_wanted, add_members,
}
use cloud_provider_opentelek.Elb.Members.Tables.{lookup-wanted_members, lookup-wanted_members-none}
use cloud_provider_opentelek.Elb.Members.Present.{key_of, lookup-have_members}
use cloud_provider_opentelek.Elb.Members.Sent.{Changing, add_wanted-Sends, add_members-Sends}
use cloud_provider_opentelek.Elb.Members.Known.{
  Drops, deleted, Known, created, kept, MemberLaws, IsWanted, Known-Awaits, Known-Changing,
  Changing-Known,
}

module _ {w : World} (laws : WaitLaws w) {pool_id : Text} (members : MemberLaws w pool_id)
    (balancer : LoadBalancer) (port : ℕ) (nodes : List Node) (xs : List Member) where
  abbrev K : Member → List Call → Type 0
  K = Known w pool_id

  abbrev pub F : List Call → Call → Type 0
  F = Changing w balancer.id pool_id port nodes

  abbrev Want : Text → Type 0
  Want = IsWanted members balancer.id port nodes

  abbrev wanted : Dict (Node × Text)
  wanted = wanted_members port nodes

  abbrev pub Lists : List Call → Type 0
  Lists = Answered w (Call.list_members pool_id) (ok xs)

  -- A fact that only the calls of a sync do not take back.
  pub framed :
      {A : Type 0} {Q : A → List Call → Type 0} {R : List Call → Type 0} {m : M A} {s : State}
      → ((h h' : List Call) → Extends F h h' → R h → R h')
      → R s.calls
      → Sends F m s
      → Ends Q m s
      → Ends (λ a h. R h × Q a h) m s
  framed {s = s} keeps r k ends = record {
    trace = ends.trace;
    goal = λ a s' e. (
      keeps s.calls s'.calls (subst (λ x. Extends F s.calls x.1.calls) e k.trace) r,
      ends.goal a s' e,
    );
  }

  abbrev pub HasKey : Text → List Call → Type 0
  HasKey key h = Want key → (x : Member) × K x h × (key_of x ≡ key)

  pub HasKey-Changing :
      (key : Text) (h h' : List Call) → Extends F h h' → HasKey key h → HasKey key h'
  HasKey-Changing key h h' e has want =
      let (x, k, same_key) = has want in
      (
        x,
        Known-Changing members balancer.id port nodes x h h' e (subst Want (sym same_key) want) k,
        same_key,
      )

  add_member-Ends :
      (key : Text) (node : Node) (address : Text) (s : State)
      → member_key address port ≡ key
      → Ends
          (λ _ h. (x : Member) × K x h × (key_of x ≡ key))
          (add_member w balancer pool_id port key (node, address))
          s
  unfolding add_member ignore
  add_member-Ends key node address s same_key =
      let o = member_opts w balancer pool_id port node address in
      let c : Call = Call.create_member pool_id o in
      Ends-or_wrap _ s (Reason.add_member key pool_id) _ (
        Ends-mutate_await laws balancer.id s (ignore (send w c))
          (λ h h' e found.
            let (x, k, same) = found in
            (x, Known-Awaits members balancer.id port nodes x h h' e k, same))
          (λ t.
            Ends-bind _ t (send w c) _
              (Ends-send w c t (λ x h. (h ≡ c ∷ t.calls) × (w.answer c t.calls ≡ ok x))
                (λ x a. (refl, a)))
              (λ x u _ both. Ends-pure _ u tt (
                let (same_address, same_port) = members.echoes t.calls o x both.1 in
                (
                  x,
                  subst (K x) (sym both.0) (created o both.1),
                  rw (same_address, same_port) same_key,
                )))))

  add_wanted-Ends :
      (key : Text) (entry : Option (Node × Text)) (s : State)
      → lookup key wanted ≡ entry
      → ((x : Member) → In x xs → Want (key_of x) → K x s.calls)
      → Ends
          (λ _ h. HasKey key h)
          (add_wanted w balancer pool_id port (have_members xs) key entry)
          s
  unfolding add_wanted
  add_wanted-Ends key none s e there = Ends-pure _ s tt (λ want.
      let (node, address, t) = want in
      absurd (lookup-wanted_members-none port nodes key node address e t))
  add_wanted-Ends key (some (node, address)) s e there =
      Ends-if _ s (is_some (lookup key (have_members xs))) _ _
        (λ has. Ends-pure _ s tt (λ want. elim (Option-cases (lookup key (have_members xs))) [
          | inl missing ↦ absurd (ground arith)
          | inr (id, found) ↦
              let (x, i, same_key, _) = lookup-have_members xs key id found in
              (x, there x i (subst Want (sym same_key) want), same_key)
        ]))
        (λ _.
          Ends-mono (λ _ h x _. x)
            (add_member-Ends key node address s
              (lookup-wanted_members port nodes key node address e).same_key))

  -- The members that the cloud listed and a node wants are known as long as the sync goes on.
  abbrev pub Stays : List Call → Type 0
  Stays h = (x : Member) → In x xs → Want (key_of x) → K x h

  pub Stays-Changing : (h h' : List Call) → Extends F h h' → Stays h → Stays h'
  Stays-Changing h h' e there x i want =
      Known-Changing members balancer.id port nodes x h h' e want (there x i want)

  abbrev pub HasKeys : List Text → List Call → Type 0
  HasKeys order h = (key : Text) → contains order key ≡ true → HasKey key h

  one_more :
      (k : Text) (order : List Text) (h : List Call)
      → HasKey k h
      → HasKeys order h
      → HasKeys (k ∷ order) h
  unfolding contains
  one_more k order h has others key i = elim (Bool-cases (k == key)) [
    | inl hit ↦ subst (λ j. HasKey j h) ((text_beq_iff k key).0 hit) has
    | inr miss ↦ others key (rw miss at i)
  ]

  pub add_members-Ends :
      (order : List Text) (s : State)
      → Lists s.calls
      → Stays s.calls
      → Ends
          (λ _ h. HasKeys order h)
          (add_members w balancer pool_id port wanted (have_members xs) order)
          s
  unfolding add_members contains
  add_members-Ends [] s answered there = Ends-pure _ s tt (λ key i. absurd (ground arith))
  add_members-Ends (k ∷ order) s answered there =
      let step =
        add_wanted-Sends laws balancer pool_id port nodes xs k (lookup k wanted) s answered refl in
      Ends-bind _ s (add_wanted w balancer pool_id port (have_members xs) k (lookup k wanted)) _
        (add_wanted-Ends k (lookup k wanted) s refl there)
        (λ _ t run has.
          let moved : Extends F s.calls t.calls =
            subst (λ x. Extends F s.calls x.1.calls) run step.trace in
          let answered' = Answered-Extends _ _ moved answered in
          Ends-mono (λ _ h both. one_more k order h both.0 both.1)
            (framed (HasKey-Changing k) has
              (add_members-Sends laws balancer pool_id port nodes xs order t answered')
              (add_members-Ends order t answered' (Stays-Changing s.calls t.calls moved there))))

  -- No member with the key is known, unless a node wants it.
  abbrev pub Lost : Text → List Call → Type 0
  Lost key h = ¬ Want key → (x : Member) → In x xs → key_of x ≡ key → ¬ K x h

  pub Lost-Changing : (key : Text) (h h' : List Call) → Extends F h h' → Lost key h → Lost key h'
  Lost-Changing key h h' e lost unwanted x i same_key k =
      elim (Changing-Known members balancer.id port nodes x h h' e k) [
        | inl old ↦ lost unwanted x i same_key old
        | inr want ↦ unwanted (subst Want same_key want)
      ]

  pub deleted_is_lost :
      (x : Member) (id : Text) (h : List Call)
      → x.id ≡ id
      → IsGone (w.answer (Call.delete_member pool_id id) h)
      → ¬ K x (Call.delete_member pool_id id ∷ h)
  deleted_is_lost x id h same_id gone (kept c k stays) = stays (
      subst (λ i. Drops w pool_id h x (Call.delete_member pool_id i)) same_id
        (deleted
          (subst (λ i. IsGone (w.answer (Call.delete_member pool_id i) h)) (sym same_id) gone)))
