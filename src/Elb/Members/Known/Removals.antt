-- ===== src/Elb/Members/Known/Removals.antt =====
-- The second loop of reconcileMembers: what no node wants is gone after it.
use cloud_provider_opentelek.Base.{
  ℕ, ◌≡◌, refl, sym, subst, ap, ◌∙◌, true, List, [], ◌∷◌, Option, none, some, In, inl, inr, arith,
  Bool-cases, Option-cases, ◌==◌,
}
use cloud_provider_opentelek.Text.{Text, text_eq, text_beq_iff}
use cloud_provider_opentelek.Maps.{Dict, lookup, contains, is_some}
use cloud_provider_opentelek.Kube.{Node}
use cloud_provider_opentelek.Cloud.{
  World, WaitLaws, State, Reason, Call, Member, LoadBalancer, send,
}
use cloud_provider_opentelek.Cloud.Exec.Sends.{Extends, Sends-send}
use cloud_provider_opentelek.Cloud.Exec.Ends.{Ends, Ends-mono, Ends-pure, Ends-if, Ends-bind}
use cloud_provider_opentelek.Cloud.Exec.Gone.{IsGone}
use cloud_provider_opentelek.Cloud.Exec.Answers.{Answered-Extends}
use cloud_provider_opentelek.Elb.Wait.Last.{Settles, Ends-gone_mutate_await}
use cloud_provider_opentelek.Elb.Members.{
  wanted_members, have_members, remove_member, remove_unwanted, remove_members,
}
use cloud_provider_opentelek.Elb.Members.Tables.{lookup-wanted_members}
use cloud_provider_opentelek.Elb.Members.Present.{
  key_of, lookup-have_members, lookup-have_members-none,
}
use cloud_provider_opentelek.Elb.Members.Sent.{remove_unwanted-Sends, remove_members-Sends}
use cloud_provider_opentelek.Elb.Members.Known.{Known, MemberLaws, unknown-Awaits}
use cloud_provider_opentelek.Elb.Members.Known.Loops.{
  F, Lists, framed, Lost, Lost-Changing, deleted_is_lost,
}

module _ {w : World} (laws : WaitLaws w) {pool_id : Text} (members : MemberLaws w pool_id)
    (balancer : LoadBalancer) (port : ℕ) (nodes : List Node) (xs : List Member)
    (same_ids : (x y : Member) → In x xs → In y xs → key_of x ≡ key_of y → x.id ≡ y.id) where
  abbrev K : Member → List Call → Type 0
  K = Known w pool_id

  abbrev L : Text → List Call → Type 0
  L = Lost laws members balancer port nodes xs

  abbrev wanted : Dict (Node × Text)
  wanted = wanted_members port nodes

  abbrev AllGone : Text → List Call → Type 0
  AllGone key h = (x : Member) → In x xs → key_of x ≡ key → ¬ K x h

  delete-Settles :
      (key id : Text)
      → lookup key (have_members xs) ≡ some id
      → Settles (AllGone key) (send w (Call.delete_member pool_id id))
  unfolding send
  delete-Settles key id found = record {
    sends = λ s. Sends-send s w (Call.delete_member pool_id id) tt;
    settles = λ s s' r run gone x i same_key.
        let (y, j, y_key, y_id) = lookup-have_members xs key id found in
        subst (λ t. ¬ K x t.calls) (ap (λ p. p.1) run)
          (deleted_is_lost laws members balancer port nodes xs x id s.calls
            (same_ids x y i j (same_key ∙ sym y_key) ∙ y_id)
            (subst IsGone (sym (ap (λ p. p.0) run)) gone));
  }

  remove_member-Ends :
      (key id : Text) (s : State)
      → lookup key (have_members xs) ≡ some id
      → Ends (λ _ h. AllGone key h) (remove_member w balancer pool_id key id) s
  unfolding remove_member
  remove_member-Ends key id s found =
      Ends-gone_mutate_await laws (Reason.remove_member key pool_id) s balancer.id
        (send w (Call.delete_member pool_id id))
        (λ h h' e lost x i same_key.
          unknown-Awaits members balancer.id port nodes x h h' e (lost x i same_key))
        (delete-Settles key id found)

  remove_unwanted-Ends :
      (key : Text) (entry : Option Text) (s : State)
      → lookup key (have_members xs) ≡ entry
      → Ends (λ _ h. L key h) (remove_unwanted w balancer pool_id wanted key entry) s
  unfolding remove_unwanted
  remove_unwanted-Ends key none s e =
      Ends-pure _ s tt (λ _ x i same_key. absurd (lookup-have_members-none xs key x e i same_key))
  remove_unwanted-Ends key (some id) s e =
      Ends-if _ s (is_some (lookup key wanted)) _ _
        (λ has. Ends-pure _ s tt (λ unwanted x i same_key. elim (Option-cases (lookup key wanted)) [
          | inl missing ↦ absurd (ground arith)
          | inr (entry, found) ↦
              let (node, address) = entry in
              absurd
                (unwanted (node, address, lookup-wanted_members port nodes key node address found))
        ]))
        (λ _. Ends-mono (λ _ h x _. x) (remove_member-Ends key id s e))

  abbrev LostKeys : List Text → List Call → Type 0
  LostKeys order h = (key : Text) → contains order key ≡ true → L key h

  one_more :
      (k : Text) (order : List Text) (h : List Call)
      → L k h
      → LostKeys order h
      → LostKeys (k ∷ order) h
  unfolding contains
  one_more k order h lost others key i = elim (Bool-cases (k == key)) [
    | inl hit ↦ subst (λ j. L j h) ((text_beq_iff k key).0 hit) lost
    | inr miss ↦ others key (rw miss at i)
  ]

  pub remove_members-Ends :
      (order : List Text) (s : State)
      → Lists laws members balancer port nodes xs s.calls
      → Ends
          (λ _ h. LostKeys order h)
          (remove_members w balancer pool_id wanted (have_members xs) order)
          s
  unfolding remove_members contains
  remove_members-Ends [] s answered = Ends-pure _ s tt (λ key i. absurd (ground arith))
  remove_members-Ends (k ∷ order) s answered =
      let step =
        remove_unwanted-Sends laws balancer pool_id port nodes xs k (lookup k (have_members xs)) s
          answered refl in
      Ends-bind _ s (remove_unwanted w balancer pool_id wanted k (lookup k (have_members xs))) _
        (remove_unwanted-Ends k (lookup k (have_members xs)) s refl)
        (λ _ t run lost.
          let moved : Extends (F laws members balancer port nodes xs) s.calls t.calls =
            subst (λ x. Extends (F laws members balancer port nodes xs) s.calls x.1.calls) run
              step.trace in
          let answered' = Answered-Extends _ _ moved answered in
          Ends-mono (λ _ h both. one_more k order h both.0 both.1)
            (framed laws members balancer port nodes xs
              (Lost-Changing laws members balancer port nodes xs k) lost
              (remove_members-Sends laws balancer pool_id port nodes xs order t answered')
              (remove_members-Ends order t answered')))
