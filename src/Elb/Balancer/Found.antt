-- ===== src/Elb/Balancer/Found.antt =====
-- How findLoadBalancer finds a load balancer.
use cloud_provider_opentelek.Base.{
  ◌≡◌, subst, true, false, List, [], ◌∷◌, some, none, In, first, later, arith, inl, inr, Bool-cases,
  ◌==◌,
}
use cloud_provider_opentelek.Text.{Text, text_eq, text_beq_iff}
use cloud_provider_opentelek.Config.{is_empty}
use cloud_provider_opentelek.Settings.{ServiceSettings}
use cloud_provider_opentelek.Cloud.{
  World, State, Reason, Call, Result, ok, err, panic, LoadBalancer, lift, pure, throw,
}
use cloud_provider_opentelek.Cloud.Exec.Sends.{Extends}
use cloud_provider_opentelek.Cloud.Exec.Answers.{
  Answered, Answered-Extends, bind-eq-ok, or_wrap-send-Answered, attempt-send-Answered,
}
use cloud_provider_opentelek.Elb.LoadBalancers.{find_by_name, balancer_or_none, find_load_balancer}

pub find_by_name-In :
    (name : Text) (items : List LoadBalancer) (b : LoadBalancer)
    → find_by_name name items ≡ some b
    → In b items × (b.name ≡ name)
unfolding find_by_name
find_by_name-In name [] b e = absurd (ground arith)
find_by_name-In name (x ∷ items) b e = elim (Bool-cases (x.name == name)) [
  | inl hit ↦
      let same_item : x ≡ b = ground arith in
      (subst (λ y. In y (x ∷ items)) same_item first, ground (arith, text_beq_iff x.name name))
  | inr miss ↦ let (i, n) = find_by_name-In name items b (rw miss at e) in (later x i, n)
]

-- By the annotation's id where the Service has one, by its own name where it has none.
pub data Found (w : World) (settings : ServiceSettings) (name : Text) (b : LoadBalancer)
    (h : List Call) : Type 0 where
  by_id :
      is_empty settings.load_balancer_id ≡ false
      → Answered w (Call.get_balancer settings.load_balancer_id) b h
      → Found w settings name b h
  by_name :
      (items : List LoadBalancer)
      → is_empty settings.load_balancer_id ≡ true
      → Answered w (Call.list_balancers name) (ok items) h
      → In b items
      → b.name ≡ name
      → Found w settings name b h

pub Found-Extends :
    {F : List Call → Call → Type 0} {w : World} {settings : ServiceSettings} {name : Text}
    {b : LoadBalancer} {h h' : List Call}
    → Extends F h h'
    → Found w settings name b h
    → Found w settings name b h'
Found-Extends e (by_id shared a) = by_id shared (Answered-Extends _ _ e a)
Found-Extends e (by_name items own a i n) = by_name items own (Answered-Extends _ _ e a) i n

module _ (w : World) (settings : ServiceSettings) (name : Text) where
  read_by_id :
      (reply : Result LoadBalancer) (s s' : State) (b : LoadBalancer)
      → balancer_or_none w settings.load_balancer_id reply s ≡ (ok (some b), s')
      → (reply ≡ ok b) × (s ≡ s')
  unfolding pure throw lift
  read_by_id (ok q) s s' b e = (ground arith, ground arith)
  read_by_id (err f) s s' b e = absurd (ground arith)
  read_by_id panic s s' b e = absurd (ground arith)

  -- A load balancer that is returned was read under the annotation's id where there is one; where there
  -- is none it is among those that the cloud listed for the name, and has that name.
  pub find_load_balancer-Found :
      (s s' : State) (b : LoadBalancer)
      → find_load_balancer w settings name s ≡ (ok (some b), s')
      → Found w settings name b s'.calls
  unfolding find_load_balancer pure lift
  find_load_balancer-Found s s' b e = elim (Bool-cases (is_empty settings.load_balancer_id)) [
    | inl own ↦
        let (pages, s1, e1, rest) = bind-eq-ok _ _ s s' (some b) (rw own at e) in
        let (items, s2, e2, last) = bind-eq-ok _ _ s1 s' (some b) rest in
        let same_pages : pages ≡ ok items = ground arith in
        let same_state : s1 ≡ s' = ground arith in
        let (i, n) = find_by_name-In name items b (ground arith) in
        by_name items own
          (subst (λ t. Answered w (Call.list_balancers name) (ok items) t.calls) same_state
            (or_wrap-send-Answered w (Call.list_balancers name) Reason.list_balancers s s1
              (ok items) (rw same_pages at e1)))
          i n
    | inr shared ↦
        let c = Call.get_balancer settings.load_balancer_id in
        let (reply, s1, e1, rest) = bind-eq-ok _ _ s s' (some b) (rw shared at e) in
        let (same_reply, same_state) = read_by_id reply s1 s' b rest in
        by_id shared (
          subst (λ t. Answered w c b t.calls) same_state
            (attempt-send-Answered w c s s1 b (rw same_reply at e1)))
  ]

  -- Without an id, nothing is found only where the cloud's list holds no load balancer of the name.
  pub find_load_balancer-none :
      (s s' : State)
      → is_empty settings.load_balancer_id ≡ true
      → find_load_balancer w settings name s ≡ (ok none, s')
      → (items : List LoadBalancer) × Answered w (Call.list_balancers name) (ok items) s'.calls
        × (find_by_name name items ≡ none)
  unfolding find_load_balancer pure lift
  find_load_balancer-none s s' own e =
      let (pages, s1, e1, rest) = bind-eq-ok _ _ s s' none (rw own at e) in
      let (items, s2, e2, last) = bind-eq-ok _ _ s1 s' none rest in
      let same_pages : pages ≡ ok items = ground arith in
      let same_state : s1 ≡ s' = ground arith in
      (
        items,
        subst (λ t. Answered w (Call.list_balancers name) (ok items) t.calls) same_state
            (or_wrap-send-Answered w (Call.list_balancers name) Reason.list_balancers s s1
              (ok items) (rw same_pages at e1)),
        ground arith,
      )
