-- ===== src/Elb/Balancer/Cleared/Search.antt =====
-- The outcome of findLoadBalancer, also where it finds nothing.
use cloud_provider_opentelek.Base.{
  true, false, ◌≡◌, refl, ◌≢◌, List, [], ◌∷◌, Option, none, some, In, first, later, arith, inl, inr,
  Bool-cases, ◌==◌,
}
use cloud_provider_opentelek.Text.{Text, text_eq, text_beq_iff}
use cloud_provider_opentelek.Config.{is_empty}
use cloud_provider_opentelek.Settings.{ServiceSettings}
use cloud_provider_opentelek.Cloud.{
  World, State, Reason, Call, Result, ok, err, panic, LoadBalancer, send, attempt, lift, pure,
  or_wrap, is_not_found,
}
use cloud_provider_opentelek.Cloud.Exec.Ends.{
  Ends, Ends-pure, Ends-throw, Ends-lift, Ends-or_wrap, Ends-if, Ends-bind,
}
use cloud_provider_opentelek.Cloud.Exec.Gone.{
  Replied, Replied-Answered, Replied-Missing, Ends-attempt_reply, Ends-send_answer,
}
use cloud_provider_opentelek.Cloud.Exec.Answers.{Answered}
use cloud_provider_opentelek.Elb.LoadBalancers.{find_by_name, balancer_or_none, find_load_balancer}
use cloud_provider_opentelek.Elb.Balancer.Found.{Found, by_id, by_name, find_by_name-In}
use cloud_provider_opentelek.Elb.Balancer.Cleared.{Absent, unlisted, unread}

find_by_name-none :
    (name : Text) (items : List LoadBalancer) (b : LoadBalancer)
    → find_by_name name items ≡ none
    → In b items
    → b.name ≢ name
unfolding find_by_name
find_by_name-none name [] b e i = elim i [ ]
find_by_name-none name (x ∷ items) _ e first = λ same_name. ground (arith, text_beq_iff x.name name)
find_by_name-none name (x ∷ items) b e (later _ i) = elim (Bool-cases (x.name == name)) [
  | inl hit ↦ absurd (ground arith)
  | inr miss ↦ find_by_name-none name items b (rw miss at e) i
]

module _ (w : World) (settings : ServiceSettings) (name : Text) where
  abbrev pub Looked : Option LoadBalancer → List Call → Type 0
  Looked none h = Absent w settings name h
  Looked (some b) h = Found w settings name b h

  named-Ends :
      (items : List LoadBalancer) (s : State) (found : Option LoadBalancer)
      → find_by_name name items ≡ found
      → is_empty settings.load_balancer_id ≡ true
      → Answered w (Call.list_balancers name) (ok items) s.calls
      → Ends Looked (pure found) s
  named-Ends items s none e own read =
      Ends-pure Looked s none (unlisted items own read (λ b i. find_by_name-none name items b e i))
  named-Ends items s (some b) e own read =
      let (i, same_name) = find_by_name-In name items b e in
      Ends-pure Looked s (some b) (by_name items own read i same_name)

  read-Ends :
      (r : Result LoadBalancer) (s : State)
      → is_empty settings.load_balancer_id ≡ false
      → Replied w (Call.get_balancer settings.load_balancer_id) (λ x. x ≡ r) s.calls
      → Ends Looked (balancer_or_none w settings.load_balancer_id r) s
  read-Ends (ok b) s given reply =
      Ends-pure Looked s (some b) (by_id given (Replied-Answered reply))
  read-Ends (err e) s given reply =
      Ends-if Looked s (is_not_found e) _ _
        (λ lost. Ends-pure Looked s none (unread given (Replied-Missing lost reply)))
        (λ _. Ends-throw Looked s _)
  read-Ends panic s given reply = Ends-lift Looked s panic (λ a e. absurd (ground arith))

  pub find_load_balancer-Ends : (s : State) → Ends Looked (find_load_balancer w settings name) s
  unfolding find_load_balancer
  find_load_balancer-Ends s =
      let c : Call = Call.list_balancers name in
      let d : Call = Call.get_balancer settings.load_balancer_id in
      Ends-if Looked s (is_empty settings.load_balancer_id) _ _
        (λ own.
          Ends-bind Looked s (or_wrap Reason.list_balancers (send w c)) _
            (Ends-or_wrap _ s Reason.list_balancers (send w c) (Ends-send_answer w c s))
            (λ pages s1 _ read.
              Ends-bind Looked s1 (lift pages) _
                (Ends-lift (λ items h. Answered w c (ok items) h) s1 pages
                  (λ items e. rw e at read))
                (λ items s2 _ listed.
                  named-Ends items s2 (find_by_name name items) refl own listed)))
        (λ given.
          Ends-bind Looked s (attempt (send w d)) _ (Ends-attempt_reply w d s)
            (λ r s1 _ reply. read-Ends r s1 given reply))
