-- ===== src/Elb/Balancer/Cleared/Eips.antt =====
-- The release of the EIPs.
use cloud_provider_opentelek.Base.{
  ◌≡◌, refl, sym, ap, subst, false, ◌||◌, List, [], ◌∷◌, first, later, arith, inl, inr, Bool-cases,
}
use cloud_provider_opentelek.Text.{Text}
use cloud_provider_opentelek.Config.{is_empty}
use cloud_provider_opentelek.Cloud.{
  World, WaitLaws, State, M, Reason, Call, Result, ok, err, panic, PublicIpInfo, send, attempt,
  lift, ◌>>=◌, is_not_found, is_conflict, is_bad_request, http_409, caught, continue,
}
use cloud_provider_opentelek.Cloud.Exec.Sends.{Sends-bind, Sends-attempt, Sends-send, Sends-lift}
use cloud_provider_opentelek.Cloud.Exec.Ends.{
  Lasts-implies, Ends, Ends-mono, Ends-frame, Ends-pure, Ends-or_wrap, Ends-if, Ends-bind,
}
use cloud_provider_opentelek.Cloud.Exec.Gone.{IsGone, Gone, now, Replied-Lasts, Ends-send_answer}
use cloud_provider_opentelek.Elb.Wait.Last.{Ends-gone_retry}
use cloud_provider_opentelek.Elb.LoadBalancers.{
  busy_as_conflict, release_eip, release_each, release_eips, network_client,
}
use cloud_provider_opentelek.Elb.Balancer.Cleared.{EipsGone}

busy-IsGone : (r : Result (Unit {0})) → IsGone (busy_as_conflict r) → IsGone r
unfolding busy_as_conflict is_not_found
busy-IsGone (ok u) g = tt
busy-IsGone (err e) g = elim (Bool-cases (is_conflict e || is_bad_request e)) [
  | inl busy ↦
      let bad : IsGone {A = Unit {0}} (err http_409) = rw busy at g in absurd (ground arith)
  | inr other ↦ rw other at g
]
busy-IsGone panic g = g

abbrev releasing : World → Text → M Unit
releasing w id = do reply ← attempt (send w (Call.delete_eip id)); lift (busy_as_conflict reply)

releasing-Gone :
    (w : World) (id : Text) (s s' : State) (r : Result (Unit {0}))
    → releasing w id s ≡ (r, s')
    → IsGone r
    → Gone w (Call.delete_eip id) s'.calls
unfolding ◌>>=◌ attempt send lift
releasing-Gone w id s s' r e gone = go (w.answer (Call.delete_eip id) s.calls) refl e
  where
    c : Call
    c = Call.delete_eip id

    finish :
        (x : Result (Unit {0})) (t : State)
        → w.answer c s.calls ≡ x
        → busy_as_conflict x ≡ r
        → t ≡ s'
        → t.calls ≡ c ∷ s.calls
        → Gone w c s'.calls
    finish x t same_reply same_result same_state sent =
        subst (λ y. Gone w c y.calls) same_state
          (subst (Gone w c) (sym sent) (
            now (
              subst IsGone (sym same_reply) (busy-IsGone x (subst IsGone (sym same_result) gone)))))

    go :
        (x : Result (Unit {0}))
        → w.answer c s.calls ≡ x
        → continue
            (caught (x, record s { calls = c ∷ s.calls })).0
            (λ reply. lift (busy_as_conflict reply))
            (caught (x, record s { calls = c ∷ s.calls })).1
          ≡ (r, s')
        → Gone w c s'.calls
    go (ok u) same_reply p = finish (ok u) _ same_reply (ap (λ y. y.0) p) (ap (λ y. y.1) p) refl
    go (err f) same_reply p = finish (err f) _ same_reply (ap (λ y. y.0) p) (ap (λ y. y.1) p) refl
    go panic same_reply p = absurd (subst IsGone (sym (ap (λ y. y.0) p)) gone)

head_and_tail :
    {w : World} (x : PublicIpInfo) (eips : List PublicIpInfo) (h : List Call)
    → (is_empty x.public_ip_id ≡ false → Gone w (Call.delete_eip x.public_ip_id) h)
    → EipsGone w eips h
    → EipsGone w (x ∷ eips) h
head_and_tail x eips h gone others _ first set = gone set
head_and_tail x eips h gone others eip (later _ i) set = others eip i set

module _ {w : World} (laws : WaitLaws w) where
  eip_gone :
      (eip : PublicIpInfo) (s : State)
      → Ends
          (λ _ h. is_empty eip.public_ip_id ≡ false → Gone w (Call.delete_eip eip.public_ip_id) h)
          (release_eip w eip)
          s
  unfolding release_eip
  eip_gone eip s =
      let c : Call = Call.delete_eip eip.public_ip_id in
      Ends-if _ s (is_empty eip.public_ip_id) _ _
        (λ none_set. Ends-pure _ s tt (λ set. absurd (ground arith)))
        (λ _.
          Ends-mono (λ _ h gone _. gone)
            (Ends-gone_retry laws (Reason.release_eip eip.public_ip_id eip.public_ip_address) s
              (releasing w eip.public_ip_id)
              (record {
                sends = λ t.
                    Sends-bind t (attempt (send w c)) _
                      (Sends-attempt t (send w c) (Sends-send t w c tt))
                      (λ r t' _. Sends-lift t' (busy_as_conflict r));
                settles = releasing-Gone w eip.public_ip_id;
              })))

  each_gone :
      (eips : List PublicIpInfo) (s : State)
      → Ends (λ _ h. EipsGone w eips h) (release_each w eips) s
  unfolding release_each
  each_gone [] s = Ends-pure _ s tt (λ eip i. elim i [ ])
  each_gone (x ∷ eips) s = Ends-bind _ s (release_eip w x) _ (eip_gone x s) (λ _ t _ gone.
      Ends-mono (λ _ h both. head_and_tail x eips h both.0 both.1)
        (Ends-frame (Lasts-implies (Replied-Lasts w (Call.delete_eip x.public_ip_id) IsGone)) gone
          (each_gone eips t)))

  pub release_eips-Ends :
      (eips : List PublicIpInfo) (s : State)
      → Ends (λ _ h. EipsGone w eips h) (release_eips w eips) s
  unfolding release_eips
  release_eips-Ends [] s = Ends-pure _ s tt (λ eip i. elim i [ ])
  release_eips-Ends (x ∷ eips) s =
      Ends-bind _ s (network_client w) _
        (Ends-or_wrap _ s Reason.network_client (send w Call.network_service)
          (Ends-send_answer w Call.network_service s))
        (λ _ t _ _. each_gone (x ∷ eips) t)
