-- ===== src/Cloud/Exec/Gone.antt =====
-- A call that deletes has been answered: it is done, or there was nothing to delete.
use cloud_provider_opentelek.Base.{
  ◌≡◌, refl, sym, ap, subst, true, List, ◌∷◌, arith, inl, inr, Bool-cases,
}
use cloud_provider_opentelek.Cloud.Errors.{Reason, Error, Result, ok, err, panic, is_not_found}
use cloud_provider_opentelek.Cloud.Calls.{Call, Reply}
use cloud_provider_opentelek.Cloud.Exec.{State, M, World, send, attempt, or_gone, tolerated}
use cloud_provider_opentelek.Cloud.Exec.Sends.{Extends, same, more}
use cloud_provider_opentelek.Cloud.Exec.Ends.{Any, Lasts, Ends, Ends-send, Ends-attempt_send}
use cloud_provider_opentelek.Cloud.Exec.Answers.{Answered, Answered-Extends}

abbrev pub IsMissing : {A : Type 0} → Result A → Type 0
IsMissing (ok a) = ⊥
IsMissing (err e) = is_not_found e ≡ true
IsMissing panic = ⊥

abbrev pub IsGone : {A : Type 0} → Result A → Type 0
IsGone (ok a) = Unit
IsGone (err e) = is_not_found e ≡ true
IsGone panic = ⊥

-- Among the calls is `c`, and the cloud's answer to it is one of `P`.
pub data Replied (w : World) (c : Call) (P : Result (Reply c) → Type 0) : List Call → Type 0 where
  now : {h : List Call} → P (w.answer c h) → Replied w c P (c ∷ h)
  before : {h : List Call} (d : Call) → Replied w c P h → Replied w c P (d ∷ h)

-- The cloud has deleted what `c` deletes, or has said that it is not there.
abbrev pub Gone : World → Call → List Call → Type 0
Gone w c = Replied w c IsGone

-- The cloud has said that what `c` reads is not there.
abbrev pub Missing : World → Call → List Call → Type 0
Missing w c = Replied w c IsMissing

pub Replied-Lasts : (w : World) (c : Call) (P : Result (Reply c) → Type 0) → Lasts (Replied w c P)
Replied-Lasts w c P h h' same r = r
Replied-Lasts w c P h h' (more d e p) r = before d (Replied-Lasts w c P h _ e r)

pub send-Gone :
    (w : World) (c : Call) (s s' : State) (r : Result (Reply c))
    → send w c s ≡ (r, s')
    → IsGone r
    → Gone w c s'.calls
unfolding send
send-Gone w c s s' r e gone =
    subst (Gone w c) (ap (λ x. x.1.calls) e) (now (subst IsGone (sym (ap (λ x. x.0) e)) gone))

-- Where `or_gone` succeeds, its action did or found nothing.
pub or_gone-eq-ok :
    (reason : Reason) (m : M Unit) (s s' : State)
    → or_gone reason m s ≡ (ok tt, s')
    → (r : Result (Unit {0})) × (m s ≡ (r, s')) × IsGone r
unfolding or_gone
or_gone-eq-ok reason m s s' e = go (m s) refl e
  where
    go :
        (x : Result (Unit {0}) × State)
        → m s ≡ x
        → ◌≡◌ {A = Result (Unit {0}) × State} (tolerated reason x.0, x.1) (ok tt, s')
        → (r : Result (Unit {0})) × (m s ≡ (r, s')) × IsGone r
    go (ok u, t) same_run p =
        let same_state : t ≡ s' = ground arith in
        (ok u, subst (λ y. m s ≡ (ok u, y)) same_state same_run, tt)
    go (panic, t) same_run p = absurd (ground arith)
    go (err f, t) same_run p = elim (Bool-cases (is_not_found f)) [
      | inl missing ↦
          let same_state : t ≡ s' = ground arith in
          (err f, subst (λ y. m s ≡ (err f, y)) same_state same_run, missing)
      | inr other ↦ absurd (ground arith)
    ]

pub Replied-mono :
    {w : World} {c : Call} {P Q : Result (Reply c) → Type 0} {h : List Call}
    → ((r : Result (Reply c)) → P r → Q r)
    → Replied w c P h
    → Replied w c Q h
Replied-mono f (now p) = now (f _ p)
Replied-mono f (before d r) = before d (Replied-mono f r)

pub Replied-Answered :
    {w : World} {c : Call} {a : Reply c} {h : List Call}
    → Replied w c (λ r. r ≡ ok a) h
    → Answered w c a h
Replied-Answered (now e) = Answered.now e
Replied-Answered (before d r) = Answered.before d (Replied-Answered r)

pub Replied-Missing :
    {w : World} {c : Call} {e : Error} {h : List Call}
    → is_not_found e ≡ true
    → Replied w c (λ r. r ≡ err e) h
    → Missing w c h
Replied-Missing missing = Replied-mono (λ r same_reply. subst IsMissing (sym same_reply) missing)

pub Answered-Lasts : (w : World) (c : Call) (a : Reply c) → Lasts (Answered w c a)
Answered-Lasts w c a h h' e x = Answered-Extends c a e x

-- The answer to an attempt is in hand.
pub Ends-attempt_reply :
    (w : World) (c : Call) (s : State)
    → Ends (λ r h. Replied w c (λ x. x ≡ r) h) (attempt (send w c)) s
Ends-attempt_reply w c s =
    Ends-attempt_send w c s (λ r h. Replied w c (λ x. x ≡ r) h) (λ r e. now e)

pub Ends-send_answer :
    (w : World) (c : Call) (s : State) → Ends (λ a h. Answered w c a h) (send w c) s
Ends-send_answer w c s = Ends-send w c s (λ a h. Answered w c a h) (λ a e. Answered.now e)

-- An answer stays, and may be read off at an equal end.
pub answer_stays :
    (w : World) (c : Call) (a b : Reply c) (h : List Call) (u v : State)
    → Answered w c a h
    → Extends Any h u.calls
    → u ≡ v
    → a ≡ b
    → Answered w c b v.calls
answer_stays w c a b h u v answered trace same_state same_reply =
    subst (λ y. Answered w c y v.calls) same_reply
      (subst (λ t. Answered w c a t.calls) same_state (Answered-Extends c a trace answered))
