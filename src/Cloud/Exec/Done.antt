-- ===== src/Cloud/Exec/Done.antt =====
-- A call has been answered, with whatever reply.
use cloud_provider_opentelek.Base.{List}
use cloud_provider_opentelek.Cloud.Calls.{Call, Reply}
use cloud_provider_opentelek.Cloud.Exec.{State, World, send, ignore}
use cloud_provider_opentelek.Cloud.Exec.Ends.{Lasts, Ends, Ends-mono, Ends-pure, Ends-bind}
use cloud_provider_opentelek.Cloud.Exec.Gone.{Ends-send_answer}
use cloud_provider_opentelek.Cloud.Exec.Answers.{Answered, Answered-Extends}

-- Some reply to the call has come.
abbrev pub Done : World → Call → List Call → Type 0
Done w c h = (a : Reply c) × Answered w c a h

pub Done-Lasts : (w : World) (c : Call) → Lasts (Done w c)
Done-Lasts w c h h' e (a, answered) = (a, Answered-Extends _ _ e answered)

pub send-Done : (w : World) (c : Call) (s : State) → Ends (λ _ h. Done w c h) (send w c) s
send-Done w c s = Ends-mono (λ a h answered. (a, answered)) (Ends-send_answer w c s)

pub ignored-Done :
    (w : World) (c : Call) (s : State) → Ends (λ _ h. Done w c h) (ignore (send w c)) s
unfolding ignore
ignored-Done w c s =
    Ends-bind _ s (send w c) _ (Ends-send_answer w c s)
      (λ a t _ answered. Ends-pure _ t tt (a, answered))
