-- ===== src/Tests/Keyed.antt =====
-- A cloud that names each member after its address and port, and otherwise answers as another one.
use cloud_provider_opentelek.Base.{
  ℕ, ◌≡◌, ◌∙◌, refl, sym, ap, subst, List, [], ◌∷◌, In, first, later, arith,
}
use cloud_provider_opentelek.Text.{Text, codes}
use cloud_provider_opentelek.Cloud.{World, WaitLaws, OrderLaws, Result, Reply, Call, ok, Member}
use cloud_provider_opentelek.Cloud.Exec.Answers.{Answered, now, before}
use cloud_provider_opentelek.Elb.Members.{member_key}
use cloud_provider_opentelek.Elb.Members.Present.{key_of}
use cloud_provider_opentelek.Elb.Members.Known.{Known, listed, created, kept, MemberLaws}

abbrev at_key : Text → ℕ → Member
at_key address port = record {
  id = member_key address port;
  address = address;
  protocol_port = port;
}

-- A node that is gone, and one of the two that are there.
abbrev pub before_sync : List Member
before_sync = at_key (codes "10.0.0.9") 30080 ∷ at_key (codes "10.0.0.1") 30080 ∷ []

abbrev pub keyed_answer : World → (c : Call) → List Call → Result (Reply c)
keyed_answer w (Call.list_members id) h = ok (ok before_sync)
keyed_answer w (Call.create_member id o) h = ok (at_key o.address o.protocol_port)
keyed_answer w (Call.delete_member id member_id) h = ok tt
keyed_answer w c h = w.answer c h

abbrev pub keyed : World → World
keyed w = record w { answer = keyed_answer w }

pub keyed-WaitLaws : {w : World} → WaitLaws w → WaitLaws (keyed w)
keyed-WaitLaws laws = record { polls = laws.polls; backs_off = laws.backs_off }

pub keyed-OrderLaws : {w : World} → OrderLaws w → OrderLaws (keyed w)
keyed-OrderLaws orders = record { permutes = orders.permutes }

named_by_key : (x : Member) → In x before_sync → x.id ≡ key_of x
named_by_key _ first = refl
named_by_key _ (later _ first) = refl
named_by_key _ (later _ (later _ i)) = elim i [ ]

listed_by_key :
    (xs : List Member) (x : Member)
    → ◌≡◌ {A = Result (Result (List Member))} (ok (ok before_sync)) (ok (ok xs))
    → In x xs
    → x.id ≡ key_of x
listed_by_key xs x e i =
    let same_list : before_sync ≡ xs = ground arith in
    named_by_key x (subst (In x) (sym same_list) i)

module _ (w : World) (pool_id : Text) where
  known_by_key : (x : Member) (h : List Call) → Known (keyed w) pool_id x h → x.id ≡ key_of x
  known_by_key x _ (listed xs a i) = listed_by_key xs x a i
  known_by_key x _ (created o a) =
      let same_member : at_key o.address o.protocol_port ≡ x = ground arith in
      subst (λ y. y.id ≡ key_of y) same_member refl
  known_by_key x _ (kept {h} c k _) = known_by_key x h k

  answered_by_key :
      (xs : List Member) (x : Member)
      → In x xs
      → (h : List Call) → Answered (keyed w) (Call.list_members pool_id) (ok xs) h
      → x.id ≡ key_of x
  answered_by_key xs x i _ (now a) = listed_by_key xs x a i
  answered_by_key xs x i _ (before {h} c a) = answered_by_key xs x i h a

  pub keyed-MemberLaws : MemberLaws (keyed w) pool_id
  keyed-MemberLaws = record {
    echoes = λ h o x a.
        let same_member : at_key o.address o.protocol_port ≡ x = ground arith in
        (ap (λ y. y.address) (sym same_member), ap (λ y. y.protocol_port) (sym same_member));
    immutable =
        λ h xs x y a i k same_id. sym (answered_by_key xs x i h a) ∙ same_id ∙ known_by_key y h k;
    unique =
        λ h xs x y a i j same_key. listed_by_key xs x a i ∙ same_key ∙ sym (listed_by_key xs y a j);
  }
