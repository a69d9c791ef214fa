-- ===== src/Elb/Members/Present.antt =====
-- The map of the members that the cloud lists for a pool.
use cloud_provider_opentelek.Base.{
  subst, ◌≡◌, ◌≢◌, List, [], ◌∷◌, none, some, In, first, later, arith, inl, inr, Bool-cases, ◌==◌,
  ◌⊎◌,
}
use cloud_provider_opentelek.Text.{Text, text_eq, text_beq_iff}
use cloud_provider_opentelek.Maps.{Dict, lookup, insert, lookup-insert}
use cloud_provider_opentelek.Cloud.{World, State, Reason, Call, ok, Member, lift}
use cloud_provider_opentelek.Cloud.Exec.Answers.{Answered, bind-eq-ok, or_wrap-send-Answered}
use cloud_provider_opentelek.Elb.Members.{list_members, member_key, have_from, have_members}

abbrev pub key_of : Member → Text
key_of x = member_key x.address x.protocol_port

have_from-lookup :
    (xs : List Member) (m : Dict Text) (key id : Text)
    → lookup key (have_from xs m) ≡ some id
    → ((x : Member) × In x xs × (key_of x ≡ key) × (x.id ≡ id)) ⊎ (lookup key m ≡ some id)
unfolding have_from
have_from-lookup [] m key id e = inr e
have_from-lookup (x ∷ xs) m key id e =
    elim (have_from-lookup xs (insert (key_of x) x.id m) key id e) [
      | inl (y, i, k, d) ↦ inl (y, later x i, k, d)
      | inr old ↦ elim (Bool-cases (key_of x == key)) [
        | inl hit ↦ inl (
          x,
          first,
          ground (arith, text_beq_iff (key_of x) key),
          ground (arith, lookup-insert (key_of x) key x.id m),
        )
        | inr miss ↦ inr (ground (arith, lookup-insert (key_of x) key x.id m))
      ]
    ]

-- Each entry is the id of a listed member with the key.
pub lookup-have_members :
    (xs : List Member) (key id : Text)
    → lookup key (have_members xs) ≡ some id
    → (x : Member) × In x xs × (key_of x ≡ key) × (x.id ≡ id)
unfolding have_members lookup
lookup-have_members xs key id e = elim (have_from-lookup xs [] key id e) [
  | inl found ↦ found
  | inr nothing ↦ absurd (ground arith)
]

have_from-keeps :
    (xs : List Member) (m : Dict Text) (key : Text)
    → lookup key m ≢ none
    → lookup key (have_from xs m) ≢ none
unfolding have_from
have_from-keeps [] m key h = h
have_from-keeps (x ∷ xs) m key h =
    have_from-keeps xs (insert (key_of x) x.id m) key
      (ground (arith, lookup-insert (key_of x) key x.id m))

have_from-finds :
    (xs : List Member) (m : Dict Text) (x : Member)
    → In x xs
    → lookup (key_of x) (have_from xs m) ≢ none
unfolding have_from
have_from-finds [] m x i = elim i [ ]
have_from-finds (x ∷ xs) m _ first =
    have_from-keeps xs (insert (key_of x) x.id m) (key_of x) (
      ground
        (arith, lookup-insert (key_of x) (key_of x) x.id m, text_beq_iff (key_of x) (key_of x)))
have_from-finds (y ∷ xs) m x (later _ i) = have_from-finds xs (insert (key_of y) y.id m) x i

-- And no listed member lacks an entry.
pub lookup-have_members-none :
    (xs : List Member) (key : Text) (x : Member)
    → lookup key (have_members xs) ≡ none
    → In x xs
    → key_of x ≢ key
unfolding have_members
lookup-have_members-none xs key x e i k = have_from-finds xs [] x i (rw k e)

-- A listing that succeeds is an answer of the cloud.
pub list_members-Answered :
    (w : World) (id : Text) (s s' : State) (all : List Member)
    → list_members w id s ≡ (ok all, s')
    → Answered w (Call.list_members id) (ok all) s'.calls
unfolding list_members lift
list_members-Answered w id s s' all e =
    let (pages, s1, e1, rest) = bind-eq-ok _ _ s s' all e in
    let same_pages : pages ≡ ok all = ground arith in
    let same_state : s1 ≡ s' = ground arith in
    subst (λ t. Answered w (Call.list_members id) (ok all) t.calls) same_state
      (or_wrap-send-Answered w (Call.list_members id) (Reason.list_members id) s s1 (ok all)
        (rw same_pages at e1))
