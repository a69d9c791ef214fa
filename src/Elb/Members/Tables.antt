-- ===== src/Elb/Members/Tables.antt =====
-- The two maps of reconcileMembers: what they hold, and that they hold everything.
use cloud_provider_opentelek.Base.{
  ℕ, ◌≡◌, ◌≢◌, refl, subst, List, [], ◌∷◌, Option, none, some, In, first, later, arith, inl, inr,
  Bool-cases, if◌then◌else◌, ◌==◌, ◌⊎◌,
}
use cloud_provider_opentelek.Text.{Text, text_eq, text_beq_iff}
use cloud_provider_opentelek.Maps.{Dict, lookup, insert, lookup-insert}
use cloud_provider_opentelek.Kube.{Node}
use cloud_provider_opentelek.Elb.Nodes.{node_address}
use cloud_provider_opentelek.Elb.Members.{member_key, put_node, wanted_from, wanted_members}

-- `address` is the address of one of the nodes, and `key` the member that it makes.
pub record IsTarget (port : ℕ) (nodes : List Node) (key : Text) (node : Node) (address : Text)
    : Type 0 where
  pub among : In node nodes
  pub at : node_address node ≡ some address
  pub same_key : member_key address port ≡ key

IsTarget-later :
    {port : ℕ} {nodes : List Node} {key : Text} {node : Node} {address : Text} (x : Node)
    → IsTarget port nodes key node address
    → IsTarget port (x ∷ nodes) key node address
IsTarget-later x t = record { among = later x t.among; at = t.at; same_key = t.same_key }

put_node-lookup :
    (port : ℕ) (x : Node) (o : Option Text) (m : Dict (Node × Text)) (key : Text) (node : Node)
    (address : Text)
    → node_address x ≡ o
    → lookup key (put_node port x o m) ≡ some (node, address)
    → ((x ≡ node) × (node_address x ≡ some address) × (member_key address port ≡ key))
      ⊎ (lookup key m ≡ some (node, address))
unfolding put_node
put_node-lookup port x none m key node address at e = inr e
put_node-lookup port x (some a) m key node address at e =
    let stored : lookup key (insert (member_key a port) (x, a) m)
        ≡ (if member_key a port == key then some (x, a) else lookup key m) =
      lookup-insert (member_key a port) key (x, a) m in
    elim (Bool-cases (member_key a port == key)) [
      | inl hit ↦
          let entry : ◌≡◌ {A = Option (Node × Text)} (some (x, a)) (some (node, address)) =
            ground (arith, stored) in
          let same_address : a ≡ address = ground arith in
          inl (
            ground arith,
            rw same_address at at,
            ground (arith, text_beq_iff (member_key a port) key),
          )
      | inr miss ↦ inr (ground (arith, stored))
    ]

wanted_from-lookup :
    (port : ℕ) (nodes : List Node) (m : Dict (Node × Text)) (key : Text) (node : Node)
    (address : Text)
    → lookup key (wanted_from port nodes m) ≡ some (node, address)
    → IsTarget port nodes key node address ⊎ (lookup key m ≡ some (node, address))
unfolding wanted_from put_node
wanted_from-lookup port [] m key node address e = inr e
wanted_from-lookup port (x ∷ nodes) m key node address e =
    elim (wanted_from-lookup port nodes (put_node port x (node_address x) m) key node address e) [
      | inl t ↦ inl (IsTarget-later x t)
      | inr old ↦ elim (put_node-lookup port x (node_address x) m key node address refl old) [
        | inl (same, at, same_key) ↦ inl (record {
          among = subst (λ y. In y (x ∷ nodes)) same first;
          at = subst (λ y. node_address y ≡ some address) same at;
          same_key = same_key;
        })
        | inr older ↦ inr older
      ]
    ]

-- Each entry of the map comes from a node.
pub lookup-wanted_members :
    (port : ℕ) (nodes : List Node) (key : Text) (node : Node) (address : Text)
    → lookup key (wanted_members port nodes) ≡ some (node, address)
    → IsTarget port nodes key node address
unfolding wanted_members lookup
lookup-wanted_members port nodes key node address e =
    elim (wanted_from-lookup port nodes [] key node address e) [
      | inl t ↦ t
      | inr nothing ↦ absurd (ground arith)
    ]

put_node-keeps :
    (port : ℕ) (x : Node) (o : Option Text) (m : Dict (Node × Text)) (key : Text)
    → lookup key m ≢ none
    → lookup key (put_node port x o m) ≢ none
unfolding put_node
put_node-keeps port x none m key h = h
put_node-keeps port x (some a) m key h =
    ground (arith, lookup-insert (member_key a port) key (x, a) m)

wanted_from-keeps :
    (port : ℕ) (nodes : List Node) (m : Dict (Node × Text)) (key : Text)
    → lookup key m ≢ none
    → lookup key (wanted_from port nodes m) ≢ none
unfolding wanted_from
wanted_from-keeps port [] m key h = h
wanted_from-keeps port (x ∷ nodes) m key h =
    wanted_from-keeps port nodes (put_node port x (node_address x) m) key
      (put_node-keeps port x (node_address x) m key h)

put_node-finds :
    (port : ℕ) (x : Node) (m : Dict (Node × Text)) (address : Text)
    → lookup (member_key address port) (put_node port x (some address) m) ≢ none
unfolding put_node
put_node-finds port x m address =
    let key : Text = member_key address port in
    ground (arith, lookup-insert key key (x, address) m, text_beq_iff key key)

wanted_from-finds :
    (port : ℕ) (nodes : List Node) (m : Dict (Node × Text)) (node : Node) (address : Text)
    → In node nodes
    → node_address node ≡ some address
    → lookup (member_key address port) (wanted_from port nodes m) ≢ none
unfolding wanted_from
wanted_from-finds port [] m node address i at = elim i [ ]
wanted_from-finds port (x ∷ nodes) m _ address first at =
    wanted_from-keeps port nodes (put_node port x (node_address x) m) (member_key address port)
      (rw at (put_node-finds port x m address))
wanted_from-finds port (x ∷ nodes) m node address (later _ i) at =
    wanted_from-finds port nodes (put_node port x (node_address x) m) node address i at

-- And each node that has an address is in it.
pub lookup-wanted_members-none :
    (port : ℕ) (nodes : List Node) (key : Text) (node : Node) (address : Text)
    → lookup key (wanted_members port nodes) ≡ none
    → ¬ IsTarget port nodes key node address
unfolding wanted_members
lookup-wanted_members-none port nodes key node address e t =
    wanted_from-finds port nodes [] node address t.among t.at (rw t.same_key e)
