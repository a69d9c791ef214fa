-- ===== src/Elb/Names/Keys.antt =====
-- The keys by which reconcile and UpdateLoadBalancer match ports with listeners.
use cloud_provider_opentelek.Base.{
  ℕ, ◌≡◌, ◌≢◌, sym, subst, List, [], ◌∷◌, none, some, In, first, later, arith, inl, inr, Bool-cases,
  ◌==◌, ◌⊎◌,
}
use cloud_provider_opentelek.Text.{Text, text_eq, text_beq_iff}
use cloud_provider_opentelek.Text.Separator.{Lacks, split_at_first}
use cloud_provider_opentelek.Text.Decimal.{format_nat}
use cloud_provider_opentelek.Text.Decimal.RoundTrip.{format_nat-injective}
use cloud_provider_opentelek.Maps.{Dict, lookup, insert, lookup-insert}
use cloud_provider_opentelek.Kube.{ServicePort}
use cloud_provider_opentelek.Cloud.{Listener}
use cloud_provider_opentelek.Elb.Names.{
  protocol_key, port_key, listener_key, insert_all, listeners_by_key,
}

-- Protocols without a slash: a key determines protocol and port.
pub protocol_key-injective :
    (p q : Text) (m n : ℕ)
    → Lacks b'/' p
    → Lacks b'/' q
    → protocol_key p m ≡ protocol_key q n
    → (p ≡ q) × (m ≡ n)
protocol_key-injective p q m n hp hq e =
    let (same_protocol, same_digits) =
      split_at_first b'/' p q (format_nat m) (format_nat n) hp hq e in
    (same_protocol, format_nat-injective m n same_digits)

-- What the map holds: the last of the listeners with the key, or what was there before.
lookup-insert_all :
    (k : Text) (ls : List Listener) (m : Dict Listener) (l : Listener)
    → lookup k (insert_all ls m) ≡ some l
    → (In l ls × (listener_key l ≡ k)) ⊎ (lookup k m ≡ some l)
unfolding insert_all
lookup-insert_all k [] m l e = inr e
lookup-insert_all k (x ∷ ls) m l e =
    elim (lookup-insert_all k ls (insert (listener_key x) x m) l e) [
      | inl (i, key) ↦ inl (later x i, key)
      | inr old ↦ elim (Bool-cases (listener_key x == k)) [
        | inl hit ↦
            let same : x ≡ l = ground (arith, lookup-insert (listener_key x) k x m) in
            inl (
              subst (λ y. In y (x ∷ ls)) same first,
              ground (arith, text_beq_iff (listener_key x) k),
            )
        | inr miss ↦ inr (ground (arith, lookup-insert (listener_key x) k x m))
      ]
    ]

insert_all-keeps :
    (k : Text) (ls : List Listener) (m : Dict Listener)
    → lookup k m ≢ none
    → lookup k (insert_all ls m) ≢ none
unfolding insert_all
insert_all-keeps k [] m h = h
insert_all-keeps k (x ∷ ls) m h =
    insert_all-keeps k ls (insert (listener_key x) x m)
      (ground (arith, lookup-insert (listener_key x) k x m))

insert_all-finds :
    (ls : List Listener) (m : Dict Listener) (l : Listener)
    → In l ls
    → lookup (listener_key l) (insert_all ls m) ≢ none
unfolding insert_all
insert_all-finds [] m l i = elim i [ ]
insert_all-finds (l ∷ ls) m _ first =
    insert_all-keeps (listener_key l) ls (insert (listener_key l) l m) (
      ground (
        arith,
        lookup-insert (listener_key l) (listener_key l) l m,
        text_beq_iff (listener_key l) (listener_key l),
      ))
insert_all-finds (x ∷ ls) m l (later _ i) = insert_all-finds ls (insert (listener_key x) x m) l i

listener_key-port_key :
    (l : Listener) (port : ServicePort)
    → Lacks b'/' l.protocol
    → Lacks b'/' port.protocol
    → listener_key l ≡ port_key port
    → (l.protocol ≡ port.protocol) × (l.protocol_port ≡ port.port)
unfolding listener_key port_key
listener_key-port_key l port hl hp e =
    protocol_key-injective l.protocol port.protocol l.protocol_port port.port hl hp e

same-key :
    (l : Listener) (port : ServicePort)
    → l.protocol ≡ port.protocol
    → l.protocol_port ≡ port.port
    → listener_key l ≡ port_key port
unfolding listener_key port_key
same-key l port p q = rw (p, q)

-- A lookup finds a listed listener with the key.
pub found_is_listed :
    (key : Text) (ls : List Listener) (l : Listener)
    → lookup key (listeners_by_key ls) ≡ some l
    → In l ls × (listener_key l ≡ key)
unfolding listeners_by_key lookup
found_is_listed key ls l e = elim (lookup-insert_all key ls [] l e) [
  | inl hit ↦ hit
  | inr old ↦ absurd (ground arith)
]

-- A port finds a listed listener with its protocol and its number, and finds none only where no
-- listed listener has both. Protocols hold no slash.
pub lookup-listeners_by_key :
    (port : ServicePort) (ls : List Listener)
    → Lacks b'/' port.protocol
    → ((l : Listener) → In l ls → Lacks b'/' l.protocol)
    → ((l : Listener)
        → lookup (port_key port) (listeners_by_key ls) ≡ some l
        → In l ls × (l.protocol ≡ port.protocol) × (l.protocol_port ≡ port.port))
      × ((l : Listener)
          → lookup (port_key port) (listeners_by_key ls) ≡ none
          → In l ls
          → l.protocol ≡ port.protocol
          → l.protocol_port ≢ port.port)
unfolding listeners_by_key
lookup-listeners_by_key port ls hp hl = (
  λ l e.
      let (i, key) = found_is_listed (port_key port) ls l e in
      let (same_protocol, same_port) = listener_key-port_key l port (hl l i) hp key in
      (i, same_protocol, same_port),
  λ l e i p q.
      insert_all-finds ls [] l i
        (subst (λ k. lookup k (listeners_by_key ls) ≡ none) (sym (same-key l port p q)) e),
)
