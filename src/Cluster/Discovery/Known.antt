-- ===== src/Cluster/Discovery/Known.antt =====
-- The list of known peers: one record for each identifier, and nothing lost.
use ironfish.Base.{
  true, false, not, Option, none, some, List, [], ◌∷◌, ◌++◌, text_eq, text_eqb_iff, filterb, ◌==◌,
  if◌then◌else◌, ◌≡◌, refl, ◌∙◌, inl, inr, Bool-cases, arith,
}
use ironfish.Core.Cluster.{NodeId, NodeInfo}
use ironfish.Core.Error.{Result}
use ironfish.Cluster.Discovery.Multicast.{MulticastDiscovery}
use ironfish.Cluster.Discovery.{
  DiscoveryManager, World, found, multicast_call, is_known, add_new, discover, stop, withdraw,
}

-- The first record with an identifier.
abbrev pub first_known : NodeId → List NodeInfo → Option NodeInfo
first_known id [] = none
first_known id (p ∷ ps) = if p.id == id then some p else first_known id ps

abbrev pub or_else : Option NodeInfo → Option NodeInfo → Option NodeInfo
or_else none b = b
or_else (some a) b = some a

-- No two records with one identifier.
abbrev pub IsDistinct : List NodeInfo → Type 0
IsDistinct [] = Unit
IsDistinct (p ∷ ps) = (first_known p.id ps ≡ none) × IsDistinct ps

or_else_assoc : (a b c : Option NodeInfo) → or_else (or_else a b) c ≡ or_else a (or_else b c)
or_else_assoc none b c = refl
or_else_assoc (some a) b c = refl

first_known-append :
    (id : NodeId) (ps qs : List NodeInfo)
    → first_known id (ps ++ qs) ≡ or_else (first_known id ps) (first_known id qs)
first_known-append id [] qs = refl
first_known-append id (p ∷ ps) qs = ground (arith, first_known-append id ps qs)

is_known_lem :
    (id : NodeId) (ps : List NodeInfo) → is_known id ps ≡ false → first_known id ps ≡ none
is_known_lem id [] e = refl
is_known_lem id (p ∷ ps) e = ground (arith, is_known_lem id ps, e)

known_lem :
    (id : NodeId) (ps : List NodeInfo)
    → is_known id ps ≡ true
    → (p : NodeInfo) × (first_known id ps ≡ some p)
known_lem id [] e = ground (arith, e)
known_lem id (p ∷ ps) e = elim (Bool-cases (p.id == id)) [
  | inl q ↦ (p, ground (arith, q))
  | inr q ↦ let (r, f) = known_lem id ps (ground (arith, e, q)) in (r, ground (arith, q, f))
]

push-IsDistinct :
    (p : NodeInfo) (ps : List NodeInfo)
    → IsDistinct ps
    → first_known p.id ps ≡ none
    → IsDistinct (ps ++ p ∷ [])
push-IsDistinct p [] d f = (refl, tt)
push-IsDistinct p (q ∷ ps) d f = (
  ground (
    arith,
    first_known-append q.id ps (p ∷ []),
    d,
    f,
    text_eqb_iff p.id q.id,
    text_eqb_iff q.id p.id,
  ),
  push-IsDistinct p ps d.1 (ground (arith, f)),
)

add_new-IsDistinct : (ps known : List NodeInfo) → IsDistinct known → IsDistinct (add_new ps known)
unfolding add_new
add_new-IsDistinct [] known d = d
add_new-IsDistinct (p ∷ ps) known d = elim (Bool-cases (is_known p.id known)) [
  | inl e ↦ rw e (add_new-IsDistinct ps known d)
  | inr e ↦ rw e (
      add_new-IsDistinct ps (known ++ p ∷ [])
        (push-IsDistinct p known d (is_known_lem p.id known e)))
]

add_new-first :
    (id : NodeId) (ps known : List NodeInfo)
    → first_known id (add_new ps known) ≡ or_else (first_known id known) (first_known id ps)
unfolding add_new
add_new-first id [] known = ground arith
add_new-first id (p ∷ ps) known = elim (Bool-cases (is_known p.id known)) [
  | inl e ↦
      let (q, f) = known_lem p.id known e in
      rw (e, add_new-first id ps known) (ground (arith, f, text_eqb_iff p.id id))
  | inr e ↦
      rw (e, add_new-first id ps (known ++ p ∷ []), first_known-append id known (p ∷ []))
        (or_else_assoc (first_known id known) (first_known id (p ∷ [])) (first_known id ps)
          ∙ ground arith)
]

filterb-first :
    (id j : NodeId) (ps : List NodeInfo)
    → first_known j (filterb (λ p. not (p.id == id)) ps)
      ≡ (if id == j then none else first_known j ps)
filterb-first id j [] = ground arith
filterb-first id j (p ∷ ps) =
    ground
      (arith, filterb-first id j ps, text_eqb_iff p.id id, text_eqb_iff p.id j, text_eqb_iff id j)

filterb-IsDistinct :
    (id : NodeId) (ps : List NodeInfo)
    → IsDistinct ps
    → IsDistinct (filterb (λ p. not (p.id == id)) ps)
filterb-IsDistinct id [] d = tt
filterb-IsDistinct id (p ∷ ps) d = elim (Bool-cases (p.id == id)) [
  | inl e ↦ rw e (filterb-IsDistinct id ps d.1)
  | inr e ↦ rw e (
    ground (arith, filterb-first id p.id ps, d.0, text_eqb_iff p.id id),
    filterb-IsDistinct id ps d.1,
  )
]

-- A call of `discover` gives the list of known peers, which keeps one record for each identifier:
-- the one that was known before, or else the first that a source found now. No peer is lost and no
-- record replaced.
pub discover_lem :
    (w : World) (d : DiscoveryManager)
    → IsDistinct d.known_peers
    → let (known, d') = discover w d in
      (known ≡ d'.known_peers)
      × IsDistinct known
      × ((id : NodeId)
          → first_known id known
            ≡ or_else (first_known id d.known_peers) (first_known id (found w d)))
unfolding discover
discover_lem w d i = (
  refl,
  add_new-IsDistinct (found w d) d.known_peers i,
  λ id. add_new-first id (found w d) d.known_peers,
)

multicast_call-known_peers :
    (f : MulticastDiscovery → Result (Unit {0}) × MulticastDiscovery)
    (o : Option MulticastDiscovery) (d : DiscoveryManager)
    → (multicast_call f o d).1.known_peers ≡ d.known_peers
multicast_call-known_peers f none d = refl
multicast_call-known_peers f (some m) d = refl

stop-known_peers :
    (w : World) (id : NodeId) (d : DiscoveryManager) → (stop w id d).1.known_peers ≡ d.known_peers
unfolding stop
stop-known_peers w id d = multicast_call-known_peers _ d.multicast_discovery d

-- After `withdraw`, whether or not the other nodes could be told, the list of known peers has no
-- record of that identifier and the same record of any other, and still one for each.
withdraw_lem :
    (w : World) (id : NodeId) (d : DiscoveryManager)
    → IsDistinct d.known_peers
    → let d' = (withdraw w id d).1 in
      IsDistinct d'.known_peers
      × ((j : NodeId)
          → first_known j d'.known_peers ≡ (if id == j then none else first_known j d.known_peers))
unfolding withdraw
withdraw_lem w id d i =
    rw (stop-known_peers w id _)
      (filterb-IsDistinct id d.known_peers i, λ j. filterb-first id j d.known_peers)
