-- ===== src/Cluster/Gossip/Peers.antt =====
-- The list of peers that gossip keeps.
use ironfish.Base.{
  false, not, List, [], ◌∷◌, ◌++◌, text_eq, text_eqb_iff, ◌==◌, any, filterb, All, All-append, ◌≡◌,
  ◌≢◌, arith, Bool-cases, inl, inr,
}
use ironfish.Core.Cluster.{NodeId, NodeInfo}
use ironfish.Cluster.Gossip.{GossipService, add_peer}

-- No two peers of the list have one identifier.
abbrev pub Distinct : List NodeInfo → Type 0
Distinct [] = Unit
Distinct (p ∷ ps) = All (λ q. p.id ≢ q.id) ps × Distinct ps

any-false-All :
    (k : NodeId) (ps : List NodeInfo) → any (λ p. p.id == k) ps ≡ false → All (λ p. p.id ≢ k) ps
any-false-All k [] h = tt
any-false-All k (p ∷ ps) h = ground (arith, text_eqb_iff p.id k, any-false-All k ps)

Distinct-push :
    (p : NodeInfo) (ps : List NodeInfo)
    → Distinct ps
    → All (λ q. q.id ≢ p.id) ps
    → Distinct (ps ++ p ∷ [])
Distinct-push p [] d a = (tt, tt)
Distinct-push p (q ∷ ps) d a = (All-append _ ps (p ∷ []) d.0 (a.0, tt), Distinct-push p ps d.1 a.1)

-- `add_peer` keeps the identifiers of the peers distinct.
add_peer-Distinct :
    (p : NodeInfo) (g : GossipService) → Distinct g.peers → Distinct (add_peer p g).peers
unfolding add_peer
add_peer-Distinct p g d = elim (Bool-cases (any (λ q. q.id == p.id) g.peers)) [
  | inl e ↦ rw e d
  | inr e ↦ rw e (Distinct-push p g.peers d (any-false-All p.id g.peers e))
]

-- `remove_peer` leaves no peer with the identifier.
remove_peer_gone :
    (k : NodeId) (ps : List NodeInfo) → All (λ p. p.id ≢ k) (filterb (λ p. not (p.id == k)) ps)
remove_peer_gone k [] = tt
remove_peer_gone k (p ∷ ps) = ground (arith, text_eqb_iff p.id k, remove_peer_gone k ps)
