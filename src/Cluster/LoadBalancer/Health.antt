-- ===== src/Cluster/LoadBalancer/Health.antt =====
-- How the reports about a node bear on later choices.
use ironfish.Base.{
  true, false, List, [], ◌∷◌, text_eq, text_eqb_iff, Map, ◌==◌, In, ◌≡◌, ◌≢◌, refl, ◌⊎◌, inl, inr,
  arith, Bool-cases,
}
use ironfish.Core.Cluster.{NodeId, NodeMetrics}
use ironfish.Cluster.LoadBalancer.{
  Floats, NodeScore, CpuAwareLoadBalancer, Candidate, is_eligible, modify, mark_unhealthy,
  mark_healthy, update_metrics, calculate_score,
}

-- The candidates with the node's entry replaced: what a report changes in a list of nodes.
modify-In :
    (k : NodeId) (g : NodeScore → NodeScore) (m : Map NodeId NodeScore) (c : Candidate)
    → In c (modify k g m)
    → ((c.0 ≢ k) × In c m) ⊎ ((s : NodeScore) × In (k, s) m × (c ≡ (k, g s)))
unfolding modify
modify-In k g [] c m = elim m [ ]
modify-In k g ((j, s) ∷ m) c (inl e) = elim (Bool-cases (j == k)) [
  | inl p ↦ inr (s, ground (arith, text_eqb_iff j k), ground (arith, text_eqb_iff j k))
  | inr p ↦ inl (ground (arith, text_eqb_iff j k), ground (arith, text_eqb_iff j k))
]
modify-In k g ((j, s) ∷ m) c (inr h) = elim (modify-In k g m c h) [
  | inl (p, n) ↦ inl (p, inr n)
  | inr (t, n, e) ↦ inr (t, inr n, e)
]

In-modify :
    (k : NodeId) (g : NodeScore → NodeScore) (m : Map NodeId NodeScore) (s : NodeScore)
    → In (k, s) m
    → In (k, g s) (modify k g m)
unfolding modify
In-modify k g [] s h = elim h [ ]
In-modify k g ((j, t) ∷ m) s (inl e) = ground (arith, text_eqb_iff j k)
In-modify k g ((j, t) ∷ m) s (inr h) = inr (In-modify k g m s h)

-- Once marked unhealthy, a node is not eligible, so no strategy can pick it; the eligibility of
-- the other nodes is as before, whatever the caller excludes.
mark_unhealthy_lem :
    (k : NodeId) (exclude : List NodeId) (lb : CpuAwareLoadBalancer) (c : Candidate)
    → In c (mark_unhealthy k lb).nodes
    → ((c.0 ≡ k) × (is_eligible exclude c ≡ false)) ⊎ ((c.0 ≢ k) × In c lb.nodes)
unfolding mark_unhealthy
mark_unhealthy_lem k exclude lb c m = elim (modify-In k _ lb.nodes c m) [
  | inl (p, n) ↦ inr (p, n)
  | inr (s, n, e) ↦ inl (ground arith, ground arith)
]

-- Marking it healthy undoes that for a node that was known: it is eligible again if the caller
-- does not exclude it, and has the score of its latest metrics.
mark_healthy-mark_unhealthy :
    (f : Floats) (k : NodeId) (s : NodeScore) (lb : CpuAwareLoadBalancer)
    → In (k, s) lb.nodes
    → In
        (
          k,
          record {
            metrics = s.metrics;
            healthy = true;
            score = calculate_score f lb.config s.metrics;
          },
        )
        (mark_healthy f k (mark_unhealthy k lb)).nodes
unfolding mark_healthy mark_unhealthy
mark_healthy-mark_unhealthy f k s lb m = In-modify k _ _ _ (In-modify k _ lb.nodes s m)

-- New metrics do not bring an unhealthy node back: each entry's health is as it was.
update_metrics-healthy :
    (f : Floats) (k : NodeId) (metrics : NodeMetrics) (lb : CpuAwareLoadBalancer) (c : Candidate)
    → In c (update_metrics f k metrics lb).nodes
    → (s : NodeScore) × In (c.0, s) lb.nodes × (c.1.healthy ≡ s.healthy)
unfolding update_metrics
update_metrics-healthy f k metrics lb c m = elim (modify-In k _ lb.nodes c m) [
  | inl (p, n) ↦ (c.1, n, refl)
  | inr (s, n, e) ↦ (s, ground arith, ground arith)
]
