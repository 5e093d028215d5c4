-- ===== src/Cluster/LoadBalancer.antt =====
-- crates/ironfish-cluster/src/load_balancer.rs. The scores are floats, so the operations of
-- `f32` and `f64` are an argument; an `f64` is its 64 bits. A `None` of `partial_cmp` panics.
pub mod Choice
pub mod Health
use Prim.Native.Nat.{compare, Ordering}
use ironfish.Base.{
  ℕ, suc, ◌+◌, ◌%◌, Bool, true, false, not, ◌&&◌, Option, none, some, List, [], ◌∷◌, Text, text_eq,
  Map, get, insert, remove, length, get_elem?, any, filterb, ltb, nat_eqb, ◌==◌, if◌then◌else◌,
}
use ironfish.Core.Cluster.{NodeId, Float32, NodeMetrics, default_metrics}
use ironfish.Cluster.Node.{u64_mod}

abbrev pub Float64 : Type 0
Float64 = ℕ

-- The floating-point operations that the file uses, named by their types.
pub record Floats : Type 0 where
  pub sub32 : Float32 → Float32 → Float32
  pub widen : Float32 → Float64
  pub from_int : ℕ → Float64
  pub add : Float64 → Float64 → Float64
  pub mul : Float64 → Float64 → Float64
  pub div : Float64 → Float64 → Float64
  pub partial_cmp : Float64 → Float64 → Option Ordering

-- The bits of 1.0 in both widths; those of 0.0 are 0.
abbrev pub one32 : Float32
one32 = 0x3f800000

abbrev pub one64 : Float64
one64 = 0x3ff0000000000000

pub data LoadBalanceStrategy : Type 0 where
  round_robin least_connections cpu_aware : LoadBalanceStrategy

pub record LoadBalancerConfig : Type 0 where
  pub strategy : LoadBalanceStrategy
  pub cpu_weight : Float32
  pub queue_weight : Float32
  pub latency_weight : Float32
  pub max_queue_depth : ℕ

pub record NodeScore : Type 0 where
  pub metrics : NodeMetrics
  pub healthy : Bool
  pub score : Float64

pub record CpuAwareLoadBalancer : Type 0 where
  pub config : LoadBalancerConfig
  pub nodes : Map NodeId NodeScore
  pub round_robin_counter : ℕ

unfoldable pub new : LoadBalancerConfig → CpuAwareLoadBalancer
new config = record { config = config; nodes = []; round_robin_counter = 0 }

unfoldable pub add_node : NodeId → CpuAwareLoadBalancer → CpuAwareLoadBalancer
add_node node_id lb = record lb {
  nodes =
      insert node_id (record { metrics = default_metrics; healthy = true; score = one64 }) lb.nodes;
}

unfoldable pub remove_node : NodeId → CpuAwareLoadBalancer → CpuAwareLoadBalancer
remove_node node_id lb = record lb { nodes = remove node_id lb.nodes }

abbrev pub Candidate : Type 0
Candidate = NodeId × NodeScore

-- The filter that the three strategies share.
abbrev pub is_eligible : List NodeId → Candidate → Bool
is_eligible exclude c = c.1.healthy && not (any (λ x. x == c.0) exclude)

abbrev pub eligible : List NodeId → CpuAwareLoadBalancer → List Candidate
eligible exclude lb = filterb (is_eligible exclude) lb.nodes

-- What a selection comes to: `unavailable` is `Err(ClusterUnavailable)`.
pub data Selection : Type 0 where
  selected : NodeId → Selection
  unavailable panicked : Selection

abbrev at_index : Option Candidate → Selection
at_index none = panicked
at_index (some c) = selected c.0

-- `fetch_add` on an `AtomicUsize` returns the old count and wraps.
unfoldable pub select_round_robin :
    List NodeId → CpuAwareLoadBalancer → CpuAwareLoadBalancer × Selection
select_round_robin exclude lb =
    let available = eligible exclude lb in
    let counter = lb.round_robin_counter in
    let taken = record lb { round_robin_counter = (counter + 1) % u64_mod } in
    if nat_eqb (length available) 0
    then (lb, unavailable)
    else (taken, at_index (get_elem? available (counter % length available)))

-- `min_by_key` returns the first of several minima.
abbrev lighter : Candidate → Candidate → Candidate
lighter b c = if ltb c.1.metrics.active_analyses b.1.metrics.active_analyses then c else b

least_from : Candidate → List Candidate → Candidate
least_from b [] = b
least_from b (c ∷ cs) = least_from (lighter b c) cs

least : List Candidate → Selection
unfolding least_from
least [] = unavailable
least (c ∷ cs) = selected (least_from c cs).0

unfoldable pub select_least_connections : List NodeId → CpuAwareLoadBalancer → Selection
unfolding least
select_least_connections exclude lb = least (eligible exclude lb)

module _ (f : Floats) where
  unfoldable pub calculate_score : LoadBalancerConfig → NodeMetrics → Float64
  calculate_score config metrics =
      let cpu_score =
        f.mul (f.widen (f.sub32 one32 metrics.cpu_usage)) (f.widen config.cpu_weight) in
      let queue_score =
        f.mul (f.div one64 (f.add (f.from_int metrics.queue_depth) one64))
          (f.widen config.queue_weight) in
      let latency_score =
        f.mul (f.div one64 (f.add (f.from_int metrics.avg_latency_ms) one64))
          (f.widen config.latency_weight) in
      f.add (f.add cpu_score queue_score) latency_score

  -- `max_by` keeps the later of two equal maxima.
  larger : Option Ordering → Candidate → Candidate → Option Candidate
  larger none a b = none
  larger (some Ordering.gt) a b = some a
  larger (some _) a b = some b

  best_from : Option Candidate → List Candidate → Selection
  best_from none cs = panicked
  best_from (some best) [] = selected best.0
  best_from (some best) (c ∷ cs) =
      best_from (larger (f.partial_cmp best.1.score c.1.score) best c) cs

  best : List Candidate → Selection
  unfolding best_from larger
  best [] = unavailable
  best (c ∷ cs) = best_from (some c) cs

  unfoldable pub select_cpu_aware : List NodeId → CpuAwareLoadBalancer → Selection
  unfolding best
  select_cpu_aware exclude lb = best (eligible exclude lb)

  select_by :
      LoadBalanceStrategy → List NodeId → CpuAwareLoadBalancer → CpuAwareLoadBalancer × Selection
  unfolding select_round_robin select_least_connections select_cpu_aware
  select_by round_robin exclude lb = select_round_robin exclude lb
  select_by least_connections exclude lb = (lb, select_least_connections exclude lb)
  select_by cpu_aware exclude lb = (lb, select_cpu_aware exclude lb)

  unfoldable pub select_node : List NodeId → CpuAwareLoadBalancer → CpuAwareLoadBalancer × Selection
  unfolding select_by
  select_node exclude lb = select_by lb.config.strategy exclude lb

-- `get_mut` and a write through it: nothing happens without the key.
modify : NodeId → (NodeScore → NodeScore) → Map NodeId NodeScore → Map NodeId NodeScore
modify k g [] = []
modify k g ((j, s) ∷ m) = (j, if j == k then g s else s) ∷ modify k g m

unfoldable pub mark_unhealthy : NodeId → CpuAwareLoadBalancer → CpuAwareLoadBalancer
unfolding modify
mark_unhealthy node_id lb = record lb {
  nodes = modify node_id (λ s. record s { healthy = false; score = 0 }) lb.nodes;
}

module _ (f : Floats) where
  unfoldable pub update_metrics : NodeId → NodeMetrics → CpuAwareLoadBalancer → CpuAwareLoadBalancer
  unfolding modify calculate_score
  update_metrics node_id metrics lb = record lb {
    nodes =
        modify node_id
          (λ s. record s { metrics = metrics; score = calculate_score f lb.config metrics })
          lb.nodes;
  }

  unfoldable pub mark_healthy : NodeId → CpuAwareLoadBalancer → CpuAwareLoadBalancer
  unfolding modify calculate_score
  mark_healthy node_id lb = record lb {
    nodes =
        modify node_id
          (λ s. record s { healthy = true; score = calculate_score f lb.config s.metrics })
          lb.nodes;
  }
