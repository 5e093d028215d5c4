-- ===== src/Cluster/Examples/Choices.antt =====
-- The load balancer and the gossip about tokens at work.
use Prim.Native.Nat.{compare}
use ironfish.Base.{
  ℕ, Bool, true, false, some, [], ◌∷◌, text, text_eq, nat_eq, ◌==◌, get as find, ◌≡◌, refl, none,
  if◌then◌else◌, ◌||◌,
}
use ironfish.Core.Error.{ok}
use ironfish.Core.Cluster.{default_metrics}
use ironfish.Core.Gossip.{token_created, token_revoked}
use ironfish.Auth.Store.{get}
use ironfish.Auth.Examples.{plain, token, no_tokens}
use ironfish.Cluster.LoadBalancer.{Floats, cpu_aware, NodeScore, CpuAwareLoadBalancer, select_node}
use ironfish.Cluster.LoadBalancer.Choice.{Selects, select_node_eligible}
use ironfish.Cluster.Service.{process_gossip_message}
use ironfish.Cluster.Service.Tokens.{revocation_overtakes}

-- Floats whose bits compare like them, as those of positive ones do, except one that is a NaN.
abbrev floats : Floats
floats = record {
  sub32 = λ a b. a;
  widen = λ a. a;
  from_int = λ n. n;
  add = λ a b. a;
  mul = λ a b. a;
  div = λ a b. a;
  partial_cmp = λ a b. if a == 9 || b == 9 then none else some (compare a b);
}

abbrev score_of : ℕ → Bool → ℕ → NodeScore
score_of active healthy score = record {
  metrics = record default_metrics { active_analyses = active };
  healthy = healthy;
  score = score;
}

abbrev balancer : CpuAwareLoadBalancer
balancer = record {
  config = record {
    strategy = cpu_aware;
    cpu_weight = 0;
    queue_weight = 0;
    latency_weight = 0;
    max_queue_depth = 10;
  };
  nodes =
      (text "a", score_of 3 true 8)
      ∷ (text "b", score_of 1 true 5)
      ∷ (text "c", score_of 0 false 9)
      ∷ [];
  round_robin_counter = 5;
}

select_node_eligible_example :
    Selects floats (text "a" ∷ []) balancer (select_node floats (text "a" ∷ []) balancer).1
    × ((select_node floats (text "a" ∷ []) balancer).0.nodes ≡ balancer.nodes)
select_node_eligible_example = select_node_eligible floats (text "a" ∷ []) balancer

revocation_overtakes_example :
    (get plain 7
      (process_gossip_message plain 30
        (token_created token)
        (process_gossip_message plain 20 (token_revoked 7) no_tokens).1).1).0
    ≡ ok (some token)
unfolding get find
revocation_overtakes_example = (revocation_overtakes plain 20 30 token no_tokens refl refl).1
