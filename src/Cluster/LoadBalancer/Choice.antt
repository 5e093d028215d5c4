-- ===== src/Cluster/LoadBalancer/Choice.antt =====
-- Which node each strategy of the load balancer picks.
use Prim.Native.Nat.{Ordering}
use ironfish.Base.{
  ℕ, ◌+◌, ◌%◌, ◌≤◌, Bool, true, false, some, List, [], ◌∷◌, text_eq, length, get_elem?, any,
  filterb, nat_eqb, nat_eqb_iff, ◌==◌, All, In, In-get_elem?, ◌≡◌, refl, subst, ◌∙◌, ◌⊎◌, inl, inr,
  ◌↔◌, arith, Bool-cases, none, Option,
}
use ironfish.Core.Cluster.{NodeId}
use ironfish.Cluster.Node.{u64_mod}
use ironfish.Cluster.LoadBalancer.{
  Floats, CpuAwareLoadBalancer, LoadBalanceStrategy, round_robin, least_connections, cpu_aware,
  Candidate, Selection, selected, unavailable, eligible, is_eligible, select_round_robin,
  least_from, lighter, least, select_least_connections, larger, best_from, best, select_by,
  select_node, panicked,
}

-- A choice among candidates: one of them, or `unavailable` if there are none.
abbrev pub Chosen : List Candidate → Selection → Type 0
Chosen cs s = ((c : Candidate) × (s ≡ selected c.0) × In c cs) ⊎ ((s ≡ unavailable) × (cs ≡ []))

In-filterb :
    (p : Candidate → Bool) (cs : List Candidate) (c : Candidate)
    → In c (filterb p cs) ↔ (In c cs × (p c ≡ true))
In-filterb p [] c = ground arith
In-filterb p (x ∷ cs) c = elim (Bool-cases (p x)) [
  | inl e ↦ rw e (ground (arith, In-filterb p cs c))
  | inr e ↦ rw e (ground (arith, In-filterb p cs c))
]

lighter-cases : (b c : Candidate) → (lighter b c ≡ b) ⊎ (lighter b c ≡ c)
lighter-cases b c = ground arith

least_from-In : (b : Candidate) (cs : List Candidate) → In (least_from b cs) (b ∷ cs)
unfolding least_from
least_from-In b [] = inl refl
least_from-In b (c ∷ cs) = elim (least_from-In (lighter b c) cs) [
  | inl e ↦ elim (lighter-cases b c) [ inl p ↦ inl (e ∙ p) | inr p ↦ inr (inl (e ∙ p)) ]
  | inr m ↦ inr (inr m)
]

least-Chosen : (cs : List Candidate) → Chosen cs (least cs)
unfolding least
least-Chosen [] = inr (refl, refl)
least-Chosen (c ∷ cs) = inl (least_from c cs, refl, least_from-In c cs)

abbrev load : Candidate → ℕ
load c = c.1.metrics.active_analyses

lighter-le : (b c : Candidate) → (load (lighter b c) ≤ load b) × (load (lighter b c) ≤ load c)
lighter-le b c = ground arith

least_from-le :
    (b : Candidate) (cs : List Candidate)
    → (load (least_from b cs) ≤ load b) × All (λ c. load (least_from b cs) ≤ load c) cs
unfolding least_from
least_from-le b [] = (omega arith, tt)
least_from-le b (c ∷ cs) =
    let ih = least_from-le (lighter b c) cs in
    let (l, r) = lighter-le b c in (omega arith, (omega arith, ih.1))

-- Least connections picks a healthy node outside the excluded ones that has no more active
-- analyses than any other such node, and fails only if there is none.
select_least_connections_min :
    (exclude : List NodeId) (lb : CpuAwareLoadBalancer)
    → ((c : Candidate) × (select_least_connections exclude lb ≡ selected c.0)
        × In c (eligible exclude lb)
        × All (λ d. load c ≤ load d) (eligible exclude lb))
      ⊎ ((select_least_connections exclude lb ≡ unavailable) × (eligible exclude lb ≡ []))
unfolding select_least_connections
select_least_connections_min exclude lb = minimal (eligible exclude lb)
  where
    minimal :
        (cs : List Candidate)
        → ((c : Candidate) × (least cs ≡ selected c.0) × In c cs × All (λ d. load c ≤ load d) cs)
          ⊎ ((least cs ≡ unavailable) × (cs ≡ []))
    minimal [] = inr (refl, refl)
    minimal (c ∷ cs) = inl (least_from c cs, refl, least_from-In c cs, least_from-le c cs)

-- Two of the candidates have scores that do not compare: one of the two is a NaN.
abbrev pub Incomparable : Floats → List Candidate → Type 0
Incomparable f cs =
    (a : Candidate) × (b : Candidate) × In a cs
    × In b cs
    × (f.partial_cmp a.1.score b.1.score ≡ none)

larger-cases :
    (f : Floats) (a b : Candidate)
    → (larger f (f.partial_cmp a.1.score b.1.score) a b ≡ some a)
      ⊎ ((larger f (f.partial_cmp a.1.score b.1.score) a b ≡ some b)
          ⊎ ((larger f (f.partial_cmp a.1.score b.1.score) a b ≡ none)
              × (f.partial_cmp a.1.score b.1.score ≡ none)))
unfolding larger
larger-cases f a b = by_order (f.partial_cmp a.1.score b.1.score)
  where
    by_order :
        (o : Option Ordering)
        → (larger f o a b ≡ some a)
          ⊎ ((larger f o a b ≡ some b) ⊎ ((larger f o a b ≡ none) × (o ≡ none)))
    by_order none = inr (inr (refl, refl))
    by_order (some Ordering.gt) = inl refl
    by_order (some Ordering.lt) = inr (inl refl)
    by_order (some Ordering.eq) = inr (inl refl)

-- A choice among candidates, or a panic over two that do not compare.
abbrev Compared : Floats → List Candidate → Selection → Type 0
Compared f cs s =
    ((c : Candidate) × (s ≡ selected c.0) × In c cs) ⊎ ((s ≡ panicked) × Incomparable f cs)

-- What holds among fewer candidates holds among more.
among :
    (f : Floats) (cs ds : List Candidate) (s : Selection)
    → ((c : Candidate) → In c cs → In c ds)
    → Compared f cs s
    → Compared f ds s
among f cs ds s more (inl (c, e, m)) = inl (c, e, more c m)
among f cs ds s more (inr (e, (a, b, m, n, q))) = inr (e, (a, b, more a m, more b n, q))

best_from-Compared :
    (f : Floats) (b : Candidate) (cs : List Candidate)
    → Compared f (b ∷ cs) (best_from f (some b) cs)
unfolding best_from
best_from-Compared f b [] = inl (b, refl, inl refl)
best_from-Compared f b (d ∷ cs) = elim (larger-cases f b d) [
  | inl e ↦
      rw (best_from, e)
        (among f (b ∷ cs) (b ∷ d ∷ cs) _ (λ c m. elim m [ inl p ↦ inl p | inr n ↦ inr (inr n) ])
          (best_from-Compared f b cs))
  | inr (inl e) ↦
      rw (best_from, e) (among f (d ∷ cs) (b ∷ d ∷ cs) _ (λ c m. inr m) (best_from-Compared f d cs))
  | inr (inr (e, q)) ↦ rw (best_from, e) (inr (refl, (b, d, inl refl, inr (inl refl), q)))
]

best-Compared :
    (f : Floats) (cs : List Candidate)
    → Compared f cs (best f cs) ⊎ ((best f cs ≡ unavailable) × (cs ≡ []))
unfolding best
best-Compared f [] = inr (refl, refl)
best-Compared f (c ∷ cs) = inl (best_from-Compared f c cs)

empty_of_length : (cs : List Candidate) → length cs ≡ 0 → cs ≡ []
empty_of_length [] e = refl
empty_of_length (c ∷ cs) e = absurd (omega arith)

-- Round robin takes the candidate at the counter's place, in turn, and counts on.
select_round_robin_turn :
    (exclude : List NodeId) (lb : CpuAwareLoadBalancer)
    → let (lb', s) = select_round_robin exclude lb in
      let cs = eligible exclude lb in
      ((c : Candidate) × (s ≡ selected c.0)
        × In c cs
        × (get_elem? cs (lb.round_robin_counter % length cs) ≡ some c)
        × (lb' ≡ record lb { round_robin_counter = (lb.round_robin_counter + 1) % u64_mod }))
      ⊎ ((s ≡ unavailable) × (cs ≡ []) × (lb' ≡ lb))
unfolding select_round_robin
select_round_robin_turn exclude lb =
    let cs = eligible exclude lb in
    elim (Bool-cases (nat_eqb (length cs) 0)) [
      | inl e ↦ inr (ground arith, empty_of_length cs ((nat_eqb_iff _ _).0 e), ground arith)
      | inr e ↦
          let (c, at, m) = In-get_elem? cs (lb.round_robin_counter % length cs) (grind arith) in
          inl (c, ground arith, m, at, ground arith)
    ]

-- What a selection may come to: a healthy node that the balancer knows and the caller did not
-- exclude; `unavailable`, where there is none; or a panic of the CPU-aware strategy, where the
-- scores of two such nodes do not compare.
abbrev pub Selects : Floats → List NodeId → CpuAwareLoadBalancer → Selection → Type 0
Selects f exclude lb s =
    ((c : Candidate) × (s ≡ selected c.0)
      × In c lb.nodes
      × (c.1.healthy ≡ true)
      × (any (λ x. x == c.0) exclude ≡ false))
    ⊎ (((s ≡ unavailable) × ((c : Candidate) → In c lb.nodes → is_eligible exclude c ≡ false))
        ⊎ ((s ≡ panicked)
            × (lb.config.strategy ≡ cpu_aware)
            × Incomparable f (eligible exclude lb)))

-- Every strategy picks only a healthy node that the balancer knows and the caller did not exclude,
-- and says `unavailable` only where there is none. None panics, except the CPU-aware one, and that
-- only where two such nodes have scores that do not compare, as a NaN does with none. The nodes are
-- left as they are.
pub select_node_eligible :
    (f : Floats) (exclude : List NodeId) (lb : CpuAwareLoadBalancer)
    → let (lb', s) = select_node f exclude lb in Selects f exclude lb s × (lb'.nodes ≡ lb.nodes)
unfolding select_node
select_node_eligible f exclude lb = by_strategy lb.config.strategy refl
  where
    read : (s : Selection) → Chosen (eligible exclude lb) s → Selects f exclude lb s
    read s (inl (c, e, m)) =
        let (known, fine) = (In-filterb (is_eligible exclude) lb.nodes c).0 m in
        inl (c, e, known, ground arith, ground arith)
    read s (inr (e, none_left)) = inr (
        inl (
          e,
          λ c m. elim (Bool-cases (is_eligible exclude c)) [
            | inl fine ↦
                absurd (
                  subst (In c) none_left
                    ((In-filterb (is_eligible exclude) lb.nodes c).1 (m, fine)))
            | inr bad ↦ bad
          ],
        ))

    by_strategy :
        (st : LoadBalanceStrategy)
        → lb.config.strategy ≡ st
        → Selects f exclude lb (select_by f st exclude lb).1
          × ((select_by f st exclude lb).0.nodes ≡ lb.nodes)
    by_strategy round_robin q = elim (select_round_robin_turn exclude lb) [
      | inl (c, e, m, _, k) ↦ (read _ (inl (c, e, m)), ground arith)
      | inr (e, p, k) ↦ (read _ (inr (e, p)), ground arith)
    ]
    by_strategy least_connections q = (read _ (least-Chosen (eligible exclude lb)), refl)
    by_strategy cpu_aware q = elim (best-Compared f (eligible exclude lb)) [
      | inl (inl (c, e, m)) ↦ (read _ (inl (c, e, m)), refl)
      | inl (inr (e, apart)) ↦ (inr (inr (e, q, apart)), refl)
      | inr (e, p) ↦ (read _ (inr (e, p)), refl)
    ]
