-- ===== src/Cluster/Service/Discovery.antt =====
-- What a round of discovery leaves in the network's peers and in the membership.
use ironfish.Base.{
  Bool, true, some, List, [], ◌∷◌, text_eq, text_eqb_iff, get, get-insert, All, ◌≡◌, refl, inl, inr,
  arith, ◌∙◌, Option-cases,
}
use ironfish.Core.Cluster.{NodeId, DateTime, NodeInfo}
use ironfish.Cluster.Membership.{MembershipManager, is_member, add_member, get_member}
use ironfish.Cluster.Network.{NetworkService}
use ironfish.Cluster.Service.{discovery_round, admit_peer}

-- A membership that has no fewer members, with what it knew of each.
record Extends (m m' : MembershipManager) : Type 0 where
  same_node : m'.local_node ≡ m.local_node
  keeps : (k : NodeId) (info : NodeInfo) → get_member k m ≡ some info → get_member k m' ≡ some info

admit_peer-Extends :
    (auto_join : Bool) (now : DateTime) (p : NodeInfo) (n : NetworkService) (m : MembershipManager)
    → Extends m (admit_peer auto_join now p (n, m)).1
unfolding admit_peer add_member get_member is_member
admit_peer-Extends auto_join now p n m = record {
  same_node = ground arith;
  keeps = λ k info e. ground (arith, get-insert p.id k p m.members, text_eqb_iff p.id k);
}

admit_peer-member :
    (now : DateTime) (p : NodeInfo) (n : NetworkService) (m : MembershipManager)
    → is_member p.id (admit_peer true now p (n, m)).1 ≡ true
unfolding admit_peer add_member is_member
admit_peer-member now p n m =
    ground (arith, get-insert p.id p.id p m.members, text_eqb_iff p.id p.id)

is_member-Extends :
    (m m' : MembershipManager) (k : NodeId)
    → Extends m m'
    → is_member k m ≡ true
    → is_member k m' ≡ true
unfolding is_member get_member
is_member-Extends m m' k x h = elim (Option-cases (get k m.members)) [
  | inl p ↦ ground (arith, x.same_node)
  | inr (info, p) ↦ ground (arith, x.keeps k info p)
]

Extends-trans : (a b c : MembershipManager) → Extends a b → Extends b c → Extends a c
Extends-trans a b c x y = record {
  same_node = y.same_node ∙ x.same_node;
  keeps = λ k info e. y.keeps k info (x.keeps k info e);
}

discovery_round-Extends :
    (auto_join : Bool) (now : DateTime) (ps : List NodeInfo) (n : NetworkService)
    (m : MembershipManager)
    → Extends m (discovery_round auto_join now ps (n, m)).1
unfolding discovery_round
discovery_round-Extends auto_join now [] n m = record { same_node = refl; keeps = λ k info e. e }
discovery_round-Extends auto_join now (p ∷ ps) n m =
    let st = admit_peer auto_join now p (n, m) in
    Extends-trans m st.1 _ (admit_peer-Extends auto_join now p n m)
      (discovery_round-Extends auto_join now ps st.0 st.1)

members_after :
    (now : DateTime) (ps : List NodeInfo) (n : NetworkService) (m : MembershipManager)
    → All (λ p. is_member p.id (discovery_round true now ps (n, m)).1 ≡ true) ps
unfolding discovery_round
members_after now [] n m = tt
members_after now (p ∷ ps) n m =
    let st = admit_peer true now p (n, m) in
    (
      is_member-Extends st.1 _ p.id (discovery_round-Extends true now ps st.0 st.1)
          (admit_peer-member now p n m),
      members_after now ps st.0 st.1,
    )

-- After a round of discovery with automatic joining, every peer that was found is a member, and
-- what the membership had recorded of a node before is still there, unreplaced.
discovery_round_joins :
    (now : DateTime) (ps : List NodeInfo) (n : NetworkService) (m : MembershipManager)
    → let m' = (discovery_round true now ps (n, m)).1 in
      All (λ p. is_member p.id m' ≡ true) ps
      × ((k : NodeId) (info : NodeInfo) → get_member k m ≡ some info → get_member k m' ≡ some info)
discovery_round_joins now ps n m =
    (members_after now ps n m, (discovery_round-Extends true now ps n m).keeps)
