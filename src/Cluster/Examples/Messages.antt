-- ===== src/Cluster/Examples/Messages.antt =====
-- Gossip and its floods at work.
use ironfish.Base.{
  ℕ, ◌≤◌, List, [], ◌∷◌, Text, text, text_eq, nat_eq, get, ◌≡◌, refl, arith, ◌↔◌, In,
}
use ironfish.Core.Token.{Uuid}
use ironfish.Core.Gossip.{node_joined, node_left}
use ironfish.Cluster.Gossip.{GossipEntry, GossipService, keeps_place, entry_key, apply_all}
use ironfish.Cluster.Gossip
use ironfish.Cluster.Gossip.Convergence.{gossip_converges}
use ironfish.Cluster.Network.{GossipEnvelope}
use ironfish.Cluster.Service.{forward}
use ironfish.Cluster.Service.Relay.{Relayed, sent, relay, flood_ends}
use ironfish.Cluster.Examples.{info}

abbrev show : Uuid → Text
show n = n ∷ []

abbrev join_of : Text → ℕ → GossipEntry
join_of origin version = record {
  message = node_joined (info (text "x") 1);
  timestamp = 0;
  origin = origin;
  version = version;
}

abbrev older : GossipEntry
older = join_of (text "a") 3

abbrev newer : GossipEntry
newer = join_of (text "c") 8

abbrev first : List GossipEntry
first = older ∷ newer ∷ []

abbrev other : List GossipEntry
other = newer ∷ older ∷ newer ∷ []

same_entries : (x : GossipEntry) → In x first ↔ In x other
same_entries x = ground arith

distinct_entries :
    (x y : GossipEntry)
    → In x first
    → In y first
    → entry_key show x.message ≡ entry_key show y.message
    → x.version ≡ y.version
    → x.origin ≡ y.origin
    → x ≡ y
distinct_entries x y p q k v o = ground (arith, p, q, v)

gossip_converges_example :
    get (text "node:x") (apply_all show first (Gossip.new (text "b"))).entries
    ≡ get (text "node:x") (apply_all show other (Gossip.new (text "d"))).entries
gossip_converges_example =
    gossip_converges show (text "b") (text "d") first other same_entries distinct_entries
      (text "node:x")

abbrev envelope : GossipEnvelope
envelope = record { message = node_left (text "x"); origin = text "a"; version = 1; hops = 0 }

abbrev hopped : GossipEnvelope
hopped = record envelope { hops = 1 }

one_hop : Relayed envelope 1 hopped
unfolding forward
one_hop = relay (text "b") sent refl

flood_ends_example :
    (1 ≤ 3)
    × (hopped.message ≡ envelope.message)
    × (hopped.origin ≡ envelope.origin)
    × (hopped.version ≡ envelope.version)
flood_ends_example = flood_ends envelope 1 hopped refl one_hop
