-- ===== src/Server/App/Gossip.antt =====
-- crates/ironfish-server/src/app.rs: the task that `run` spawns, which takes the messages of the
-- tokens' channel and hands them to the network.
use ironfish.Base.{List, [], ◌∷◌, ◌++◌, ◌≡◌, refl}
use ironfish.Core.Cluster.{DateTime}
use ironfish.Core.Gossip.{GossipMessage}
use ironfish.Cluster.Node.{Node, id}
use ironfish.Cluster.Gossip.{millis}
use ironfish.Cluster.Network.{GossipEnvelope, NetworkService, Sending, broadcast}

unfoldable pub envelope : Node → DateTime → GossipMessage → GossipEnvelope
envelope node now message = record {
  message = message;
  origin = id node;
  version = millis now;
  hops = 0;
}

-- What a receive of the channel brings: a message with the clock's reading, the error that messages
-- were overwritten before they were received, or the error that the channel is closed.
pub data Received : Type 0 where
  message : DateTime → GossipMessage → Received
  lagged closed : Received

-- The loop ends at the first error.
unfoldable pub forward_loop : Node → NetworkService → List Received → List Sending
unfolding envelope
forward_loop node n [] = []
forward_loop node n (message now m ∷ rest) =
    broadcast (envelope node now m) n ++ forward_loop node n rest
forward_loop node n (lagged ∷ rest) = []
forward_loop node n (closed ∷ rest) = []

abbrev messages : List (DateTime × GossipMessage) → List Received
messages [] = []
messages ((now, m) ∷ ms) = message now m ∷ messages ms

abbrev sendings : Node → NetworkService → List (DateTime × GossipMessage) → List Sending
sendings node n [] = []
sendings node n ((now, m) ∷ ms) = broadcast (envelope node now m) n ++ sendings node n ms

-- The messages that the channel delivers are broadcast in their order, one by one, until it
-- reports that some were overwritten: none after that is, though the channel would deliver them.
forward_loop-lagged :
    (node : Node) (n : NetworkService) (before : List (DateTime × GossipMessage))
    (after : List Received)
    → (forward_loop node n (messages before) ≡ sendings node n before)
      × (forward_loop node n (messages before ++ lagged ∷ after) ≡ sendings node n before)
unfolding forward_loop
forward_loop-lagged node n [] after = (refl, refl)
forward_loop-lagged node n ((now, m) ∷ ms) after =
    let (p, q) = forward_loop-lagged node n ms after in (rw p refl, rw q refl)
