-- ===== src/Cluster/Discovery.antt =====
-- crates/ironfish-cluster/src/discovery/mod.rs: the peers that any source has found.
pub mod Sources
pub mod Multicast
pub mod Known
pub mod Announcements
use ironfish.Base.{
  ℕ, Bool, true, false, not, Option, none, some, List, [], ◌∷◌, ◌++◌, Text, text_eq, any, filterb,
  is_empty, ◌==◌, if◌then◌else◌,
}
use ironfish.Core.Error.{Result, ok, err}
use ironfish.Core.Cluster.{NodeId, NodeInfo}
use ironfish.Cluster.Discovery.Sources.{
  Resolver, discover_static, Connection, discover_seeds, DnsDiscovery, discover_dns,
}
use ironfish.Cluster.Discovery.Multicast
use ironfish.Cluster.Discovery.Multicast.{MulticastDiscovery, Json, Received}

pub record DiscoveryManager : Type 0 where
  pub static_discovery : Option (List Text)
  pub seed_discovery : Option (List Text)
  pub multicast_discovery : Option MulticastDiscovery
  pub dns_discovery : Option DnsDiscovery
  pub known_peers : List NodeInfo

unfoldable pub new : DiscoveryManager
new = record {
  static_discovery = none;
  seed_discovery = none;
  multicast_discovery = none;
  dns_discovery = none;
  known_peers = [];
}

abbrev or_keep : List Text → Option (List Text) → Option (List Text)
or_keep [] old = old
or_keep (x ∷ xs) old = some (x ∷ xs)

unfoldable pub with_static : List Text → DiscoveryManager → DiscoveryManager
with_static peers d = record d { static_discovery = or_keep peers d.static_discovery }

unfoldable pub with_seeds : List Text → DiscoveryManager → DiscoveryManager
with_seeds seeds d = record d { seed_discovery = or_keep seeds d.seed_discovery }

abbrev attach : Result MulticastDiscovery → DiscoveryManager → Result DiscoveryManager
attach (ok m) d = ok (record d { multicast_discovery = some m })
attach (err e) d = err e

unfoldable pub with_multicast :
    (Text → Bool) → Text → ℕ → DiscoveryManager → Result DiscoveryManager
with_multicast parses group port d = attach (Multicast.new parses group port) d

unfoldable pub with_dns : Text → ℕ → DiscoveryManager → DiscoveryManager
with_dns hostname port d =
    if is_empty hostname
    then d
    else record d { dns_discovery = some (record { hostname = hostname; port = port }) }

-- The world as a call meets it.
pub record World : Type 0 where
  pub resolver : Resolver
  pub connect : Text → Connection
  pub json : Json
  pub socket : Text → Option Text
  pub send_failure : Option Text
  pub received : List Received

abbrev pub multicast_call :
    (MulticastDiscovery → Result (Unit {0}) × MulticastDiscovery)
    → Option MulticastDiscovery
    → DiscoveryManager
    → Result (Unit {0}) × DiscoveryManager
multicast_call f none d = (ok tt, d)
multicast_call f (some m) d = let (r, m') = f m in (r, record d { multicast_discovery = some m' })

unfoldable pub announce : World → NodeInfo → DiscoveryManager → Result (Unit {0}) × DiscoveryManager
announce w node d =
    multicast_call (Multicast.announce w.json w.socket w.send_failure node) d.multicast_discovery d

-- `start` is an announcement.
unfoldable pub start : World → NodeInfo → DiscoveryManager → Result (Unit {0}) × DiscoveryManager
unfolding announce
start w local_node d = announce w local_node d

unfoldable pub stop : World → NodeId → DiscoveryManager → Result (Unit {0}) × DiscoveryManager
stop w id d =
    multicast_call (Multicast.withdraw w.json w.socket w.send_failure id) d.multicast_discovery d

unfoldable pub withdraw : World → NodeId → DiscoveryManager → Result (Unit {0}) × DiscoveryManager
unfolding stop
withdraw w id d =
    stop w id (record d { known_peers = filterb (λ p. not (p.id == id)) d.known_peers })

abbrev peers_or_none : Result (List NodeInfo) → List NodeInfo
peers_or_none (ok peers) = peers
peers_or_none (err e) = []

static_peers : World → Option (List Text) → List NodeInfo
static_peers w none = []
static_peers w (some peers) = discover_static w.resolver peers

seed_peers : World → Option (List Text) → List NodeInfo
seed_peers w none = []
seed_peers w (some seeds) = discover_seeds w.connect seeds

multicast_peers : World → Option MulticastDiscovery → List NodeInfo × Option MulticastDiscovery
multicast_peers w none = ([], none)
multicast_peers w (some m) =
    let (r, m') = Multicast.discover w.json w.socket w.received m in (peers_or_none r, some m')

dns_peers : World → Option DnsDiscovery → List NodeInfo
dns_peers w none = []
dns_peers w (some d) = discover_dns w.resolver d

-- What the sources find, in the order in which they are asked; a source that fails finds nothing.
unfoldable pub found : World → DiscoveryManager → List NodeInfo
unfolding static_peers seed_peers multicast_peers dns_peers
found w d =
    static_peers w d.static_discovery
    ++ (seed_peers w d.seed_discovery
        ++ ((multicast_peers w d.multicast_discovery).0 ++ dns_peers w d.dns_discovery))

abbrev pub is_known : NodeId → List NodeInfo → Bool
is_known id known = any (λ p. p.id == id) known

unfoldable pub add_new : List NodeInfo → List NodeInfo → List NodeInfo
add_new [] known = known
add_new (peer ∷ peers) known =
    add_new peers (if is_known peer.id known then known else known ++ peer ∷ [])

unfoldable pub discover : World → DiscoveryManager → List NodeInfo × DiscoveryManager
unfolding found multicast_peers add_new
discover w d =
    let known = add_new (found w d) d.known_peers in
    (
      known,
      record d {
        multicast_discovery = (multicast_peers w d.multicast_discovery).1;
        known_peers = known;
      },
    )
