-- ===== src/Cluster/Discovery/Sources.antt =====
-- crates/ironfish-cluster/src/discovery/static_conf.rs, seed.rs and dns.rs: peers by address. The
-- resolver, the clock and the ends of connections are given.
use ironfish.Base.{ℕ, Option, none, some, List, [], ◌∷◌, ◌++◌, Text, text, nat_eqb, split}
use ironfish.Core.Error.{Result, ok, err, discovery}
use ironfish.Core.Cluster.{DateTime, SocketAddr, NodeInfo}

-- The record that a peer known only by its address gets.
abbrev pub unknown_node : Text → SocketAddr → DateTime → NodeInfo
unknown_node name address now = record {
  id = name;
  address = address;
  priority = 100;
  started_at = now;
  version = text "unknown";
}

abbrev first_part : Text → List Text → Text
first_part peer [] = peer
first_part peer (part ∷ _) = part

-- `addrs` is what `to_socket_addrs` gives, and `parsed` what `parse` gives.
unfoldable pub resolve_peer :
    Text → Option SocketAddr → Result (List SocketAddr) → Option (Text × SocketAddr)
resolve_peer peer (some addr) addrs = some (peer, addr)
resolve_peer peer none (ok (addr ∷ _)) = some (first_part peer (split (nat_eqb b':') peer), addr)
resolve_peer peer none (ok []) = none
resolve_peer peer none (err e) = none

-- What the system answers about names, and the clock when a name has been asked for.
pub record Resolver : Type 0 where
  pub parse : Text → Option SocketAddr
  pub lookup : Text → Result (List SocketAddr)
  pub show : SocketAddr → Text
  pub show_port : ℕ → Text
  pub now : Text → DateTime

abbrev resolved : DateTime → Option (Text × SocketAddr) → List NodeInfo → List NodeInfo
resolved now none nodes = nodes
resolved now (some (name, addr)) nodes = unknown_node name addr now ∷ nodes

-- `StaticDiscovery::discover` on the peers that it was made with.
unfoldable pub discover_static : Resolver → List Text → List NodeInfo
unfolding resolve_peer
discover_static r [] = []
discover_static r (peer ∷ peers) =
    resolved (r.now peer) (resolve_peer peer (r.parse peer) (r.lookup peer))
      (discover_static r peers)

-- How a connection to a seed ends.
pub data Connection : Type 0 where
  timed_out connected : Connection
  failed : Text → Connection

unfoldable pub query_seed : Text → Connection → Result (List NodeInfo)
query_seed seed timed_out = err (discovery (text "connection timeout to " ++ seed))
query_seed seed (failed e) =
    err (discovery (text "connection failed to " ++ (seed ++ (text ": " ++ e))))
query_seed seed connected = ok []

abbrev extended : Result (List NodeInfo) → List NodeInfo → List NodeInfo
extended (ok nodes) rest = nodes ++ rest
extended (err e) rest = rest

unfoldable pub discover_seeds : (Text → Connection) → List Text → List NodeInfo
unfolding query_seed
discover_seeds connect [] = []
discover_seeds connect (seed ∷ seeds) =
    extended (query_seed seed (connect seed)) (discover_seeds connect seeds)

pub record DnsDiscovery : Type 0 where
  pub hostname : Text
  pub port : ℕ

dns_nodes : Resolver → List SocketAddr → List NodeInfo
dns_nodes r [] = []
dns_nodes r (addr ∷ addrs) =
    unknown_node (r.show addr) addr (r.now (r.show addr)) ∷ dns_nodes r addrs

looked_up : Resolver → Result (List SocketAddr) → List NodeInfo
unfolding dns_nodes
looked_up r (ok addrs) = dns_nodes r addrs
looked_up r (err e) = []

unfoldable pub discover_dns : Resolver → DnsDiscovery → List NodeInfo
unfolding looked_up
discover_dns r d = looked_up r (r.lookup (d.hostname ++ (text ":" ++ r.show_port d.port)))
