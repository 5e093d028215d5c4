-- ===== src/Cluster/Discovery/Multicast.antt =====
-- crates/ironfish-cluster/src/discovery/multicast.rs: announcements over UDP. The socket's calls
-- and JSON are not of this repository: how the steps of opening a socket end, what is received and
-- how a node is encoded are given.
use ironfish.Base.{
  ℕ, zero, suc, Bool, true, false, ◌&&◌, Option, none, some, List, [], ◌∷◌, ◌++◌, Text, text, ltb,
  nat_eqb, if◌then◌else◌, length,
}
use ironfish.Core.Error.{Result, ok, err, discovery}
use ironfish.Core.Cluster.{NodeId, NodeInfo}

abbrev pub Bytes : Type 0
Bytes = List ℕ

abbrev pub announce_tag : ℕ
announce_tag = 1

abbrev pub withdraw_tag : ℕ
withdraw_tag = 2

-- `serde_json` on what is sent.
pub record Json : Type 0 where
  pub node_to_vec : NodeInfo → Result Bytes
  pub id_to_vec : NodeId → Result Bytes
  pub node_from_slice : Bytes → Option NodeInfo

-- `sent` is what went to the group, the newest last.
pub record MulticastDiscovery : Type 0 where
  pub group : Text
  pub port : ℕ
  pub has_socket : Bool
  pub sent : List Bytes

-- `parses` tells whether the text is an IPv4 address.
unfoldable pub new : (Text → Bool) → Text → ℕ → Result MulticastDiscovery
new parses group port =
    if parses group
    then ok (record { group = group; port = port; has_socket = false; sent = [] })
    else err (discovery (text "invalid multicast group"))

-- The calls that open a socket, in their order, each with the name that its error gets.
abbrev pub steps : List Text
steps =
    text "socket creation"
    ∷ text "set_reuse_address"
    ∷ text "set_reuse_port"
    ∷ text "set_multicast_loop"
    ∷ text "bind"
    ∷ text "join_multicast"
    ∷ text "set_nonblocking"
    ∷ text "tokio socket conversion"
    ∷ []

-- `outcome` gives the error of a call by its name.
open_socket : (Text → Option Text) → List Text → Result (Unit {0})
open_socket outcome [] = ok tt
open_socket outcome (name ∷ names) =
    let rest = open_socket outcome names in
    elim (outcome name) [ none ↦ rest | some e ↦ err (discovery (name ++ (text " failed: " ++ e))) ]

abbrev opened : Result (Unit {0}) → MulticastDiscovery → Result (Unit {0}) × MulticastDiscovery
opened (ok _) d = (ok tt, record d { has_socket = true })
opened (err e) d = (err e, d)

unfoldable pub ensure_socket :
    (Text → Option Text) → MulticastDiscovery → Result (Unit {0}) × MulticastDiscovery
unfolding open_socket
ensure_socket outcome d = if d.has_socket then (ok tt, d) else opened (open_socket outcome steps) d

abbrev delivered : Option Text → Bytes → MulticastDiscovery → Result (Unit {0}) × MulticastDiscovery
delivered none packet d = (ok tt, record d { sent = d.sent ++ packet ∷ [] })
delivered (some e) packet d = (err (discovery (text "send failed: " ++ e)), d)

abbrev ensured :
    Option Text
    → Bytes
    → Result (Unit {0}) × MulticastDiscovery
    → Result (Unit {0}) × MulticastDiscovery
ensured failure packet (ok _, d) = delivered failure packet d
ensured failure packet (err e, d) = (err e, d)

-- `failure` is the error of `send_to`.
unfoldable pub send_message :
    (Text → Option Text)
    → Option Text
    → ℕ
    → Bytes
    → MulticastDiscovery
    → Result (Unit {0}) × MulticastDiscovery
unfolding ensure_socket
send_message outcome failure tag data_ d = ensured failure (tag ∷ data_) (ensure_socket outcome d)

abbrev pub send_encoded :
    (Text → Option Text)
    → Option Text
    → ℕ
    → Result Bytes
    → MulticastDiscovery
    → Result (Unit {0}) × MulticastDiscovery
send_encoded outcome failure tag (ok data_) d = send_message outcome failure tag data_ d
send_encoded outcome failure tag (err e) d = (err e, d)

unfoldable pub announce :
    Json
    → (Text → Option Text)
    → Option Text
    → NodeInfo
    → MulticastDiscovery
    → Result (Unit {0}) × MulticastDiscovery
unfolding send_message
announce json outcome failure node d =
    send_encoded outcome failure announce_tag (json.node_to_vec node) d

unfoldable pub withdraw :
    Json
    → (Text → Option Text)
    → Option Text
    → NodeId
    → MulticastDiscovery
    → Result (Unit {0}) × MulticastDiscovery
unfolding send_message
withdraw json outcome failure id d = send_encoded outcome failure withdraw_tag (json.id_to_vec id) d

-- A datagram, or an error of `recv_from`. The end of the list is the timeout.
pub data Received : Type 0 where
  datagram : Bytes → Received
  recv_error : Text → Received

-- The buffer has 1024 bytes, and what a datagram has beyond them is lost.
abbrev pub buffer_size : ℕ
buffer_size = 1024

abbrev pub take {ℓ} : {A : Type ℓ} → ℕ → List A → List A
take zero xs = []
take (suc n) [] = []
take (suc n) (x ∷ xs) = x ∷ take n xs

unfoldable pub announced : Json → Bytes → Option NodeInfo
announced json [] = none
announced json (tag ∷ data_) =
    if ltb 0 (length data_) && nat_eqb tag announce_tag then json.node_from_slice data_ else none

abbrev pushed : Option NodeInfo → List NodeInfo → List NodeInfo
pushed none nodes = nodes
pushed (some node) nodes = node ∷ nodes

unfoldable pub receive_loop : Json → List Received → List NodeInfo
unfolding announced
receive_loop json [] = []
receive_loop json (recv_error e ∷ rest) = []
receive_loop json (datagram bytes ∷ rest) =
    pushed (announced json (take buffer_size bytes)) (receive_loop json rest)

listened :
    Json
    → List Received
    → Result (Unit {0}) × MulticastDiscovery
    → Result (List NodeInfo) × MulticastDiscovery
unfolding receive_loop
listened json received (ok _, d) = (ok (receive_loop json received), d)
listened json received (err e, d) = (err e, d)

unfoldable pub discover :
    Json
    → (Text → Option Text)
    → List Received
    → MulticastDiscovery
    → Result (List NodeInfo) × MulticastDiscovery
unfolding ensure_socket listened
discover json outcome received d = listened json received (ensure_socket outcome d)
