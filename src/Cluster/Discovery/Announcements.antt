-- ===== src/Cluster/Discovery/Announcements.antt =====
-- From a node that announces or withdraws itself over UDP to a node that listens.
use ironfish.Base.{
  ℕ, zero, suc, ◌≤◌, ◌<◌, Option, none, some, List, [], ◌∷◌, ◌++◌, Text, length, ◌≡◌, refl, ap,
  arith, ◌∙◌, sym,
}
use ironfish.Core.Error.{ok}
use ironfish.Core.Cluster.{NodeId, NodeInfo}
use ironfish.Cluster.Discovery.Multicast.{
  Bytes, announce_tag, withdraw_tag, Json, MulticastDiscovery, ensure_socket, send_message,
  announce, withdraw, Received, datagram, buffer_size, take, announced, receive_loop, send_encoded,
}

take_all : (n : ℕ) (bytes : Bytes) → length bytes ≤ n → take n bytes ≡ bytes
take_all zero [] h = refl
take_all zero (b ∷ bytes) h = absurd (omega arith)
take_all (suc n) [] h = refl
take_all (suc n) (b ∷ bytes) h = ap (λ bs. b ∷ bs) (take_all n bytes (omega arith))

send_message-sent :
    (outcome : Text → Option Text) (failure : Option Text) (tag : ℕ) (data_ : Bytes)
    (d : MulticastDiscovery)
    → (send_message outcome failure tag data_ d).0 ≡ ok tt
    → (send_message outcome failure tag data_ d).1.sent ≡ d.sent ++ (tag ∷ data_) ∷ []
unfolding send_message ensure_socket
send_message-sent outcome failure tag data_ d e = ground (arith, e)

module _ (json : Json) where
  announced_whole :
      (node : NodeInfo) (data_ : Bytes)
      → json.node_from_slice data_ ≡ some node
      → 0 < length data_
      → length data_ < buffer_size
      → announced json (take buffer_size (announce_tag ∷ data_)) ≡ some node
  unfolding announced
  announced_whole node data_ f long short =
      ap (announced json) (take_all buffer_size (announce_tag ∷ data_) (omega arith))
      ∙ ground (arith, f)

  withdrawn_ignored :
      (data_ : Bytes) → announced json (take buffer_size (withdraw_tag ∷ data_)) ≡ none
  unfolding announced
  withdrawn_ignored data_ = ground arith

  -- When an announcement is sent, and its encoding is not empty, fits in the 1023 bytes behind the
  -- tag and decodes to the node, then what went to the group is one packet by which a listener finds
  -- the node, ahead of what it finds in the rest.
  pub announce-receive_loop :
      (outcome : Text → Option Text) (failure : Option Text) (node : NodeInfo) (data_ : Bytes)
      (rest : List Received) (d : MulticastDiscovery)
      → json.node_to_vec node ≡ ok data_
      → json.node_from_slice data_ ≡ some node
      → 0 < length data_
      → length data_ < buffer_size
      → (announce json outcome failure node d).0 ≡ ok tt
      → (packet : Bytes) × ((announce json outcome failure node d).1.sent ≡ d.sent ++ packet ∷ [])
        × (receive_loop json (datagram packet ∷ rest) ≡ node ∷ receive_loop json rest)
  unfolding announce receive_loop
  announce-receive_loop outcome failure node data_ rest d to from long short e = (
    announce_tag ∷ data_,
    rw to (
        send_message-sent outcome failure announce_tag data_ d
          (ap (λ r. (send_encoded outcome failure announce_tag r d).0) (sym to) ∙ e)),
    rw (announced_whole node data_ from long short) refl,
  )

  -- When a withdrawal is sent, what went to the group is one packet that a listener drops: it finds
  -- what it would have found without it.
  pub withdraw-receive_loop :
      (outcome : Text → Option Text) (failure : Option Text) (id : NodeId) (data_ : Bytes)
      (rest : List Received) (d : MulticastDiscovery)
      → json.id_to_vec id ≡ ok data_
      → (withdraw json outcome failure id d).0 ≡ ok tt
      → (packet : Bytes) × ((withdraw json outcome failure id d).1.sent ≡ d.sent ++ packet ∷ [])
        × (receive_loop json (datagram packet ∷ rest) ≡ receive_loop json rest)
  unfolding withdraw receive_loop
  withdraw-receive_loop outcome failure id data_ rest d to e = (
    withdraw_tag ∷ data_,
    rw to (
        send_message-sent outcome failure withdraw_tag data_ d
          (ap (λ r. (send_encoded outcome failure withdraw_tag r d).0) (sym to) ∙ e)),
    rw (withdrawn_ignored data_) refl,
  )
