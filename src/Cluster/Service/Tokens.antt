-- ===== src/Cluster/Service/Tokens.antt =====
-- What gossip does to the tokens of a node, while its database works.
use ironfish.Base.{
  Option, none, some, text_eq, nat_eq, nat_eqb_iff, ltb, ◌==◌, if◌then◌else◌, ◌≡◌, ◌∙◌, arith, refl,
  text_eqb_iff, ◌≢◌,
}
use ironfish.Core.Error.{ok}
use ironfish.Core.Cluster.{DateTime, NodeId}
use ironfish.Core.Token.{Uuid, ApiToken}
use ironfish.Core.Gossip.{token_created, token_revoked}
use ironfish.Cluster.Service.{process_gossip_message, created, receive}
use ironfish.Auth.Store.{Codec, Store, get, revoke, create}
use ironfish.Auth.Store.Laws.{Works, IsIndexed, get-create, get-update}
use ironfish.Auth.Store.Revocation.{revoked_at, revoke_lem}
use ironfish.Cluster.Network.{NetworkService, GossipEnvelope}

module _ (codec : Codec) where
  -- What a node holds under an identifier after it has heard of a token.
  abbrev pub newer : ApiToken → Option ApiToken → ApiToken
  newer t none = t
  newer t (some old) = if ltb old.created_at t.created_at then t else old

  get-pure : (id : Uuid) (s : Store codec) → Works codec s → (get codec id s).1 ≡ s
  unfolding get
  get-pure id s w = ground (arith, w)

  pub receive-other :
      (now : DateTime) (n : NetworkService) (local_id : NodeId) (e : GossipEnvelope)
      (s : Store codec)
      → e.origin ≢ local_id
      → (receive codec now n local_id e s).0 ≡ (process_gossip_message codec now e.message s).1
  unfolding receive
  receive-other now n local_id e s other = ground (arith, other, text_eqb_iff e.origin local_id)

  -- A token that a node does not have is created as it is.
  pub process-new :
      (now : DateTime) (t : ApiToken) (s : Store codec)
      → Works codec s
      → (get codec t.id s).0 ≡ ok none
      → process_gossip_message codec now (token_created t) s ≡ create codec t s
  unfolding process_gossip_message
  process-new now t s w g = rw (get-pure t.id s w, g, created) refl

  -- Hearing of a created token succeeds: under its identifier the node then holds the one that
  -- was created later, its own in case of a tie, and the other identifiers are as before.
  process-token_created :
      (now : DateTime) (t : ApiToken) (s : Store codec) (o : Option ApiToken)
      → Works codec s
      → (get codec t.id s).0 ≡ ok o
      → let (r, s') = process_gossip_message codec now (token_created t) s in
        (r ≡ ok tt)
        × Works codec s'
        × ((id : Uuid)
            → (get codec id s').0
              ≡ (if t.id == id then ok (some (newer t o)) else (get codec id s).0))
  unfolding process_gossip_message
  process-token_created now t s none w g =
      let (r, w', h, others) = get-create codec t s w in
      rw (get-pure t.id s w, g, created) (r, w', others)
  process-token_created now t s (some old) w g =
      let (r, w', h, others) = get-update codec t s w in
      rw (get-pure t.id s w, g, created)
        (
          ground (arith, r),
          ground (arith, w', w),
          λ id. ground (arith, others id, g, nat_eqb_iff t.id id),
        )

  -- Hearing that a stored token was revoked marks it revoked and leaves the others alone.
  process-token_revoked :
      (now : DateTime) (id : Uuid) (t : ApiToken) (s : Store codec)
      → Works codec s
      → IsIndexed codec s
      → (get codec id s).0 ≡ ok (some t)
      → let s' = (process_gossip_message codec now (token_revoked id) s).1 in
        Works codec s'
        × ((j : Uuid)
            → (get codec j s').0
              ≡ (if id == j then ok (some (revoked_at codec now t)) else (get codec j s).0))
  unfolding process_gossip_message
  process-token_revoked now id t s w v g =
      let (_, w', _, _, others) = revoke_lem codec now id t s w v g in (w', others)

  revoke_absent :
      (now : DateTime) (id : Uuid) (s : Store codec)
      → Works codec s
      → (get codec id s).0 ≡ ok none
      → (process_gossip_message codec now (token_revoked id) s).1 ≡ s
  unfolding process_gossip_message revoke get
  revoke_absent now id s w g = ground (arith, w, g)

  -- A revocation survives: when a node hears again of the same token as it was created, the token
  -- that it holds stays revoked.
  revoked_stays :
      (now later : DateTime) (t : ApiToken) (s : Store codec)
      → Works codec s
      → IsIndexed codec s
      → (get codec t.id s).0 ≡ ok (some t)
      → let s₁ = (process_gossip_message codec now (token_revoked t.id) s).1 in
        let s₂ = (process_gossip_message codec later (token_created t) s₁).1 in
        (get codec t.id s₂).0 ≡ ok (some (revoked_at codec now t))
  revoked_stays now later t s w v g =
      let (w₁, held) = process-token_revoked now t.id t s w v g in
      let s₁ = (process_gossip_message codec now (token_revoked t.id) s).1 in
      let g₁ : (get codec t.id s₁).0 ≡ ok (some (revoked_at codec now t)) =
        held t.id ∙ ground (arith, nat_eqb_iff t.id t.id) in
      let (_, _, after) = process-token_created later t s₁ (some (revoked_at codec now t)) w₁ g₁ in
      after t.id ∙ ground (arith, nat_eqb_iff t.id t.id)

  -- A revocation that overtakes the token's creation is lost: a node that hears of the revocation
  -- first and of the token after holds the token as it was created.
  pub revocation_overtakes :
      (now later : DateTime) (t : ApiToken) (s : Store codec)
      → Works codec s
      → (get codec t.id s).0 ≡ ok none
      → let s₁ = (process_gossip_message codec now (token_revoked t.id) s).1 in
        let s₂ = (process_gossip_message codec later (token_created t) s₁).1 in
        (s₁ ≡ s) × ((get codec t.id s₂).0 ≡ ok (some t))
  revocation_overtakes now later t s w g =
      let same = revoke_absent now t.id s w g in
      let (_, _, after) = process-token_created later t s none w g in
      (same, rw same (after t.id ∙ ground (arith, nat_eqb_iff t.id t.id)))
