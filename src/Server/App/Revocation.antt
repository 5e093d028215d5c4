-- ===== src/Server/App/Revocation.antt =====
-- A token that the REST API of one node revokes, at another node.
use ironfish.Base.{
  true, false, Option, some, List, [], ◌∷◌, ◌++◌, Text, text, text_eq, nat_eq, ◌≡◌, ◌≢◌, refl, sym,
  ap, ◌∙◌, arith, strip_prefix, strip_prefix_iff,
}
use ironfish.Core.Error.{Result, ok, err}
use ironfish.Core.Cluster.{DateTime, NodeId}
use ironfish.Core.Token.{Uuid, ApiToken, is_valid}
use ironfish.Core.Gossip.{GossipMessage, token_revoked}
use ironfish.Cluster.Node.{id}
use ironfish.Cluster.Network.{NetworkService}
use ironfish.Cluster.Service.{receive, process_gossip_message}
use ironfish.Auth.Token.{Crypto, token_prefix, hash_token}
use ironfish.Auth.Store
use ironfish.Auth.Store.{Codec, Store, get, get_by_hash}
use ironfish.Auth.Store.Laws.{Works, IsIndexed}
use ironfish.Auth.Middleware.{
  Request, is_admin_path, unauthorized, AuthLayer, call, is_public_path, look_up, found, by_token,
}
use ironfish.Api.State.{ApiState, node, broadcast_token_revoked}
use ironfish.Api.Rest.{replied}
use ironfish.Api.Rest.Tokens.{revoke_token, revoked}
use ironfish.Server.App.Gossip.{envelope}
use ironfish.Cluster.Service.Tokens.{receive-other}
use ironfish.Auth.Middleware.Access.{by_token-eq}
use ironfish.Auth.Store.Revocation.{revoke_lem, revoked_at}

module _ (codec : Codec) (c : Crypto) where
  revoked-sent :
      (uuid : Uuid) (r : Result (Unit {0})) (st : ApiState codec c)
      → (revoked codec c uuid r st).0 ≡ replied tt
      → (revoked codec c uuid r st).1 ≡ broadcast_token_revoked codec c uuid st
  unfolding revoked
  revoked-sent uuid (ok u) st e = refl
  revoked-sent uuid (err x) st e = ground (arith, e)

  revoke_token-revoked :
      (parse : Text → Option Uuid) (now : DateTime) (text_id : Text) (uuid : Uuid)
      (a : ApiState codec c)
      → parse text_id ≡ some uuid
      → let (r, s) = Store.revoke codec now uuid a.token_store in
        revoke_token codec c parse now text_id a
        ≡ revoked codec c uuid r (record a { token_store = s })
  unfolding revoke_token
  revoke_token-revoked parse now text_id uuid a p = rw (revoke_token, p) refl

  revoke_token-sent :
      (parse : Text → Option Uuid) (now : DateTime) (text_id : Text) (uuid : Uuid)
      (a : ApiState codec c)
      → parse text_id ≡ some uuid
      → (revoke_token codec c parse now text_id a).0 ≡ replied tt
      → (revoke_token codec c parse now text_id a).1.gossip_tx
        ≡ (broadcast_token_revoked codec c uuid a).gossip_tx
  unfolding broadcast_token_revoked
  revoke_token-sent parse now text_id uuid a p e =
      let q = revoke_token-revoked parse now text_id uuid a p in
      ap (λ z. z.1.gossip_tx) q
      ∙ ap (λ z. z.gossip_tx) (revoked-sent uuid _ _ (ap (λ z. z.0) (sym q) ∙ e))

  module _ (layer : AuthLayer codec c) where
    -- A store that has a token as revoked makes the layer refuse it.
    revoked-refused :
        (t : ApiToken) (raw : Text) (at later : DateTime) (req : Request) (s : Store codec)
        → (get_by_hash codec (hash_token c layer.manager raw) s).0 ≡ ok (some t)
        → t.revoked ≡ true
        → c.decodes raw ≡ true
        → req.authorization ≡ some (text "Bearer " ++ (token_prefix ++ raw))
        → layer.enabled ≡ true
        → is_public_path req ≡ false
        → is_admin_path req ≡ false
        → (call codec c layer at later req s).0.0 ≡ unauthorized (text "token expired or revoked")
    unfolding call look_up found is_valid by_token strip_prefix
    revoked-refused t raw at later req s held r d bearer on private plain =
        let raw_strip : strip_prefix token_prefix (token_prefix ++ raw) ≡ some raw =
          (strip_prefix_iff token_prefix (token_prefix ++ raw) raw).1 refl in
        rw
          (
            private,
            plain,
            bearer,
            by_token-eq codec c layer at later (token_prefix ++ raw) raw s raw_strip,
            d,
            held,
            r,
            on,
          )
          refl

    -- When `revoke_token` of a node succeeds, it has sent one message into the tokens' channel, and
    -- any other node that receives the envelope of that message then refuses every request with that
    -- token, on all but the public and the admin paths: the other node has the token, indexed by the
    -- hash of the request's token under its own key, its database works, and its layer is on.
    pub revoke_token-propagates :
        (parse : Text → Option Uuid) (now : DateTime) (text_id : Text) (uuid : Uuid)
        (a : ApiState codec c) (tx : List GossipMessage) (sent heard : DateTime)
        (n : NetworkService) (local_id : NodeId) (t : ApiToken) (s : Store codec) (raw : Text)
        (at later : DateTime) (req : Request)
        → parse text_id ≡ some uuid
        → (revoke_token codec c parse now text_id a).0 ≡ replied tt
        → a.gossip_tx ≡ some tx
        → id (node codec c a) ≢ local_id
        → Works codec s
        → IsIndexed codec s
        → (get codec uuid s).0 ≡ ok (some t)
        → t.token_hash ≡ hash_token c layer.manager raw
        → c.decodes raw ≡ true
        → req.authorization ≡ some (text "Bearer " ++ (token_prefix ++ raw))
        → layer.enabled ≡ true
        → is_public_path req ≡ false
        → is_admin_path req ≡ false
        → (message : GossipMessage) × ((revoke_token codec c parse now text_id a).1.gossip_tx
            ≡ some (tx ++ message ∷ []))
          × ((call codec c layer at later req
                (receive codec heard n local_id (envelope (node codec c a) sent message) s).0).0.0
              ≡ unauthorized (text "token expired or revoked"))
    unfolding envelope broadcast_token_revoked process_gossip_message
    revoke_token-propagates parse now text_id uuid a tx sent heard n local_id t s raw at later req p
          e channel other w v held h d bearer on private plain =
        let (_, _, _, found, _) = revoke_lem codec heard uuid t s w v held in
        let heard_eq =
          receive-other codec heard n local_id (envelope (node codec c a) sent (token_revoked uuid))
            s other in
        (
          token_revoked uuid,
          revoke_token-sent parse now text_id uuid a p e ∙ rw channel refl,
          rw heard_eq (
              revoked-refused (revoked_at codec heard t) raw at later req _
                (ap (λ z. (get_by_hash codec z (Store.revoke codec heard uuid s).1).0) (sym h)
                  ∙ found)
                refl d bearer on private plain),
        )
