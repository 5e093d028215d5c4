-- ===== src/Server/App/Issue.antt =====
-- A token that the REST API of one node issues, at another node.
use ironfish.Base.{
  false, Option, none, some, List, [], ◌∷◌, ◌++◌, text, text_eq, nat_eq, ◌≡◌, ◌≢◌, ◌≤◌, refl, ap,
  ◌∙◌, inl, inr, Option-cases, arith,
}
use ironfish.Core.Error.{Result, ok, err}
use ironfish.Core.Cluster.{DateTime, NodeId}
use ironfish.Core.Token.{Uuid, ApiToken, CreateTokenResponse, CreateTokenRequest}
use ironfish.Core.Gossip.{GossipMessage, token_created}
use ironfish.Cluster.Node.{id}
use ironfish.Cluster.Network.{NetworkService}
use ironfish.Cluster.Service.{receive}
use ironfish.Auth.Token
use ironfish.Auth.Token.{Bytes, Crypto, token_prefix, hash_token}
use ironfish.Auth.Store
use ironfish.Auth.Store.{Codec, Store, get, get_by_hash}
use ironfish.Auth.Store.Laws.{Works, get-create}
use ironfish.Auth.Middleware.{Request, is_admin_path, inner, AuthLayer, call, found}
use ironfish.Auth.Middleware.Issued.{create-Issued, Issued-inner}
use ironfish.Api.State.{ApiState, node, broadcast_token_created}
use ironfish.Api.Rest.{CreateTokenBody, replied}
use ironfish.Api.Rest.Tokens.{request_of, told, keep, create_token}
use ironfish.Server.App.Gossip.{envelope}
use ironfish.Cluster.Service.Tokens.{process-new, receive-other}

module _ (codec : Codec) (c : Crypto) where
  -- What a `create_token` that replies has done.
  abbrev Kept :
      ApiState codec c
      → Option (Result (ApiToken × CreateTokenResponse))
      → CreateTokenResponse
      → Type 0
  Kept st made response =
      (t : ApiToken) × (made ≡ some (ok (t, response)))
      × ((Store.create codec t st.token_store).0 ≡ ok tt)
      × ((keep codec c made st).1.gossip_tx ≡ (broadcast_token_created codec c t st).gossip_tx)

  told-replied :
      (t : ApiToken) (response answer : CreateTokenResponse) (r : Result (Unit {0}))
      (st : ApiState codec c)
      → (told codec c t response r st).0 ≡ replied answer
      → (r ≡ ok tt)
        × (response ≡ answer)
        × ((told codec c t response r st).1 ≡ broadcast_token_created codec c t st)
  unfolding told
  told-replied t response answer (ok u) st e = ground (arith, e)
  told-replied t response answer (err x) st e = ground (arith, e)

  keep-Kept :
      (made : Option (Result (ApiToken × CreateTokenResponse))) (answer : CreateTokenResponse)
      (st : ApiState codec c)
      → (keep codec c made st).0 ≡ replied answer
      → Kept st made answer
  unfolding keep broadcast_token_created
  keep-Kept none answer st e = ground (arith, e)
  keep-Kept (some (err x)) answer st e = ground (arith, e)
  keep-Kept (some (ok (t, response))) answer st e =
      let (r, same, after) = told-replied t response answer _ _ e in
      (t, ap (λ z. some (ok (t, z))) same, r, ap (λ z. z.gossip_tx) after)

  create-id :
      (m : Token.TokenManager c) (fresh : Uuid) (random : Option Bytes) (now then_ : DateTime)
      (request : CreateTokenRequest) (t : ApiToken) (response : CreateTokenResponse)
      → Token.create c m fresh random now then_ request ≡ some (ok (t, response))
      → (t.id ≡ fresh) × (t.expires_at ≡ response.expires_at)
  unfolding Token.create Token.generate_raw_token Token.issue
  create-id m fresh none now then_ request t response e =
      elim (Option-cases
        (Token.add_days c now (Token.days_or m.default_ttl_days request.expires_in_days))) [
          | inl f ↦ ground (arith, e, f)
          | inr (x, f) ↦ ground (arith, e, f)
        ]
  create-id m fresh (some bytes) now then_ request t response e =
      elim (Option-cases
        (Token.add_days c now (Token.days_or m.default_ttl_days request.expires_in_days))) [
          | inl f ↦ ground (arith, e, f)
          | inr (x, f) ↦ ground (arith, e, f)
        ]

  module _ (layer : AuthLayer codec c) where
    -- When `create_token` of a node replies, it has sent one message into the tokens' channel, and
    -- any other node that receives the envelope of that message then lets the owner's request
    -- through: the two nodes have the same key, the other node's database works and has no token
    -- with the new identifier, the request carries the replied token, is not for an admin path and
    -- comes before the token expires.
    pub create_token-propagates :
        (fresh : Uuid) (random : Option Bytes) (now then_ : DateTime) (body : CreateTokenBody)
        (a : ApiState codec c) (tx : List GossipMessage) (response : CreateTokenResponse)
        (sent heard : DateTime) (n : NetworkService) (local_id : NodeId) (s : Store codec)
        (expires at later : DateTime) (req : Request)
        → (create_token codec c fresh random now then_ body a).0 ≡ replied response
        → a.gossip_tx ≡ some tx
        → a.token_manager.key ≡ layer.manager.key
        → id (node codec c a) ≢ local_id
        → Works codec s
        → (get codec fresh s).0 ≡ ok none
        → response.expires_at ≡ some expires
        → at ≤ expires
        → req.authorization ≡ some (text "Bearer " ++ response.token)
        → is_admin_path req ≡ false
        → (message : GossipMessage) × ((create_token codec c fresh random now then_ body
              a).1.gossip_tx
            ≡ some (tx ++ message ∷ []))
          × ((call codec c layer at later req
                (receive codec heard n local_id (envelope (node codec c a) sent message) s).0).0.0
              ≡ inner)
    unfolding create_token envelope broadcast_token_created
    create_token-propagates fresh random now then_ body a tx response sent heard n local_id s
          expires at later req e channel key other w new x early bearer plain =
        let (t, made, _, after) = keep-Kept _ response a e in
        let issued =
          create-Issued c a.token_manager fresh random now then_ (request_of body) t response
            made in
        let (same_id, same_expiry) =
          create-id a.token_manager fresh random now then_ (request_of body) t response made in
        let (_, _, found, _) = get-create codec t s w in
        let held =
          receive-other codec heard n local_id (envelope (node codec c a) sent (token_created t)) s
            other
          ∙ ap (λ z. z.1) (process-new codec heard t s w (rw same_id new)) in
        (
          token_created t,
          after ∙ rw channel refl,
          rw held (
              Issued-inner c codec layer a.token_manager t response expires at later req _ key
                issued (same_expiry ∙ x) early found bearer plain),
        )
