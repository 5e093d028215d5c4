-- ===== src/Api/Agreement.antt =====
-- How the REST, GraphQL and gRPC APIs answer the same question.
use ironfish.Base.{
  ℕ, Option, none, some, Text, ◌≡◌, refl, ap, arith, sym, true, text_eq, text_eqb_iff, get-remove,
}
use ironfish.Core.Error.{Result, ok, err}
use ironfish.Core.Cluster.{DateTime, NodeId}
use ironfish.Core.Token.{Uuid, ApiToken, CreateTokenResponse}
use ironfish.Cluster.Node.{id}
use ironfish.Cluster.Membership.{get_member, is_member, leave}
use ironfish.Stockfish.Service.{StockfishEngine, Answer, pending, panicked, answered, Clock}
use ironfish.Auth.Token.{Bytes, Crypto}
use ironfish.Auth.Store
use ironfish.Auth.Store.{Codec}
use ironfish.Api.State.{ApiState, node, broadcast_token_created}
use ironfish.Api.Rest
use ironfish.Api.Rest.{
  AnalyzeBody, CreateTokenBody, Reply, unanswered, crashed, refused, replied, reply_of,
}
use ironfish.Api.Rest.Tokens as RestTokens
use ironfish.Api.GraphQl
use ironfish.Api.GraphQl.{Resolved, resolved, failed, resolved_by, analysis_of, or_default}
use ironfish.Api.GraphQl.Tokens as GraphQlTokens
use ironfish.Api.GraphQl.Tokens.{CreateTokenInput, token_of}
use ironfish.Api.Grpc
use ironfish.Api.Grpc.{AnalyzeRequest, Status, response, response_of, analyze_response, as_u8}

-- A REST reply as gRPC and GraphQL give it.
abbrev pub status_for : {A B : Type 0} → (A → B) → Reply A → Status B
status_for f unanswered = Grpc.unanswered
status_for f crashed = Grpc.crashed
status_for f (refused code message) = Grpc.internal message
status_for f (replied a) = response (f a)

abbrev pub resolved_for : {A B : Type 0} → (A → B) → Reply A → Resolved B
resolved_for f unanswered = GraphQl.unanswered
resolved_for f crashed = GraphQl.crashed
resolved_for f (refused code message) = failed message
resolved_for f (replied a) = resolved (f a)

response_of-reply :
    {A B : Type 0} (f : A → B) (a : Answer A) → response_of f a ≡ status_for f (reply_of a)
response_of-reply f pending = refl
response_of-reply f panicked = refl
response_of-reply f (answered (ok a)) = refl
response_of-reply f (answered (err e)) = refl

resolved_by-reply :
    {A B : Type 0} (f : A → B) (a : Answer A) → resolved_by f a ≡ resolved_for f (reply_of a)
resolved_by-reply f pending = refl
resolved_by-reply f panicked = refl
resolved_by-reply f (answered (ok a)) = refl
resolved_by-reply f (answered (err e)) = refl

status-pair :
    {A B : Type 0} (f : A → B) (x : Answer A × StockfishEngine)
    → ◌≡◌ {A = Status B × StockfishEngine}
        (response_of f x.0, x.1)
        (status_for f (reply_of x.0), x.1)
status-pair f x = ap (λ z. (z, x.1)) (response_of-reply f x.0)

resolved-pair :
    {A B : Type 0} (f : A → B) (x : Answer A × StockfishEngine)
    → ◌≡◌ {A = Resolved B × StockfishEngine}
        (resolved_by f x.0, x.1)
        (resolved_for f (reply_of x.0), x.1)
resolved-pair f x = ap (λ z. (z, x.1)) (resolved_by-reply f x.0)

-- The REST body for a gRPC request, and for GraphQL's arguments: depth and multipv modulo 256.
abbrev pub body_of_grpc : AnalyzeRequest → AnalyzeBody
body_of_grpc req = record {
  fen = req.fen;
  depth = as_u8 req.depth;
  multipv = as_u8 req.multipv;
  movetime = req.movetime_ms;
}

abbrev pub body_of_graphql : Text → Option ℕ → Option ℕ → AnalyzeBody
body_of_graphql fen depth multipv = record {
  fen = fen;
  depth = as_u8 (or_default 20 depth);
  multipv = as_u8 (or_default 1 multipv);
  movetime = none;
}

abbrev pub body_of_input : Option CreateTokenInput → CreateTokenBody
body_of_input none = record { name = none; expires_in_days = none; rate_limit = none }
body_of_input (some i) = record {
  name = i.name;
  expires_in_days = i.expires_in_days;
  rate_limit = i.rate_limit;
}

request_of-grpc :
    (fresh : Uuid) (req : AnalyzeRequest)
    → Grpc.request_of fresh req ≡ Rest.request_of fresh (body_of_grpc req)
unfolding Grpc.request_of Rest.request_of
request_of-grpc fresh req = ground arith

module _ (codec : Codec) (c : Crypto) where
  -- An analysis that is asked for over gRPC or GraphQL is the one that the REST API gives for the
  -- same position with depth and multipv modulo 256, result or error, and leaves the engine alike.
  pub analyze-agrees :
      (show : Uuid → Text) (fresh : Uuid) (req : AnalyzeRequest) (fen : Text)
      (depth multipv : Option ℕ) (acquire : Result (Unit {0})) (t : Clock) (elapsed now : ℕ)
      (st : ApiState codec c) (e : StockfishEngine)
      → let (r, e₁) = Rest.analyze codec c (body_of_grpc req) fresh acquire t elapsed now st e in
        let (r', e₂) =
          Rest.analyze codec c
            (body_of_graphql fen depth multipv)
            fresh
            acquire
            t
            elapsed
            now
            st
            e in
        (Grpc.analyze codec c show fresh req acquire t elapsed now st e
          ≡ (status_for (analyze_response show) r, e₁))
        × (GraphQl.analyze codec c show fresh fen depth multipv acquire t elapsed now st e
            ≡ (resolved_for (analysis_of show) r', e₂))
  unfolding Grpc.analyze GraphQl.analyze Rest.analyze Rest.request_of
  analyze-agrees show fresh req fen depth multipv acquire t elapsed now st e = (
    rw (request_of-grpc fresh req) (status-pair (analyze_response show) _),
    resolved-pair (analysis_of show) _,
  )

  told-silent :
      (show : Uuid → Text) (t : ApiToken) (answer : CreateTokenResponse) (r : Result (Unit {0}))
      (st : ApiState codec c)
      → let (o, st') = RestTokens.told codec c t answer r st in
        (st'.token_store ≡ st.token_store)
        × (GraphQlTokens.resolved_or (λ _. token_of show answer) r ≡ resolved_for (token_of show) o)
  unfolding RestTokens.told broadcast_token_created
  told-silent show t answer (ok u) st = (refl, refl)
  told-silent show t answer (err e) st = (refl, refl)

  keep-silent :
      (show : Uuid → Text) (made : Option (Result (ApiToken × CreateTokenResponse)))
      (st : ApiState codec c)
      → let (r, a) = RestTokens.keep codec c made st in
        let (r', b) = GraphQlTokens.keep codec c show made st in
        (r' ≡ resolved_for (token_of show) r)
        × (b.token_store ≡ a.token_store)
        × (b.gossip_tx ≡ st.gossip_tx)
  unfolding RestTokens.keep GraphQlTokens.keep
  keep-silent show none st = (refl, refl, refl)
  keep-silent show (some (err e)) st = (refl, refl, refl)
  keep-silent show (some (ok (t, answer))) st =
      let (r, s) = Store.create codec t st.token_store in
      let (same, o) = told-silent show t answer r (record st { token_store = s }) in
      (o, sym same, refl)

  -- `create_token` of GraphQL answers and stores what that of the REST API does, but sends nothing
  -- into the channel from which the other nodes learn of a token.
  pub create_token-silent :
      (show : Uuid → Text) (fresh : Uuid) (random : Option Bytes) (now then_ : DateTime)
      (input : Option CreateTokenInput) (st : ApiState codec c)
      → let (r, a) =
          RestTokens.create_token codec c fresh random now then_ (body_of_input input) st in
        let (r', b) = GraphQlTokens.create_token codec c show fresh random now then_ input st in
        (r' ≡ resolved_for (token_of show) r)
        × (b.token_store ≡ a.token_store)
        × (b.gossip_tx ≡ st.gossip_tx)
  unfolding RestTokens.create_token GraphQlTokens.create_token GraphQlTokens.request_of
  create_token-silent show fresh random now then_ none st = keep-silent show _ st
  create_token-silent show fresh random now then_ (some i) st = keep-silent show _ st

  -- `cluster_leave` reports success, and yet the node is a member as before, in the state that it
  -- was in and with the same other members, if it was not listed as a member of its own.
  pub cluster_leave_stays :
      (st : ApiState codec c)
      → let m = st.membership in
        let self = id (node codec c st) in
        let (r, st') = Rest.cluster_leave codec c st in
        get_member self m ≡ none
        → (r ≡ replied tt)
          × (st'.membership.local_node ≡ m.local_node)
          × (is_member self st'.membership ≡ true)
          × ((other : NodeId) → get_member other st'.membership ≡ get_member other m)
  unfolding Rest.cluster_leave is_member leave get_member
  cluster_leave_stays st absent = (
    refl,
    refl,
    ground (arith, text_eqb_iff (id (node codec c st)) (id (node codec c st))),
    λ other. ground (
      arith,
      get-remove (id (node codec c st)) other st.membership.members,
      text_eqb_iff (id (node codec c st)) other,
      absent,
    ),
  )
