-- ===== src/Api/Session/Limits.antt =====
-- What a session grants before it is authenticated, and how many analyses it runs.
use ironfish.Base.{
  ◌≤◌, true, false, Option, none, some, List, [], ◌∷◌, ◌++◌, Text, text_eq, nat_eq, get, insert,
  remove, length, length-insert, length-remove-le, strip_prefix, ◌≡◌, refl, ap, ◌∙◌, nat_eqb_iff,
  ◌↔◌, arith, sym, map,
}
use mathlib.Core.List.{append_assoc, append-nil}
use ironfish.Core.Error.{Result, ok, err}
use ironfish.Core.Cluster.{DateTime}
use ironfish.Core.Token.{Uuid, ApiToken, is_valid}
use ironfish.Auth.Token.{Crypto, TokenManager, token_prefix, hash_token}
use ironfish.Auth.Store.{Codec, Store, get_by_hash}
use ironfish.Api.Session.{
  analysis, requested, ClientMessage, auth, analyze, cancel, bestmove, subscribe, unsubscribe, ping,
  WsSession, raw_or, handle_analyze, handle_cancel, handle_bestmove, handle_subscribe,
  handle_unsubscribe, handle_authenticated, handle_other, auth_with, handle_auth, handle_message,
}

-- No more analyses are active than a session may have.
abbrev pub IsBounded : WsSession → Type 0
IsBounded s = length s.active_analyses ≤ s.max_analyses

handle_authenticated-IsBounded :
    (fresh : Uuid) (m : ClientMessage) (s : WsSession)
    → IsBounded s
    → IsBounded (handle_authenticated fresh m s)
unfolding handle_authenticated handle_analyze handle_cancel handle_bestmove handle_subscribe
    handle_unsubscribe
handle_authenticated-IsBounded fresh (auth id token) s b = b
handle_authenticated-IsBounded fresh (analyze id fen depth multipv movetime) s b =
    ground (arith, b, length-insert fresh tt s.active_analyses)
handle_authenticated-IsBounded fresh (cancel id k) s b =
    ground (arith, b, length-remove-le k s.active_analyses)
handle_authenticated-IsBounded fresh (bestmove id fen movetime) s b = b
handle_authenticated-IsBounded fresh (subscribe id topics) s b = b
handle_authenticated-IsBounded fresh (unsubscribe id topics) s b = b
handle_authenticated-IsBounded fresh (ping id) s b = b

handle_other-IsBounded :
    (fresh : Uuid) (m : ClientMessage) (s : WsSession)
    → IsBounded s
    → IsBounded (handle_other fresh m s)
unfolding handle_other
handle_other-IsBounded fresh m s b = ground (arith, b, handle_authenticated-IsBounded fresh m s b)

module _ (codec : Codec) (c : Crypto) where
  auth_with-active :
      (now : DateTime) (id : Text) (r : Result (Option ApiToken)) (s : WsSession)
      → (let s' = auth_with codec c now id r s in
          (s'.active_analyses ≡ s.active_analyses)
          × (s'.max_analyses ≡ s.max_analyses)
          × (s'.spawned ≡ s.spawned)
          × (s'.subscriptions ≡ s.subscriptions))
  unfolding auth_with
  auth_with-active now id (ok (some t)) s = ground arith
  auth_with-active now id (ok none) s = ground arith
  auth_with-active now id (err e) s = ground arith

  -- No message takes a session past its limit of active analyses.
  pub handle_message-IsBounded :
      (m : TokenManager c) (now : DateTime) (fresh : Uuid) (message : ClientMessage) (s : WsSession)
      (st : Store codec)
      → IsBounded s
      → IsBounded (handle_message codec c m now fresh message s st).0
  unfolding handle_message handle_auth
  handle_message-IsBounded m now fresh (auth id token) s st b = ground (
    arith,
    b,
    auth_with-active now id
        (get_by_hash codec (hash_token c m (raw_or token (strip_prefix token_prefix token))) st).0
        s,
  )
  handle_message-IsBounded m now fresh (ping id) s st b = b
  handle_message-IsBounded m now fresh (analyze id fen depth multipv movetime) s st b =
      handle_other-IsBounded fresh (analyze id fen depth multipv movetime) s b
  handle_message-IsBounded m now fresh (cancel id k) s st b =
      handle_other-IsBounded fresh (cancel id k) s b
  handle_message-IsBounded m now fresh (bestmove id fen movetime) s st b =
      handle_other-IsBounded fresh (bestmove id fen movetime) s b
  handle_message-IsBounded m now fresh (subscribe id topics) s st b =
      handle_other-IsBounded fresh (subscribe id topics) s b
  handle_message-IsBounded m now fresh (unsubscribe id topics) s st b =
      handle_other-IsBounded fresh (unsubscribe id topics) s b

  -- A message that authenticates: it has a token that the store knows by its hash and that is valid.
  abbrev pub Proves : TokenManager c → DateTime → Store codec → ClientMessage → Type 0
  Proves m now st (auth id token) =
      (t : ApiToken) × ((get_by_hash codec
          (hash_token c m (raw_or token (strip_prefix token_prefix token))) st).0
        ≡ ok (some t))
      × (is_valid now t ≡ true)
  Proves m now st _ = ⊥

  auth_with_iff :
      (now : DateTime) (id : Text) (r : Result (Option ApiToken)) (s : WsSession)
      → s.authenticated ≡ false
      → ((auth_with codec c now id r s).authenticated ≡ true)
        ↔ ((t : ApiToken) × (r ≡ ok (some t)) × (is_valid now t ≡ true))
  unfolding auth_with
  auth_with_iff now id (ok (some t)) s out = (λ e. (t, refl, ground (arith, e, out)), λ v. known v)
    where
      known :
          (u : ApiToken) × (ok (some t) ≡ ok (some u)) × (is_valid now u ≡ true)
          → (auth_with codec c now id (ok (some t)) s).authenticated ≡ true
      known (u, q, v) = ground (arith, q, v)
  auth_with_iff now id (ok none) s out =
      (λ e. absurd (ground (arith, e, out)), λ v. absurd (ground (arith, v.1)))
  auth_with_iff now id (err x) s out =
      (λ e. absurd (ground (arith, e, out)), λ v. absurd (ground (arith, v.1)))

  -- In a session that is not authenticated, a message starts no task, registers no analysis and
  -- subscribes to nothing; the session is authenticated by it exactly if it has a valid token.
  pub handle_message-unauthenticated :
      (m : TokenManager c) (now : DateTime) (fresh : Uuid) (message : ClientMessage) (s : WsSession)
      (st : Store codec)
      → s.authenticated ≡ false
      → let (s', _) = handle_message codec c m now fresh message s st in
        (s'.spawned ≡ s.spawned)
        × (s'.active_analyses ≡ s.active_analyses)
        × (s'.subscriptions ≡ s.subscriptions)
        × ((s'.authenticated ≡ true) ↔ Proves m now st message)
  unfolding handle_message handle_auth handle_other
  handle_message-unauthenticated m now fresh (auth id token) s st out =
      let r =
        (get_by_hash codec (hash_token c m (raw_or token (strip_prefix token_prefix token)))
          st).0 in
      let (a, _, w, t) = auth_with-active now id r s in (w, a, t, auth_with_iff now id r s out)
  handle_message-unauthenticated m now fresh (ping id) s st out = ground (arith, out)
  handle_message-unauthenticated m now fresh (analyze id fen depth multipv movetime) s st out =
      ground (arith, out)
  handle_message-unauthenticated m now fresh (cancel id k) s st out = ground (arith, out)
  handle_message-unauthenticated m now fresh (bestmove id fen movetime) s st out =
      ground (arith, out)
  handle_message-unauthenticated m now fresh (subscribe id topics) s st out = ground (arith, out)
  handle_message-unauthenticated m now fresh (unsubscribe id topics) s st out = ground (arith, out)

-- A client that asks for an analysis and cancels it, again and again.
abbrev pub ask_and_cancel : Text → Text → List Uuid → WsSession → WsSession
ask_and_cancel id fen [] s = s
ask_and_cancel id fen (k ∷ ks) s =
    ask_and_cancel id fen ks
      (handle_other 0 (cancel id k) (handle_other k (analyze id fen 20 1 none) s))

analyze_lem :
    (id fen : Text) (k : Uuid) (s : WsSession)
    → s.authenticated ≡ true
    → 1 ≤ s.max_analyses
    → s.active_analyses ≡ []
    → (let s' = handle_other k (analyze id fen 20 1 none) s in
        (s'.authenticated ≡ true)
        × (s'.max_analyses ≡ s.max_analyses)
        × (s'.active_analyses ≡ (k, tt) ∷ [])
        × (s'.spawned ≡ s.spawned ++ analysis id (requested k fen 20 1 none) ∷ [])
        × (s'.sent ≡ s.sent)
        × (s'.cancelled ≡ s.cancelled))
unfolding handle_other handle_authenticated handle_analyze insert
analyze_lem id fen k s known allowed empty = ground (arith, known, allowed, empty)

cancel_lem :
    (id : Text) (k : Uuid) (s : WsSession)
    → s.authenticated ≡ true
    → s.active_analyses ≡ (k, tt) ∷ []
    → (let s' = handle_other 0 (cancel id k) s in
        (s'.authenticated ≡ true)
        × (s'.max_analyses ≡ s.max_analyses)
        × (s'.active_analyses ≡ [])
        × (s'.spawned ≡ s.spawned)
        × (s'.sent ≡ s.sent)
        × (s'.cancelled ≡ s.cancelled ++ k ∷ []))
unfolding handle_other handle_authenticated handle_cancel get remove
cancel_lem id k s known one = ground (arith, known, one, nat_eqb_iff k k)

-- The limit of active analyses does not bound the tasks that a session starts. An authenticated
-- client with no active analysis and a limit of at least one, that asks for an analysis and cancels
-- it at once, however often, is never refused: each time one more task is started and the token of
-- its analysis cancelled, and in the end no analysis is active.
pub ask_and_cancel_lem :
    (id fen : Text) (ks : List Uuid) (s : WsSession)
    → s.authenticated ≡ true
    → 1 ≤ s.max_analyses
    → s.active_analyses ≡ []
    → (let s' = ask_and_cancel id fen ks s in
        (s'.sent ≡ s.sent)
        × (s'.active_analyses ≡ [])
        × (s'.cancelled ≡ s.cancelled ++ ks)
        × (s'.spawned ≡ s.spawned ++ map (λ k. analysis id (requested k fen 20 1 none)) ks))
ask_and_cancel_lem id fen [] s known allowed empty =
    (refl, empty, sym (append-nil s.cancelled), sym (append-nil s.spawned))
ask_and_cancel_lem id fen (k ∷ ks) s known allowed empty =
    let asked = handle_other k (analyze id fen 20 1 none) s in
    let a = analyze_lem id fen k s known allowed empty in
    let b = cancel_lem id k asked (a.0) (a.2) in
    let (sent, active, cancelled, spawned) =
      ask_and_cancel_lem id fen ks (handle_other 0 (cancel id k) asked) (b.0)
        (ground (arith, a.1, b.1, allowed)) (b.2) in
    let task = analysis id (requested k fen 20 1 none) in
    let tasks = map (λ k. analysis id (requested k fen 20 1 none)) ks in
    (
      sent ∙ (b.4 ∙ a.4),
      active,
      cancelled
          ∙ (ap (λ l. l ++ ks) (b.5 ∙ ap (λ l. l ++ k ∷ []) a.5)
              ∙ append_assoc s.cancelled (k ∷ []) ks),
      spawned ∙ (ap (λ l. l ++ tasks) (b.3 ∙ a.3) ∙ append_assoc s.spawned (task ∷ []) tasks),
    )
