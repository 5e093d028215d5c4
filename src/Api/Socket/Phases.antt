-- ===== src/Api/Socket/Phases.antt =====
-- What a connection may do before it is authenticated.
use ironfish.Base.{
  true, false, none, List, [], ◌∷◌, nat_eq, nat_eqb_iff, get, get-remove, ◌≡◌, refl, ◌∙◌, ◌⊎◌, inl,
  inr, Bool-cases, arith, Text, strip_prefix, subst, ◌↔◌,
}
use ironfish.Core.Cluster.{DateTime}
use ironfish.Core.Token.{Uuid}
use ironfish.Auth.Token.{Crypto, TokenManager, token_prefix, hash_token}
use ironfish.Auth.Store.{Codec, Store, get_by_hash}
use ironfish.Api.Session.{
  ClientMessage, WsSession, cancel_all, auth, analyze, cancel, bestmove, subscribe, unsubscribe,
  ping, raw_or, handle_message, handle_auth,
}
use ironfish.Api.Session.Limits.{handle_message-unauthenticated, Proves}
use ironfish.Api.Manager.{unregister}
use ironfish.Api.Socket.{
  Event, deadline, tick, ping_frame, close_frame, end_of_stream, other_frame, received, bad_text,
  Connection, Phase, waiting, closed, authenticated, hear, cleanup, authenticate, tell,
  auth_timeout,
}

module _ (codec : Codec) (c : Crypto) where
  -- No task, no analysis, no topic.
  abbrev pub IsIdle : WsSession → Type 0
  IsIdle s = (s.spawned ≡ []) × (s.active_analyses ≡ []) × (s.subscriptions ≡ [])

  -- The store that a message leaves: a token is looked up, and nothing else is read.
  abbrev pub heard : TokenManager c → ClientMessage → Store codec → Store codec
  heard m (auth id token) st =
      (get_by_hash codec (hash_token c m (raw_or token (strip_prefix token_prefix token))) st).1
  heard m _ st = st

  -- No message of the events has a valid token, each with the store as the ones before leave it.
  abbrev pub IsUnproven : TokenManager c → List Event → Store codec → Type 0
  IsUnproven m [] st = Unit
  IsUnproven m (received now fresh message ∷ events) st =
      (Proves codec c m now st message → ⊥) × IsUnproven m events (heard m message st)
  IsUnproven m (_ ∷ events) st = IsUnproven m events st

  -- A message of the events has a valid token, the first that has one, and `rest` is behind it.
  abbrev pub Presented : TokenManager c → List Event → List Event → Store codec → Type 0
  Presented m rest [] st = ⊥
  Presented m rest (received now fresh message ∷ events) st =
      (Proves codec c m now st message × (events ≡ rest))
      ⊎ ((Proves codec c m now st message → ⊥) × Presented m rest events (heard m message st))
  Presented m rest (_ ∷ events) st = Presented m rest events st

  -- What is true of a connection that has come to this phase without being authenticated before.
  abbrev pub Before : TokenManager c → List Event → Store codec → Phase codec c → Type 0
  Before m events st (waiting k) =
      IsIdle k.session × (k.session.authenticated ≡ false) × IsUnproven m events st
  Before m events st (closed k) =
      IsIdle k.session × (get k.session.session_id k.sessions.sessions ≡ none)
  Before m events st (authenticated k rest) = IsIdle k.session × Presented m rest events st

  unproven :
      (m : TokenManager c) (now : DateTime) (fresh : Uuid) (message : ClientMessage)
      (events : List Event) (st : Store codec) (p : Phase codec c)
      → (Proves codec c m now st message → ⊥)
      → Before m events (heard m message st) p
      → Before m (received now fresh message ∷ events) st p
  unproven m now fresh message events st (waiting k) fails (idle, out, none_yet) =
      (idle, out, (fails, none_yet))
  unproven m now fresh message events st (closed k) fails b = b
  unproven m now fresh message events st (authenticated k rest) fails (idle, shown) =
      (idle, inr (fails, shown))

  -- An event that is no message changes nothing of that.
  abbrev IsQuiet : Event → Type 0
  IsQuiet e =
      (m : TokenManager c) (events : List Event) (st : Store codec) (p : Phase codec c)
      → Before m events st p
      → Before m (e ∷ events) st p

  tick-IsQuiet : IsQuiet tick
  tick-IsQuiet m events st (waiting k) b = b
  tick-IsQuiet m events st (closed k) b = b
  tick-IsQuiet m events st (authenticated k rest) b = b

  ping_frame-IsQuiet : IsQuiet ping_frame
  ping_frame-IsQuiet m events st (waiting k) b = b
  ping_frame-IsQuiet m events st (closed k) b = b
  ping_frame-IsQuiet m events st (authenticated k rest) b = b

  other_frame-IsQuiet : IsQuiet other_frame
  other_frame-IsQuiet m events st (waiting k) b = b
  other_frame-IsQuiet m events st (closed k) b = b
  other_frame-IsQuiet m events st (authenticated k rest) b = b

  bad_text-IsQuiet : (e : Text) → IsQuiet (bad_text e)
  bad_text-IsQuiet e m events st (waiting k) b = b
  bad_text-IsQuiet e m events st (closed k) b = b
  bad_text-IsQuiet e m events st (authenticated k rest) b = b

  hear-heard :
      (m : TokenManager c) (now : DateTime) (fresh : Uuid) (message : ClientMessage)
      (k : Connection codec c)
      → (hear codec c m now fresh message k).store ≡ heard m message k.store
  unfolding hear handle_message handle_auth
  hear-heard m now fresh (auth id token) k = refl
  hear-heard m now fresh (analyze id fen depth multipv movetime) k = refl
  hear-heard m now fresh (cancel id analysis_id) k = refl
  hear-heard m now fresh (bestmove id fen movetime) k = refl
  hear-heard m now fresh (subscribe id topics) k = refl
  hear-heard m now fresh (unsubscribe id topics) k = refl
  hear-heard m now fresh (ping id) k = refl

  pub cleanup-gone :
      (k : Connection codec c)
      → let k' = cleanup codec c k in
        (k'.session.active_analyses ≡ [])
        × (get k'.session.session_id k'.sessions.sessions ≡ none)
        × (k'.session.spawned ≡ k.session.spawned)
        × (k'.session.subscriptions ≡ k.session.subscriptions)
  unfolding cleanup cancel_all unregister
  cleanup-gone k = ground (
    arith,
    get-remove k.session.session_id k.session.session_id k.sessions.sessions,
    nat_eqb_iff k.session.session_id k.session.session_id,
  )

  closed-Before :
      (m : TokenManager c) (events : List Event) (st : Store codec) (k : Connection codec c)
      → IsIdle k.session
      → Before m events st (closed (cleanup codec c k))
  closed-Before m events st k idle =
      let (active, gone, spawned, subs) = cleanup-gone k in
      ((spawned ∙ idle.0, active, subs ∙ idle.2), gone)

  authenticate-received :
      (m : TokenManager c) (now : DateTime) (fresh : Uuid) (message : ClientMessage)
      (events : List Event) (k : Connection codec c)
      → k.session.authenticated ≡ false
      → IsIdle k.session
      → let k' = hear codec c m now fresh message k in
        IsIdle k'.session
        × ((k'.session.authenticated ≡ true) ↔ Proves codec c m now k.store message)
  unfolding hear
  authenticate-received m now fresh message events k out idle =
      let (spawned, active, subs, proof) =
        handle_message-unauthenticated codec c m now fresh message k.session k.store out in
      ((spawned ∙ idle.0, active ∙ idle.1, subs ∙ idle.2), proof)

  -- A connection that is not authenticated: as long as it waits, and when it is closed, it has
  -- started no task and no analysis and has no topic, and closed it is gone from the manager. It is
  -- authenticated just behind the first message with a token that the store then knows and that is
  -- then valid, and as long as it waits no message has had one.
  pub authenticate-Before :
      (m : TokenManager c) (events : List Event) (k : Connection codec c)
      → k.session.authenticated ≡ false
      → IsIdle k.session
      → Before m events k.store (authenticate codec c m events k)
  unfolding authenticate
  authenticate-Before m [] k out idle = (idle, out, tt)
  authenticate-Before m (deadline ∷ events) k out idle =
      closed-Before m (deadline ∷ events) k.store (tell codec c auth_timeout k) idle
  authenticate-Before m (close_frame ∷ events) k out idle =
      closed-Before m (close_frame ∷ events) k.store k idle
  authenticate-Before m (end_of_stream ∷ events) k out idle =
      closed-Before m (end_of_stream ∷ events) k.store k idle
  authenticate-Before m (tick ∷ events) k out idle =
      tick-IsQuiet m events k.store _ (authenticate-Before m events k out idle)
  authenticate-Before m (ping_frame ∷ events) k out idle =
      ping_frame-IsQuiet m events k.store _ (authenticate-Before m events k out idle)
  authenticate-Before m (other_frame ∷ events) k out idle =
      other_frame-IsQuiet m events k.store _ (authenticate-Before m events k out idle)
  authenticate-Before m (bad_text e ∷ events) k out idle =
      bad_text-IsQuiet e m events k.store _ (authenticate-Before m events _ out idle)
  authenticate-Before m (received now fresh message ∷ events) k out idle =
      let k' = hear codec c m now fresh message k in
      let (idle', proof) = authenticate-received m now fresh message events k out idle in
      elim (Bool-cases k'.session.authenticated) [
        | inl on ↦ rw on (idle', inl (proof.0 on, refl))
        | inr off ↦ rw off (
            unproven m now fresh message events k.store _ (λ v. ground (arith, off, proof.1 v))
              (subst (λ st. Before m events st (authenticate codec c m events k'))
                (hear-heard m now fresh message k) (authenticate-Before m events k' off idle')))
      ]
