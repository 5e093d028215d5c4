-- ===== src/Api/Socket.antt =====
-- crates/ironfish-api/src/ws/handler.rs: one WebSocket connection. What its two `select!` loops see
-- is a list of events; the writer task, which ends with the connection, is left out.
pub mod Phases
pub mod Gone
use ironfish.Base.{
  ℕ, Bool, true, false, not, Option, none, some, List, [], ◌∷◌, Text, text, strip_prefix,
  if◌then◌else◌, ◌++◌,
}
use ironfish.Core.Error.{Result, ok, err}
use ironfish.Core.Cluster.{DateTime}
use ironfish.Core.Token.{Uuid, ApiToken, is_valid}
use ironfish.Auth.Token.{Crypto, TokenManager, token_prefix, hash_token}
use ironfish.Auth.Store.{Codec, Store, get_by_hash}
use ironfish.Api.Session
use ironfish.Api.Session.{
  ClientMessage, ServerMessage, error_message, pong, WsSession, send, raw_or, handle_message,
  cancel_all,
}
use ironfish.Api.Manager.{SessionManager, register, unregister, update_subscriptions}

-- A client's message comes with the clock's reading and the identifier that a request in it would
-- get. A text that is no message comes with the decoder's error. `tick` is the ping timer.
pub data Event : Type 0 where
  deadline tick ping_frame close_frame end_of_stream other_frame : Event
  received : DateTime → Uuid → ClientMessage → Event
  bad_text : Text → Event

abbrev pub invalid_message : Text → ServerMessage
invalid_message e = error_message none 400 (text "invalid message: " ++ e)

abbrev pub auth_timeout : ServerMessage
auth_timeout = error_message none 401 (text "auth timeout")

module _ (codec : Codec) (c : Crypto) where
  -- The session, and what it shares with the others.
  pub record Connection : Type 0 where
    pub session : WsSession
    pub store : Store codec
    pub sessions : SessionManager

  -- A connection that waits for its next event, one that has ended, and one that is authenticated
  -- with events to come.
  pub data Phase : Type 0 where
    waiting closed : Connection → Phase
    authenticated : Connection → List Event → Phase

  abbrev known : DateTime → Result (Option ApiToken) → Bool
  known now (ok (some t)) = is_valid now t
  known now (ok none) = false
  known now (err e) = false

  unfoldable pub validate_token :
      TokenManager c → DateTime → Text → Store codec → Bool × Store codec
  validate_token m now token st =
      let (r, st') =
        get_by_hash codec (hash_token c m (raw_or token (strip_prefix token_prefix token))) st in
      (known now r, st')

  -- The token that a connection's address may have as a parameter.
  unfoldable pub pre_authenticated :
      TokenManager c → DateTime → Option Text → Store codec → Bool × Store codec
  unfolding validate_token
  pre_authenticated m now none st = (false, st)
  pre_authenticated m now (some token) st = validate_token m now token st

  abbrev pub tell : ServerMessage → Connection → Connection
  tell message k = record k { session = send message k.session }

  unfoldable pub hear : TokenManager c → DateTime → Uuid → ClientMessage → Connection → Connection
  hear m now fresh message k =
      let (s, st) = handle_message codec c m now fresh message k.session k.store in
      record k { session = s; store = st }

  unfoldable pub cleanup : Connection → Connection
  cleanup k = record k {
    session = cancel_all k.session;
    sessions = unregister k.session.session_id k.sessions;
  }

  -- The loop before the session is authenticated, and the test behind it.
  unfoldable pub authenticate : TokenManager c → List Event → Connection → Phase
  unfolding cleanup hear
  authenticate m [] k = waiting k
  authenticate m (deadline ∷ events) k = closed (cleanup (tell auth_timeout k))
  authenticate m (close_frame ∷ events) k = closed (cleanup k)
  authenticate m (end_of_stream ∷ events) k = closed (cleanup k)
  authenticate m (bad_text e ∷ events) k = authenticate m events (tell (invalid_message e) k)
  authenticate m (received now fresh message ∷ events) k =
      let k' = hear m now fresh message k in
      let later = authenticate m events k' in
      if k'.session.authenticated then authenticated k' events else later
  authenticate m (_ ∷ events) k = authenticate m events k

  unfoldable pub serve_message :
      TokenManager c → DateTime → Uuid → ClientMessage → Connection → Connection
  unfolding hear
  serve_message m now fresh message k =
      let k' = hear m now fresh message k in
      record k' {
        sessions = update_subscriptions k'.session.session_id k'.session.subscriptions k'.sessions;
      }

  -- The loop of an authenticated session.
  unfoldable pub serve : TokenManager c → List Event → Connection → Phase
  unfolding cleanup serve_message
  serve m [] k = waiting k
  serve m (tick ∷ events) k = serve m events (tell (pong (text "server-ping")) k)
  serve m (received now fresh message ∷ events) k =
      serve m events (serve_message m now fresh message k)
  serve m (bad_text e ∷ events) k = serve m events (tell (invalid_message e) k)
  serve m (close_frame ∷ events) k = closed (cleanup k)
  serve m (end_of_stream ∷ events) k = closed (cleanup k)
  serve m (_ ∷ events) k = serve m events k

  abbrev pub both : TokenManager c → Phase → Phase
  both m (waiting k) = waiting k
  both m (closed k) = closed k
  both m (authenticated k events) = serve m events k

  unfoldable pub run : TokenManager c → List Event → Connection → Phase
  unfolding authenticate serve
  run m events k =
      if k.session.authenticated then serve m events k else both m (authenticate m events k)

  unfoldable pub accepted : Uuid → ℕ → Bool → Store codec → SessionManager → Connection
  accepted id max pre st sessions = record {
    session = record (Session.new id max) { authenticated = pre };
    store = st;
    sessions = sessions;
  }

  unfoldable pub registered :
      TokenManager c
      → Uuid
      → ℕ
      → Bool
      → List Event
      → Store codec
      → SessionManager × Bool
      → Option Phase
  unfolding accepted run
  registered m id max pre events st (sessions, false) = none
  registered m id max pre events st (sessions, true) =
      some (run m events (accepted id max pre st sessions))

  -- `none`: the manager is full, and the connection is dropped.
  unfoldable pub handle_socket :
      TokenManager c → Uuid → ℕ → Bool → List Event → Store codec → SessionManager → Option Phase
  unfolding registered
  handle_socket m id max pre events st sessions =
      registered m id max pre events st (register id sessions)
