-- ===== src/Api/Socket/Gone.antt =====
-- What a connection leaves behind.
use ironfish.Base.{
  Bool, none, some, List, [], ◌∷◌, nat_eq, get, ◌≡◌, refl, ◌⊎◌, inl, inr, Bool-cases, arith, ℕ,
  length, leb, ◌≤◌, ◌<◌,
}
use ironfish.Core.Token.{Uuid}
use ironfish.Auth.Token.{Crypto, TokenManager}
use ironfish.Auth.Store.{Codec, Store}
use ironfish.Api.Manager.{SessionManager, register, session_count}
use ironfish.Api.Socket.{
  Event, deadline, tick, ping_frame, close_frame, end_of_stream, other_frame, received, bad_text,
  Connection, Phase, waiting, closed, authenticated, hear, cleanup, authenticate, serve, run, both,
  handle_socket, registered, tell, auth_timeout,
}
use ironfish.Api.Socket.Phases.{cleanup-gone}

module _ (codec : Codec) (c : Crypto) where
  -- However a connection that is closed came to be closed, its session is gone from the manager and
  -- no analysis of it is active.
  abbrev pub IsGone : Phase codec c → Type 0
  IsGone (waiting k) = Unit
  IsGone (authenticated k events) = Unit
  IsGone (closed k) =
      (k.session.active_analyses ≡ []) × (get k.session.session_id k.sessions.sessions ≡ none)

  cleanup-IsGone : (k : Connection codec c) → IsGone (closed (cleanup codec c k))
  cleanup-IsGone k = let (active, gone, _, _) = cleanup-gone codec c k in (active, gone)

  serve-IsGone :
      (m : TokenManager c) (events : List Event) (k : Connection codec c)
      → IsGone (serve codec c m events k)
  unfolding serve
  serve-IsGone m [] k = tt
  serve-IsGone m (close_frame ∷ events) k = cleanup-IsGone k
  serve-IsGone m (end_of_stream ∷ events) k = cleanup-IsGone k
  serve-IsGone m (tick ∷ events) k = serve-IsGone m events _
  serve-IsGone m (bad_text e ∷ events) k = serve-IsGone m events _
  serve-IsGone m (received now fresh message ∷ events) k = serve-IsGone m events _
  serve-IsGone m (deadline ∷ events) k = serve-IsGone m events k
  serve-IsGone m (ping_frame ∷ events) k = serve-IsGone m events k
  serve-IsGone m (other_frame ∷ events) k = serve-IsGone m events k

  authenticate-IsGone :
      (m : TokenManager c) (events : List Event) (k : Connection codec c)
      → IsGone (authenticate codec c m events k)
  unfolding authenticate
  authenticate-IsGone m [] k = tt
  authenticate-IsGone m (deadline ∷ events) k = cleanup-IsGone (tell codec c auth_timeout k)
  authenticate-IsGone m (close_frame ∷ events) k = cleanup-IsGone k
  authenticate-IsGone m (end_of_stream ∷ events) k = cleanup-IsGone k
  authenticate-IsGone m (tick ∷ events) k = authenticate-IsGone m events k
  authenticate-IsGone m (ping_frame ∷ events) k = authenticate-IsGone m events k
  authenticate-IsGone m (other_frame ∷ events) k = authenticate-IsGone m events k
  authenticate-IsGone m (bad_text e ∷ events) k = authenticate-IsGone m events _
  authenticate-IsGone m (received now fresh message ∷ events) k =
      let k' = hear codec c m now fresh message k in
      elim (Bool-cases k'.session.authenticated) [
        | inl on ↦ rw on tt
        | inr off ↦ rw off (authenticate-IsGone m events k')
      ]

  both-IsGone : (m : TokenManager c) (p : Phase codec c) → IsGone p → IsGone (both codec c m p)
  both-IsGone m (waiting k) g = g
  both-IsGone m (closed k) g = g
  both-IsGone m (authenticated k events) g = serve-IsGone m events k

  run-IsGone :
      (m : TokenManager c) (events : List Event) (k : Connection codec c)
      → IsGone (run codec c m events k)
  unfolding run
  run-IsGone m events k = elim (Bool-cases k.session.authenticated) [
    | inl on ↦ rw on (serve-IsGone m events _)
    | inr off ↦ rw off (both-IsGone m _ (authenticate-IsGone m events _))
  ]

  -- A connection begins exactly if the manager of sessions is not full; and if it ends, by its client,
  -- its stream or the deadline, authenticated or not, it is gone from the manager and has no active
  -- analysis.
  pub handle_socket-IsGone :
      (m : TokenManager c) (id : Uuid) (max : ℕ) (pre : Bool) (events : List Event)
      (st : Store codec) (sessions : SessionManager)
      → ((sessions.max_connections ≤ session_count sessions)
          × (handle_socket codec c m id max pre events st sessions ≡ none))
        ⊎ ((session_count sessions < sessions.max_connections)
            × ((p : Phase codec c) × (handle_socket codec c m id max pre events st sessions
                  ≡ some p)
                × IsGone p))
  unfolding handle_socket registered register session_count
  handle_socket-IsGone m id max pre events st sessions =
      elim (Bool-cases (leb sessions.max_connections (length sessions.sessions))) [
        | inl full ↦ inl (ground (arith, full), rw full refl)
        | inr free ↦ inr (ground (arith, free), rw free (_, refl, run-IsGone m events _))
      ]
