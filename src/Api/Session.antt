-- ===== src/Api/Session.antt =====
-- crates/ironfish-api/src/ws/session.rs: what a session does with a message. A task that it spawns
-- is entered in a list.
pub mod Limits
pub mod Tasks
use ironfish.Base.{
  ℕ, Bool, true, false, not, Option, none, some, List, [], ◌∷◌, ◌++◌, Text, text, text_eq, nat_eq,
  Map, get, insert, remove, contains_key, length, strip_prefix, leb, if◌then◌else◌,
}
use ironfish.Core.Error.{Error, Result, ok, err, analysis_cancelled, display}
use ironfish.Core.Cluster.{DateTime}
use ironfish.Core.Token.{Uuid, ApiToken, is_valid}
use ironfish.Core.Analysis.{
  Evaluation, PrincipalVariation, AnalysisRequest, new_request, with_depth, with_multipv,
  with_movetime, AnalysisResult, BestMoveRequest, new_best_move_request, BestMoveResponse,
}
use ironfish.Auth.Token.{Crypto, TokenManager, token_prefix, hash_token}
use ironfish.Auth.Store.{Codec, Store, get_by_hash}

pub data ClientMessage : Type 0 where
  auth : Text → Text → ClientMessage
  analyze : Text → Text → ℕ → ℕ → Option ℕ → ClientMessage
  cancel : Text → Uuid → ClientMessage
  bestmove : Text → Text → Option ℕ → ClientMessage
  subscribe unsubscribe : Text → List Text → ClientMessage
  ping : Text → ClientMessage

-- The messages that a session and its tasks send.
pub data ServerMessage : Type 0 where
  auth_result : Text → Bool → Option Text → ServerMessage
  progress : Uuid → ℕ → ℕ → Option Evaluation → List PrincipalVariation → ℕ → ServerMessage
  complete : Text → AnalysisResult → ServerMessage
  was_cancelled : Uuid → ServerMessage
  best_move_result : Text → BestMoveResponse → ServerMessage
  subscribed : Text → List Text → ServerMessage
  error_message : Option Text → ℕ → Text → ServerMessage
  pong : Text → ServerMessage

pub data Task : Type 0 where
  analysis : Text → AnalysisRequest → Task
  best_move : Text → BestMoveRequest → Task

-- `sent`, `spawned` and `cancelled` record what the session did, the newest last.
pub record WsSession : Type 0 where
  pub session_id : Uuid
  pub authenticated : Bool
  pub active_analyses : Map Uuid (Unit {0})
  pub subscriptions : Map Text (Unit {0})
  pub max_analyses : ℕ
  pub sent : List ServerMessage
  pub spawned : List Task
  pub cancelled : List Uuid

unfoldable pub new : Uuid → ℕ → WsSession
new id max = record {
  session_id = id;
  authenticated = false;
  active_analyses = [];
  subscriptions = [];
  max_analyses = max;
  sent = [];
  spawned = [];
  cancelled = [];
}

abbrev pub send : ServerMessage → WsSession → WsSession
send m s = record s { sent = s.sent ++ m ∷ [] }

abbrev pub spawn : Task → WsSession → WsSession
spawn t s = record s { spawned = s.spawned ++ t ∷ [] }

unfoldable pub extract_id : ClientMessage → Option Text
extract_id (auth id _) = some id
extract_id (analyze id _ _ _ _) = some id
extract_id (cancel id _) = some id
extract_id (bestmove id _ _) = some id
extract_id (subscribe id _) = some id
extract_id (unsubscribe id _) = some id
extract_id (ping id) = some id

abbrev pub requested : Uuid → Text → ℕ → ℕ → Option ℕ → AnalysisRequest
requested id fen depth multipv none = with_multipv multipv (with_depth depth (new_request id fen))
requested id fen depth multipv (some ms) =
    with_movetime ms (with_multipv multipv (with_depth depth (new_request id fen)))

-- `analysis_id` is the random identifier of the request.
unfoldable pub handle_analyze : Uuid → Text → Text → ℕ → ℕ → Option ℕ → WsSession → WsSession
handle_analyze analysis_id id fen depth multipv movetime s =
    if leb s.max_analyses (length s.active_analyses)
    then send (error_message (some id) 429 (text "too many concurrent analyses")) s
    else spawn (analysis id (requested analysis_id fen depth multipv movetime))
        (record s { active_analyses = insert analysis_id tt s.active_analyses })

unfoldable pub handle_cancel : Uuid → WsSession → WsSession
handle_cancel analysis_id s =
    if contains_key analysis_id s.active_analyses
    then record s {
      active_analyses = remove analysis_id s.active_analyses;
      cancelled = s.cancelled ++ analysis_id ∷ [];
    }
    else s

abbrev pub move_requested : Text → Option ℕ → BestMoveRequest
move_requested fen none = new_best_move_request fen
move_requested fen (some ms) = record (new_best_move_request fen) { movetime = some ms }

unfoldable pub handle_bestmove : Text → Text → Option ℕ → WsSession → WsSession
handle_bestmove id fen movetime s = spawn (best_move id (move_requested fen movetime)) s

abbrev pub insert_all : List Text → Map Text (Unit {0}) → Map Text (Unit {0})
insert_all [] m = m
insert_all (t ∷ ts) m = insert_all ts (insert t tt m)

abbrev pub remove_all : List Text → Map Text (Unit {0}) → Map Text (Unit {0})
remove_all [] m = m
remove_all (t ∷ ts) m = remove_all ts (remove t m)

unfoldable pub handle_subscribe : Text → List Text → WsSession → WsSession
handle_subscribe id topics s =
    send (subscribed id topics) (record s { subscriptions = insert_all topics s.subscriptions })

unfoldable pub handle_unsubscribe : List Text → WsSession → WsSession
handle_unsubscribe topics s = record s { subscriptions = remove_all topics s.subscriptions }

-- The arms of `handle_message` behind the check.
unfoldable pub handle_authenticated : Uuid → ClientMessage → WsSession → WsSession
unfolding handle_analyze handle_cancel handle_bestmove handle_subscribe handle_unsubscribe
handle_authenticated fresh (analyze id fen depth multipv movetime) s =
    handle_analyze fresh id fen depth multipv movetime s
handle_authenticated fresh (cancel id analysis_id) s = handle_cancel analysis_id s
handle_authenticated fresh (bestmove id fen movetime) s = handle_bestmove id fen movetime s
handle_authenticated fresh (subscribe id topics) s = handle_subscribe id topics s
handle_authenticated fresh (unsubscribe id topics) s = handle_unsubscribe topics s
handle_authenticated fresh (auth _ _) s = s
handle_authenticated fresh (ping _) s = s

-- The arms that every session has, then the check.
unfoldable pub handle_other : Uuid → ClientMessage → WsSession → WsSession
unfolding handle_authenticated extract_id
handle_other fresh m s =
    if not s.authenticated
    then send (error_message (extract_id m) 401 (text "not authenticated")) s
    else handle_authenticated fresh m s

-- How an analysis ended: what the task does with its session then.
unfoldable pub analysis_ended : Text → Uuid → Result AnalysisResult → WsSession → WsSession
analysis_ended id analysis_id r s =
    let ended = record s { active_analyses = remove analysis_id s.active_analyses } in
    elim r [
      | ok result ↦ send (complete id result) ended
      | err e ↦ elim e [
        | analysis_cancelled ↦ send (was_cancelled analysis_id) ended
        | other ↦ send (error_message (some id) 500 (display other)) ended
      ]
    ]

unfoldable pub cancel_all : WsSession → WsSession
cancel_all s = record s { active_analyses = []; cancelled = s.cancelled ++ ids s.active_analyses }
  where
    ids : Map Uuid (Unit {0}) → List Uuid
    ids [] = []
    ids ((id, _) ∷ m) = id ∷ ids m

-- The token's text, with or without the prefix.
abbrev pub raw_or : Text → Option Text → Text
raw_or token none = token
raw_or token (some raw) = raw

module _ (codec : Codec) (c : Crypto) where
  -- With the store's answer: a valid token authenticates, anything else is refused.
  unfoldable pub auth_with : DateTime → Text → Result (Option ApiToken) → WsSession → WsSession
  auth_with now id (ok (some t)) s =
      if is_valid now t
      then send (auth_result id true none) (record s { authenticated = true })
      else send (auth_result id false (some (text "invalid or expired token"))) s
  auth_with now id (ok none) s =
      send (auth_result id false (some (text "invalid or expired token"))) s
  auth_with now id (err e) s =
      send (auth_result id false (some (text "invalid or expired token"))) s

  unfoldable pub handle_auth :
      TokenManager c → DateTime → Text → Text → WsSession → Store codec → WsSession × Store codec
  unfolding auth_with
  handle_auth m now id token s st =
      let raw = raw_or token (strip_prefix token_prefix token) in
      let (r, st') = get_by_hash codec (hash_token c m raw) st in (auth_with now id r s, st')

  unfoldable pub handle_message :
      TokenManager c
      → DateTime
      → Uuid
      → ClientMessage
      → WsSession
      → Store codec
      → WsSession × Store codec
  unfolding handle_auth handle_other
  handle_message m now fresh (auth id token) s st = handle_auth m now id token s st
  handle_message m now fresh (ping id) s st = (send (pong id) s, st)
  handle_message m now fresh other s st = (handle_other fresh other s, st)
