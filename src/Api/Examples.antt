-- ===== src/Api/Examples.antt =====
-- Sessions at work.
mod Analyses
pub mod Requests
use ironfish.Base.{true, none, [], ◌∷◌, Text, text, ◌≡◌, refl, ◌↔◌, arith}
use ironfish.Auth.Examples.{plain, crypto, manager, store}
use ironfish.Api.Session.{WsSession, new, auth, analyze, handle_message}
use ironfish.Api.Session.Limits.{
  IsBounded, Proves, handle_message-IsBounded, handle_message-unauthenticated, ask_and_cancel,
  ask_and_cancel_lem,
}

-- A session that is authenticated and runs one analysis of the two that it may.
abbrev session : WsSession
session = record {
  session_id = 1;
  authenticated = true;
  active_analyses = (5, tt) ∷ [];
  subscriptions = [];
  max_analyses = 2;
  sent = [];
  spawned = [];
  cancelled = [];
}

abbrev idle : WsSession
idle = record session { active_analyses = [] }

abbrev fen : Text
fen = text "8/8/8/8/8/8/8/8 w - - 0 1"

handle_message-IsBounded_example :
    IsBounded
      (handle_message plain crypto manager 20 6 (analyze (text "a") fen 20 1 none) session store).0
handle_message-IsBounded_example =
    handle_message-IsBounded plain crypto manager 20 6 (analyze (text "a") fen 20 1 none) session
      store (ground arith)

ask_and_cancel_lem_example : (ask_and_cancel (text "a") fen (7 ∷ 8 ∷ 9 ∷ []) idle).sent ≡ []
ask_and_cancel_lem_example =
    (ask_and_cancel_lem (text "a") fen (7 ∷ 8 ∷ 9 ∷ []) idle refl (ground arith) refl).0
