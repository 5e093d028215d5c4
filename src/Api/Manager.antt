-- ===== src/Api/Manager.antt =====
-- crates/ironfish-api/src/ws/manager.rs: the sessions that are connected, and their topics.
pub mod Topics
use ironfish.Base.{
  ℕ, Bool, true, false, Option, none, some, List, [], ◌∷◌, Text, text, text_eq, nat_eq, Map, get,
  insert, remove, contains_key, length, leb, if◌then◌else◌,
}
use ironfish.Core.Token.{Uuid}
use ironfish.Api.Session.{ServerMessage}

-- A handle is the topics of its session; its channel is known by the session's identifier.
pub record SessionManager : Type 0 where
  pub sessions : Map Uuid (Map Text (Unit {0}))
  pub max_connections : ℕ

unfoldable pub new : ℕ → SessionManager
new max = record { sessions = []; max_connections = max }

-- `false` is the error `connection limit reached`.
unfoldable pub register : Uuid → SessionManager → SessionManager × Bool
register id m =
    if leb m.max_connections (length m.sessions)
    then (m, false)
    else (record m { sessions = insert id [] m.sessions }, true)

unfoldable pub unregister : Uuid → SessionManager → SessionManager
unregister id m = record m { sessions = remove id m.sessions }

deliveries : Text → ServerMessage → Map Uuid (Map Text (Unit {0})) → List (Uuid × ServerMessage)
deliveries topic message [] = []
deliveries topic message ((id, subs) ∷ rest) =
    let more = deliveries topic message rest in
    if contains_key topic subs then (id, message) ∷ more else more

-- The messages that are offered to the channels.
unfoldable pub broadcast_to_topic :
    Text → ServerMessage → SessionManager → List (Uuid × ServerMessage)
unfolding deliveries
broadcast_to_topic topic message m = deliveries topic message m.sessions

unfoldable pub update_subscriptions : Uuid → Map Text (Unit {0}) → SessionManager → SessionManager
update_subscriptions id subs m =
    if contains_key id m.sessions then record m { sessions = insert id subs m.sessions } else m

unfoldable pub session_count : SessionManager → ℕ
session_count m = length m.sessions
