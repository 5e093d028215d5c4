-- ===== src/Cli.antt =====
-- crates/ironfish-cli: the commands of the client, and the requests that they send to a server. What
-- is printed of the answers is left out.
pub mod Refused
mod Examples
use ironfish.Base.{ℕ, Option, none, some, List, [], ◌∷◌, ◌++◌, Text, text}
use ironfish.Api.Router
use ironfish.Api.Router.{Verb, HttpRequest}

pub data TokenCommands : Type 0 where
  create : Option Text → Option ℕ → TokenCommands
  revoke : Text → TokenCommands
  list : TokenCommands

pub data ClusterCommands : Type 0 where
  init leave status : ClusterCommands
  join : Text → ClusterCommands

pub data NodeCommands : Type 0 where
  info health metrics : NodeCommands

pub data ConfigCommands : Type 0 where
  get_key : Text → ConfigCommands
  set_key : Text → Text → ConfigCommands

pub data AdminCommands : Type 0 where
  leader : AdminCommands
  promote : Text → AdminCommands
  config : ConfigCommands → AdminCommands

pub data Commands : Type 0 where
  cluster : ClusterCommands → Commands
  node : NodeCommands → Commands
  token : TokenCommands → Commands
  admin : AdminCommands → Commands

pub data Body : Type 0 where
  no_body : Body
  join_body : Text → Body
  create_body : Option Text → Option ℕ → Body

-- A request, whose URL is the endpoint with this path behind it. It has no header of its own.
pub record ClientRequest : Type 0 where
  pub verb : Verb
  pub path : Text
  pub body : Body

abbrev request : Verb → Text → Body → Option ClientRequest
request verb path body = some (record { verb = verb; path = path; body = body })

unfoldable pub cluster_request : ClusterCommands → Option ClientRequest
cluster_request init = none
cluster_request (join address) =
    request Router.post (text "/_admin/cluster/join") (join_body address)
cluster_request leave = request Router.post (text "/_admin/cluster/leave") no_body
cluster_request status = request Router.get (text "/_admin/cluster/status") no_body

unfoldable pub node_request : NodeCommands → Option ClientRequest
node_request info = request Router.get (text "/health") no_body
node_request health = request Router.get (text "/health") no_body
node_request metrics = request Router.get (text "/metrics") no_body

unfoldable pub token_request : TokenCommands → Option ClientRequest
token_request (create name expires_in_days) =
    request Router.post (text "/_admin/tokens") (create_body name expires_in_days)
token_request (revoke id) = request Router.delete (text "/_admin/tokens/" ++ id) no_body
token_request list = request Router.get (text "/_admin/tokens") no_body

-- `promote` and `config` only print.
unfoldable pub admin_request : AdminCommands → Option ClientRequest
admin_request leader = request Router.get (text "/_admin/cluster/status") no_body
admin_request (promote node_id) = none
admin_request (config command) = none

-- The request that `execute` sends for a command, if it sends one.
unfoldable pub execute : Commands → Option ClientRequest
unfolding cluster_request node_request token_request admin_request
execute (cluster command) = cluster_request command
execute (node command) = node_request command
execute (token command) = token_request command
execute (admin command) = admin_request command

-- The request as it comes to the server at the endpoint.
abbrev pub received : ClientRequest → HttpRequest
received r = record { path = r.path; verb = r.verb; admin_key = none; authorization = none }

-- What `init`, `promote` and `config` print instead.
unfoldable pub printed : Commands → List Text
printed (cluster init) =
    text "Initializing cluster..." ∷ text "This node is now the cluster leader." ∷ []
printed (admin (promote node_id)) =
    (text "Promoting node " ++ (node_id ++ text " to leader..."))
    ∷ text "Note: This will trigger a new election"
    ∷ []
printed (admin (config (get_key key))) = (text "Config key '" ++ (key ++ text "' not found")) ∷ []
printed (admin (config (set_key key value))) =
    (text "Set config '" ++ (key ++ (text "' = '" ++ (value ++ text "'")))) ∷ []
printed other = []
