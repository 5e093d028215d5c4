-- ===== src/Cli/Examples.antt =====
-- A client that lists the tokens of a server with an admin key.
use ironfish.Base.{Bool, [], ◌∷◌, Text, text, text_eq, ◌==◌}
use ironfish.Api.Router
use ironfish.Api.Router.{Route, answered, pick}
use ironfish.Cli.{ClientRequest, no_body}

abbrev same_path : Text → Text → Bool
same_path pattern path = pattern == path

abbrev listing : ClientRequest
listing = record { verb = Router.get; path = text "/_admin/tokens"; body = no_body }

abbrev tokens_route : Route
tokens_route = record {
  pattern = text "/_admin/tokens";
  methods = (Router.get, Router.list_tokens) ∷ (Router.post, Router.create_token) ∷ [];
}
