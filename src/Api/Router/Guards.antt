-- ===== src/Api/Router/Guards.antt =====
-- Which requests reach which handlers.
use ironfish.Base.{
  Bool, true, false, not, ◌&&◌, none, some, List, [], ◌∷◌, ◌++◌, Text, text, text_eq, nat_eqb, any,
  All, In, starts_with, strip_prefix, if◌then◌else◌, ◌≡◌, refl, sym, inl, inr, Bool-cases,
  Option-cases, arith, subst, strip_prefix_iff,
}
use ironfish.Auth.Middleware.{Request, is_public_path, is_admin_path}
use ironfish.Api.Router.{
  Verb, get, post, delete, other, Handler, analyze, get_analysis, best_move, metrics,
  cluster_status, cluster_join, cluster_leave, list_tokens, create_token, revoke_token,
  graphql_handler, Route, routes, method_of, find_route, pick, head, same_verb, route,
}

-- The part of a pattern before its parameter.
abbrev pub literal : Text → Text
literal [] = []
literal (ch ∷ p) = if nat_eqb ch b'{' then [] else ch ∷ literal p

abbrev pub has_parameter : Text → Bool
has_parameter p = any (nat_eqb b'{') p

-- `axum`'s matching: a pattern without a parameter matches itself alone, and any pattern only what
-- starts with its literal part.
pub record Matching : Type 0 where
  pub matches : Text → Text → Bool
  pub exact : (p path : Text) → has_parameter p ≡ false → matches p path ≡ true → path ≡ p
  pub prefixed : (p path : Text) → matches p path ≡ true → starts_with path (literal p) ≡ true

-- What a handler asks of its requests.
pub data Access : Type 0 where
  open_access token_access admin_access : Access

abbrev pub access : Handler → Access
access analyze = token_access
access get_analysis = token_access
access best_move = token_access
access metrics = token_access
access graphql_handler = token_access
access cluster_status = admin_access
access cluster_join = admin_access
access cluster_leave = admin_access
access list_tokens = admin_access
access create_token = admin_access
access revoke_token = admin_access
access _ = open_access

abbrev pub at : Text → Verb → Request
at path verb = record {
  path = path;
  method = method_of verb;
  admin_key = none;
  authorization = none;
}

-- Whether the layer asks for what a handler with this access wants, on a path and a verb.
abbrev pub stands : Access → Text → Verb → Bool
stands open_access path verb = true
stands token_access path verb =
    not (is_public_path (at path verb)) && not (is_admin_path (at path verb))
stands admin_access path verb = not (is_public_path (at path verb)) && is_admin_path (at path verb)

abbrev stand : Text → Verb → List (Verb × Handler) → Bool
stand path verb [] = true
stand path verb ((v, h) ∷ ms) =
    (if same_verb v verb then stands (access h) path verb else true) && stand path verb ms

abbrev placed : Route → Bool
placed r =
    stand r.pattern get r.methods
    && stand r.pattern head r.methods
    && stand r.pattern post r.methods
    && stand r.pattern delete r.methods
    && stand r.pattern other r.methods

stand-pick :
    (path : Text) (verb : Verb) (ms : List (Verb × Handler)) (h : Handler)
    → stand path verb ms ≡ true
    → pick verb ms ≡ some h
    → stands (access h) path verb ≡ true
unfolding pick
stand-pick path verb [] h e p = ground (arith, p)
stand-pick path verb ((v, k) ∷ ms) h e p = elim (Bool-cases (same_verb v verb)) [
  | inl q ↦
      let same : k ≡ h = ground (arith, p, q) in
      subst (λ z. stands (access z) path verb ≡ true) same (ground (arith, e, q))
  | inr q ↦ stand-pick path verb ms h (ground (arith, e, q)) (ground (arith, p, q))
]

placed-stand : (r : Route) (verb : Verb) → placed r ≡ true → stand r.pattern verb r.methods ≡ true
placed-stand r get e = ground (arith, e)
placed-stand r head e = ground (arith, e)
placed-stand r post e = ground (arith, e)
placed-stand r delete e = ground (arith, e)
placed-stand r other e = ground (arith, e)

abbrev pub RouteOk : Matching → Route → Type 0
RouteOk m r =
    (path : Text) (verb : Verb) (h : Handler)
    → m.matches r.pattern path ≡ true
    → pick verb r.methods ≡ some h
    → stands (access h) path verb ≡ true

exact-RouteOk :
    (m : Matching) (r : Route) → has_parameter r.pattern ≡ false → placed r ≡ true → RouteOk m r
exact-RouteOk m r e p path verb h q k =
    subst (λ z. stands (access h) z verb ≡ true) (sym (m.exact r.pattern path e q))
      (stand-pick r.pattern verb r.methods h (placed-stand r verb p) k)

pub find_route-some :
    (matches : Text → Text → Bool) (path : Text) (rs : List Route) (r : Route)
    → find_route matches path rs ≡ some r
    → In r rs × (matches r.pattern path ≡ true)
unfolding find_route
find_route-some matches path [] r e = ground (arith, e)
find_route-some matches path (x ∷ rs) r e = elim (Bool-cases (matches x.pattern path)) [
  | inl q ↦
      let same : x ≡ r = ground (arith, e, q) in
      (inl (sym same), subst (λ (z : Route). matches z.pattern path ≡ true) same q)
  | inr q ↦ let (i, f) = find_route-some matches path rs r (ground (arith, e, q)) in (inr i, f)
]

starts_with-rest : (path p : Text) → starts_with path p ≡ true → (r : Text) × (path ≡ p ++ r)
starts_with-rest path p e = elim (Option-cases (strip_prefix p path)) [
  | inl q ↦ ground (arith, e, q)
  | inr (r, q) ↦ (r, (strip_prefix_iff p path r).0 q)
]

-- A path that starts like this is neither public nor an admin path.
analyze_id-stands :
    (path : Text) (verb : Verb)
    → starts_with path (text "/v1/analyze/") ≡ true
    → stands token_access path verb ≡ true
unfolding is_public_path is_admin_path strip_prefix
analyze_id-stands path verb e =
    let (r, q) = starts_with-rest path (text "/v1/analyze/") e in rw q refl

tokens_id-stands :
    (path : Text) (verb : Verb)
    → starts_with path (text "/_admin/tokens/") ≡ true
    → stands admin_access path verb ≡ true
unfolding is_public_path is_admin_path strip_prefix
tokens_id-stands path verb e =
    let (r, q) = starts_with-rest path (text "/_admin/tokens/") e in rw q refl

analyze_id-RouteOk :
    (m : Matching) → RouteOk m (route (text "/v1/analyze/{id}") ((get, get_analysis) ∷ []))
unfolding pick
analyze_id-RouteOk m path get h q k =
    ground (arith, k, analyze_id-stands path get (m.prefixed _ path q))
analyze_id-RouteOk m path head h q k =
    ground (arith, k, analyze_id-stands path head (m.prefixed _ path q))
analyze_id-RouteOk m path post h q k = ground (arith, k)
analyze_id-RouteOk m path delete h q k = ground (arith, k)
analyze_id-RouteOk m path other h q k = ground (arith, k)

tokens_id-RouteOk :
    (m : Matching) → RouteOk m (route (text "/_admin/tokens/{id}") ((delete, revoke_token) ∷ []))
unfolding pick
tokens_id-RouteOk m path delete h q k =
    ground (arith, k, tokens_id-stands path delete (m.prefixed _ path q))
tokens_id-RouteOk m path get h q k = ground (arith, k)
tokens_id-RouteOk m path head h q k = ground (arith, k)
tokens_id-RouteOk m path post h q k = ground (arith, k)
tokens_id-RouteOk m path other h q k = ground (arith, k)

pub routes-RouteOk : (m : Matching) → All (RouteOk m) routes
unfolding routes is_public_path is_admin_path strip_prefix
routes-RouteOk m =
    let e : (r : Route) → has_parameter r.pattern ≡ false → placed r ≡ true → RouteOk m r =
      exact-RouteOk m in
    (
      e _ refl refl,
      (
        analyze_id-RouteOk m,
        (
          e _ refl refl,
          (
            e _ refl refl,
            (
              e _ refl refl,
              (
                e _ refl refl,
                (
                  e _ refl refl,
                  (
                    e _ refl refl,
                    (
                      e _ refl refl,
                      (
                        e _ refl refl,
                        (
                          tokens_id-RouteOk m,
                          (e _ refl refl, (e _ refl refl, (e _ refl refl, tt))),
                        ),
                      ),
                    ),
                  ),
                ),
              ),
            ),
          ),
        ),
      ),
    )
