-- ===== src/Auth/Store/Refinement.antt =====
-- What the token store promises its callers: a map from identifiers to tokens, in which no two
-- tokens have the same hash.
mod Writes
mod Removal
pub mod Steps
use ironfish.Base.{
  true, Option, none, some, List, [], ◌∷◌, Text, nat_eq, ◌==◌, if◌then◌else◌, ◌≡◌, ◌≢◌, ◌↔◌,
}
use ironfish.Core.Error.{Result, ok, err}
use ironfish.Core.Cluster.{DateTime}
use ironfish.Core.Token.{Uuid, ApiToken}
use ironfish.Auth.Store.{Codec, Store, M, create, get, get_by_hash, update, delete, revoke}
use ironfish.Auth.Store.Laws.{Works, IsIndexed}

-- The calls of the trait `TokenStore`, but for `list`.
pub data Call : Type 0 where
  create_token update_token : ApiToken → Call
  get_token delete_token : Uuid → Call
  find_by_hash : Text → Call
  revoke_token : DateTime → Uuid → Call

pub data Answer : Type 0 where
  done : Answer
  token : Option ApiToken → Answer

abbrev pub Tokens : Type 0
Tokens = Uuid → Option ApiToken

abbrev pub no_tokens : Tokens
no_tokens id = none

abbrev pub put : ApiToken → Tokens → Tokens
put t m id = if t.id == id then some t else m id

abbrev pub mark : DateTime → Option ApiToken → Tokens → Tokens
mark now none m = m
mark now (some t) m = put (record t { revoked = true; last_used_at = some now }) m

-- The map after a call.
abbrev pub next : Call → Tokens → Tokens
next (create_token t) m = put t m
next (update_token t) m = put t m
next (get_token id) m = m
next (find_by_hash h) m = m
next (delete_token id) m = λ j. if id == j then none else m j
next (revoke_token now id) m = mark now (m id) m

-- What a caller has to see to: a token is created with an identifier and a hash that no other has,
-- and updated under the hash that it has.
abbrev pub Allowed : Call → Tokens → Type 0
Allowed (create_token t) m =
    (m t.id ≡ none) × ((u : ApiToken) → m u.id ≡ some u → u.token_hash ≢ t.token_hash)
Allowed (update_token t) m = (u : ApiToken) × (m t.id ≡ some u) × (t.token_hash ≡ u.token_hash)
Allowed (get_token id) m = Unit
Allowed (find_by_hash h) m = Unit
Allowed (delete_token id) m = Unit
Allowed (revoke_token now id) m = Unit

-- What the caller gets.
abbrev pub Meets : Call → Tokens → Result Answer → Type 0
Meets (create_token t) m r = r ≡ ok done
Meets (update_token t) m r = r ≡ ok done
Meets (get_token id) m r = r ≡ ok (token (m id))
Meets (find_by_hash h) m r =
    (t : ApiToken) → (r ≡ ok (token (some t))) ↔ ((m t.id ≡ some t) × (t.token_hash ≡ h))
Meets (delete_token id) m r = r ≡ ok done
Meets (revoke_token now id) m r = r ≡ ok done

abbrev pub AllAllowed : List Call → Tokens → Type 0
AllAllowed [] m = Unit
AllAllowed (c ∷ cs) m = Allowed c m × AllAllowed cs (next c m)

abbrev pub AllMeet : List Call → Tokens → List (Result Answer) → Type 0
AllMeet [] m rs = Unit
AllMeet (c ∷ cs) m [] = ⊥
AllMeet (c ∷ cs) m (r ∷ rs) = Meets c m r × AllMeet cs (next c m) rs

abbrev pub answer : {S A : Type 0} → (A → Answer) → Result A × S → Result Answer × S
answer f (ok a, s) = (ok (f a), s)
answer f (err e, s) = (err e, s)

module _ (codec : Codec) where
  -- The store's answer to a call.
  unfoldable pub perform : Call → M (Store codec) Answer
  perform (create_token t) s = answer (λ _. done) (create codec t s)
  perform (update_token t) s = answer (λ _. done) (update codec t s)
  perform (get_token id) s = answer token (get codec id s)
  perform (find_by_hash h) s = answer token (get_by_hash codec h s)
  perform (delete_token id) s = answer (λ _. done) (delete codec id s)
  perform (revoke_token now id) s = answer (λ _. done) (revoke codec now id s)

  unfoldable pub perform_all : List Call → Store codec → List (Result Answer)
  unfolding perform
  perform_all [] s = []
  perform_all (c ∷ cs) s = let (r, s') = perform c s in r ∷ perform_all cs s'

  -- A working store that holds the tokens of the map.
  pub record Implements (s : Store codec) (m : Tokens) : Type 0 where
    pub works : Works codec s
    pub indexed : IsIndexed codec s
    pub agrees : (id : Uuid) → (get codec id s).0 ≡ ok (m id)

  -- A call that meets its specification and leaves a store that implements the map after it.
  abbrev pub IsStep : Call → Store codec → Tokens → Type 0
  IsStep c s m = let (r, s') = perform c s in Meets c m r × Implements s' (next c m)
