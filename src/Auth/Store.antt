-- ===== src/Auth/Store.antt =====
-- crates/ironfish-auth/src/store.rs: the token store over two trees of a sled database. JSON and
-- sled are not of this repository: a token's encoding is an argument, and each call of sled may
-- fail, as the list `faults` says, with nothing done.
pub mod Laws
pub mod Revocation
pub mod Failures
pub mod Refinement
use ironfish.Base.{
  ℕ, Bool, true, false, Option, none, some, List, [], ◌∷◌, Text, text_eq, nat_eq, Map, get as find,
  insert, remove, ◌≡◌,
}
use ironfish.Core.Error.{Error, storage, Result, ok, err}
use ironfish.Core.Cluster.{DateTime}
use ironfish.Core.Token.{Uuid, ApiToken}

-- `serde_json` on tokens: every token has an encoding, and decoding gives it back.
pub record Codec : Type 1 where
  pub Bytes : Type 0
  pub to_vec : ApiToken → Bytes
  pub from_slice : Bytes → Result ApiToken
  pub round_trip : (t : ApiToken) → from_slice (to_vec t) ≡ ok t

-- `faults` scripts the coming calls of sled: `some` message is an error. An empty script is a
-- database with no more errors.
pub record SledTokenStore (Bytes : Type 0) : Type 0 where
  pub tokens_tree : Map Uuid Bytes
  pub hash_index : Map Text Uuid
  pub faults : List (Option Text)

-- A fallible step on a state: what it returns, and the state after it.
abbrev pub M : Type 0 → Type 0 → Type 0
M S A = S → Result A × S

abbrev pub continue : {S A B : Type 0} → Result A × S → (A → S → Result B × S) → Result B × S
continue (ok a, s) f = f a s
continue (err e, s) f = (err e, s)

infixl 5 ◌>>=◌ ◌>>◌
abbrev ◌>>=◌ : {S A B : Type 0} → M S A → (A → M S B) → M S B
(m >>= f) s = continue (m s) f

abbrev ◌>>◌ : {S B : Type 0} → M S (Unit {0}) → M S B → M S B
(m >> k) s = continue (m s) (λ _. k)

module _ (codec : Codec) where
  open codec use {Bytes, to_vec, from_slice}

  abbrev pub Store : Type 0
  Store = SledTokenStore Bytes

  unfoldable pub empty : Store
  empty = record { tokens_tree = []; hash_index = []; faults = [] }

  abbrev with_faults : List (Option Text) → Store → Store
  with_faults f s = record s { faults = f }

  next_fault : List (Option Text) → Store → Result (Unit {0}) × Store
  next_fault [] s = (ok tt, s)
  next_fault (none ∷ fs) s = (ok tt, with_faults fs s)
  next_fault (some e ∷ fs) s = (err (storage e), with_faults fs s)

  -- A call of sled, mapped to `Error::Storage`.
  sled : M Store (Unit {0})
  unfolding next_fault
  sled s = next_fault s.faults s

  abbrev set_token : ApiToken → M Store (Unit {0})
  set_token t s = (ok tt, record s { tokens_tree = insert t.id (to_vec t) s.tokens_tree })

  abbrev set_hash : ApiToken → M Store (Unit {0})
  set_hash t s = (ok tt, record s { hash_index = insert t.token_hash t.id s.hash_index })

  abbrev decode : Option Bytes → Result (Option ApiToken)
  decode none = ok none
  decode (some d) = elim (from_slice d) [ ok t ↦ ok (some t) | err e ↦ err e ]

  unfoldable pub create : ApiToken → M Store (Unit {0})
  unfolding sled
  create t = do sled; set_token t; sled; set_hash t; sled

  unfoldable pub get : Uuid → M Store (Option ApiToken)
  unfolding sled
  get id = do sled; λ s. (decode (find id s.tokens_tree), s)

  by_id : Option Uuid → M Store (Option ApiToken)
  unfolding get
  by_id none s = (ok none, s)
  by_id (some id) s = get id s

  unfoldable pub get_by_hash : Text → M Store (Option ApiToken)
  unfolding sled by_id
  get_by_hash hash = do sled; λ s. by_id (find hash s.hash_index) s

  unfoldable pub update : ApiToken → M Store (Unit {0})
  unfolding sled
  update t = do sled; set_token t; sled

  unindex : Option ApiToken → M Store (Unit {0})
  unfolding sled
  unindex none s = (ok tt, s)
  unindex (some t) s =
      (sled >> λ s'. (ok tt, record s' { hash_index = remove t.token_hash s'.hash_index })) s

  unfoldable pub delete : Uuid → M Store (Unit {0})
  unfolding sled get unindex
  delete id = do
    t ← get id
    unindex t
    sled
    λ s. (ok tt, record s { tokens_tree = remove id s.tokens_tree })
    sled

  -- The loop of `list`; the iterator's own errors are calls of sled too.
  collect : Map Uuid Bytes → M Store (List ApiToken)
  unfolding sled
  collect [] s = (ok [], s)
  collect ((_, d) ∷ rest) s = continue (sled s) (λ _ s₁.
      continue (from_slice d, s₁) (λ t s₂. continue (collect rest s₂) (λ ts s₃. (ok (t ∷ ts), s₃))))

  unfoldable pub list : M Store (List ApiToken)
  unfolding collect
  list s = collect s.tokens_tree s

  revoke_found : DateTime → Option ApiToken → M Store (Unit {0})
  unfolding update
  revoke_found now none s = (ok tt, s)
  revoke_found now (some t) s = update (record t { revoked = true; last_used_at = some now }) s

  unfoldable pub revoke : DateTime → Uuid → M Store (Unit {0})
  unfolding get revoke_found
  revoke now id = do t ← get id; revoke_found now t
