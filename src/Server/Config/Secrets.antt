-- ===== src/Server/Config/Secrets.antt =====
-- What a loaded configuration signs tokens with, and where its peers come from.
use ironfish.Base.{
  sym, false, Option, none, some, Text, text, text_eq, text_eqb_iff, ◌≡◌, ◌≢◌, ◌∙◌, ap, refl, inl,
  inr, Option-cases, arith,
}
use ironfish.Core.Cluster.{SocketAddr}
use ironfish.Server.Config.{
  Config, AuthConfig, NodeConfig, Env, or_else, insecure_secret, default_token_secret,
}
use ironfish.Server.Config.Sections.{AuthSection, File, Source, missing, unreadable, decoded}
use ironfish.Server.Config.Load.{
  auth_with, read_auth, default_auth, assemble, read_file, default_config, load, no_auth,
  no_sections, section,
}

-- The secret is written in the file.
abbrev pub WrittenIn : Source → Text → Type 0
WrittenIn missing secret = ⊥
WrittenIn (unreadable e) secret = ⊥
WrittenIn (decoded f) secret =
    (s : AuthSection) × (f.auth ≡ some s) × (s.token_secret ≡ some secret)

module _ (env : Env) (parse : Text → Option SocketAddr) where
  default_token_secret-release :
      (secret : Text) → default_token_secret false env ≡ some secret → secret ≢ insecure_secret
  unfolding default_token_secret
  default_token_secret-release secret e p = ground (
    arith,
    e,
    p,
    text_eqb_iff (or_else insecure_secret (env (text "IRONFISH_TOKEN_SECRET"))) insecure_secret,
  )

  auth_with-secret :
      (s : AuthSection) (o : Option Text) (a : AuthConfig)
      → auth_with false env parse s o ≡ some a
      → o ≡ some a.token_secret
  unfolding auth_with
  auth_with-secret s none a e = ground (arith, e)
  auth_with-secret s (some x) a e = ground (arith, e)

  read_auth-written :
      (s : AuthSection) (o : Option Text) (a : AuthConfig)
      → s.token_secret ≡ o
      → read_auth false env parse s ≡ some a
      → a.token_secret ≡ insecure_secret
      → s.token_secret ≡ some insecure_secret
  unfolding read_auth
  read_auth-written s none a f e p = absurd (
      default_token_secret-release a.token_secret
        (auth_with-secret s (default_token_secret false env) a (ground (arith, e, f))) p)
  read_auth-written s (some x) a f e p =
      f ∙ auth_with-secret s (some x) a (ground (arith, e, f)) ∙ ap some p

  assemble-auth :
      (f : File) (node : Option NodeConfig) (auth : Option AuthConfig) (c : Config)
      → assemble false env parse f node auth ≡ some c
      → auth ≡ some c.auth
  unfolding assemble
  assemble-auth f none auth c e = ground (arith, e)
  assemble-auth f (some n) none c e = ground (arith, e)
  assemble-auth f (some n) (some a) c e = ground (arith, e)

  auth_of :
      (f : File) (o : Option AuthSection) (c : Config)
      → f.auth ≡ o
      → read_file false env parse f ≡ some c
      → section (default_auth false env parse) (read_auth false env parse) o ≡ some c.auth
  unfolding read_file
  auth_of f o c q e =
      ap (section (default_auth false env parse) (read_auth false env parse)) (sym q)
      ∙ assemble-auth f _ _ c e

  read_file-written :
      (f : File) (o : Option AuthSection) (c : Config)
      → f.auth ≡ o
      → read_file false env parse f ≡ some c
      → c.auth.token_secret ≡ insecure_secret
      → WrittenIn (decoded f) insecure_secret
  unfolding read_file default_auth
  read_file-written f none c q e p = absurd (
      default_token_secret-release c.auth.token_secret
        (auth_with-secret no_auth (default_token_secret false env) c.auth (auth_of f none c q e)) p)
  read_file-written f (some s) c q e p =
      (s, q, read_auth-written s _ c.auth refl (auth_of f (some s) c q e) p)

  no_file-written :
      (c : Config) → default_config false env parse ≡ some c → c.auth.token_secret ≢ insecure_secret
  unfolding default_config
  no_file-written c e p =
      let (_, q, _) = read_file-written no_sections none c refl e p in ground (arith, q)

  from_source :
      (files : Text → Source) (c : Config) (source : Source)
      → files (or_else (text "config/default.toml") (env (text "IRONFISH_CONFIG"))) ≡ source
      → load false env parse files ≡ some (some c)
      → c.auth.token_secret ≡ insecure_secret
      → WrittenIn source insecure_secret
  unfolding load
  from_source files c missing q e p = elim (Option-cases (default_config false env parse)) [
    | inl f ↦ ground (arith, e, q, f)
    | inr (c', f) ↦ absurd (no_file-written c (ground (arith, e, q, f)) p)
  ]
  from_source files c (unreadable x) q e p = ground (arith, e, q)
  from_source files c (decoded f) q e p = elim (Option-cases (read_file false env parse f)) [
    | inl g ↦ ground (arith, e, q, g)
    | inr (c', g) ↦ read_file-written f _ c refl (ground (arith, e, q, g)) p
  ]

  -- A release build that loads a configuration with the insecure default secret has read that
  -- secret in the `auth` section of its file: neither a missing file, section or field nor the
  -- variable IRONFISH_TOKEN_SECRET gives it.
  pub load-WrittenIn :
      (files : Text → Source) (c : Config)
      → load false env parse files ≡ some (some c)
      → c.auth.token_secret ≡ insecure_secret
      → WrittenIn
          (files (or_else (text "config/default.toml") (env (text "IRONFISH_CONFIG"))))
          insecure_secret
  load-WrittenIn files c e p = from_source files c _ refl e p
