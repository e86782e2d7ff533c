-- ===== src/Server/Startup/Ready.antt =====
-- What a server that starts has done, and why one does not start.
use mathlib.Core.Path.{subst}
use liaozhai.Auth.External.{Argon2, Database, UuidText}
use liaozhai.Auth.RateLimiter.{Instant, IpAddr, get, is_throttled}
use liaozhai.Auth.Store.{open_store}
use liaozhai.Common.{
  All, Bool-cases, List, Text, [], ap, arith, codes, false, inl, inr, leb, length, refl, some, sym,
  ℕ, ◌++◌, ◌<◌, ◌∙◌, ◌∷◌, ◌≡◌, ◌≤◌,
}
use liaozhai.Core.Constants.{default_bind_address, default_max_connections, default_port}
use liaozhai.Core.Error.{bind-ok, map_err, map_err-ok, ok, ok-inj}
use liaozhai.Server.Config.{
  AppConfig, FileKeys, Overrides, ServerKeys, argon2_params, displayed, fill_config, load,
  load-precedence, or_else, own_chain, own_text,
}
use liaozhai.Server.Listener.{ListenEvent, Listener, accept_loop, accept_loop-bounds, new_listener}
use liaozhai.Server.Startup.{
  Environment, Started, address_of, limiter_of, new_semaphore, run_command, run_listener, stage-ok,
}
use liaozhai.Text.Decimal.{to_string}
use liaozhai.Worlds.Metadata.{WorldEntryDto, WorldMetadata}
use liaozhai.Worlds.Registry.{
  WorldRegistry, load_from_toml, new_registry, parse_worlds_toml, refuse_empty, registry_len,
  world_error,
}
use liaozhai.Worlds.Registry.Valid.{Distinct, IsFilled, parse_worlds_toml-IsFilled, worlds_of}

-- The worlds are those of the file at a path: what it holds is read and decoded to entries that are
-- filled and distinct, at least one, and each gives a world, in their order.
pub record IsCatalogue (env : Environment) (path : Text) (r : WorldRegistry) : Type 0 where
  pub content : Text
  pub entries : List WorldEntryDto
  pub is_read : env.read_file path ≡ ok content
  pub decoded : env.worlds_from_toml content ≡ ok entries
  pub filled : All IsFilled entries
  pub distinct : Distinct entries
  pub worlds : r.worlds ≡ worlds_of env.fresh 0 entries
  pub some_world : 0 < registry_len r

refuse_empty-ok :
    (path : Text) (ws : List WorldMetadata) (r : WorldRegistry)
    → refuse_empty path ws ≡ ok r
    → (r.worlds ≡ ws) × (0 < registry_len r)
refuse_empty-ok path [] r h = ground arith
refuse_empty-ok path (w ∷ ws) r h =
    let same : new_registry (w ∷ ws) ≡ r = cc in
    (ap (λ x. x.worlds) (sym same), rw (← same) (ground arith))

load_from_toml-IsCatalogue :
    (env : Environment) (path : Text) (r : WorldRegistry)
    → load_from_toml env.fresh env.worlds_from_toml env.read_file path ≡ ok r
    → IsCatalogue env path r
unfolding load_from_toml parse_worlds_toml
load_from_toml-IsCatalogue env path r h =
    let reading = world_error (codes "reading ") path in
    let (content, is_read, parsed) = bind-ok (map_err reading (env.read_file path)) _ r h in
    let parse = parse_worlds_toml env.fresh env.worlds_from_toml content in
    let parsing = world_error (codes "parsing ") path in
    let (ws, checked, last) = bind-ok (map_err parsing parse) _ r parsed in
    let ok_ws = map_err-ok parsing parse ws checked in
    let (es, decoded, _) = bind-ok (env.worlds_from_toml content) _ ws ok_ws in
    let (filled, distinct, its) =
      parse_worlds_toml-IsFilled env.fresh env.worlds_from_toml content es decoded ws ok_ws in
    let (same, some_world) = refuse_empty-ok path ws r last in
    record {
      content = content;
      entries = es;
      is_read = map_err-ok reading (env.read_file path) content is_read;
      decoded = decoded;
      filled = filled;
      distinct = distinct;
      worlds = same ∙ its;
      some_world = some_world;
    }

-- A semaphore that was made has the permits that were asked for, and they are not too many.
new_semaphore-ok :
    (max_permits permits : ℕ) (l : Listener)
    → new_semaphore max_permits permits ≡ ok l
    → (l ≡ new_listener permits) × (permits ≤ max_permits)
unfolding new_semaphore
new_semaphore-ok max_permits permits l h = elim (Bool-cases (leb permits max_permits)) [
  | inl enough ↦ (sym (ok-inj (sym (rw enough refl) ∙ h)), ground arith)
  | inr many ↦ ground arith
]

module _ (db : Database) (kdf : Argon2) (uuids : UuidText) (env : Environment) where
  -- What a server has done that was started with a configuration.
  record IsReady (cfg : AppConfig) (salt : ℕ) (s : Started db kdf uuids) : Type 0 where
    pub opened :
        open_store db kdf uuids cfg.auth.db_path (argon2_params cfg.auth) salt
        ≡ ok s.context.account_store
    pub catalogue : IsCatalogue env cfg.worlds.registry_path s.context.world_registry
    pub permits : cfg.server.max_connections ≤ env.max_permits
    pub bound : env.bind_listener (address_of cfg.server) ≡ ok tt
    pub limiter : s.context.rate_limiter ≡ limiter_of cfg.auth
    pub attempts : s.context.max_login_attempts ≡ cfg.auth.max_login_attempts
    pub listener : s.listener ≡ new_listener cfg.server.max_connections

  run_listener-IsReady :
      (cfg : AppConfig) (salt : ℕ) (s : Started db kdf uuids)
      → run_listener db kdf uuids env cfg salt ≡ ok s
      → IsReady cfg salt s
  unfolding run_listener
  run_listener-IsReady cfg salt s h =
      let (store, opened, rest) =
        stage-ok (codes "opening account store") displayed
          (open_store db kdf uuids cfg.auth.db_path (argon2_params cfg.auth) salt) _ s h in
      let load_worlds =
        load_from_toml env.fresh env.worlds_from_toml env.read_file cfg.worlds.registry_path in
      let (registry, loaded, rest') =
        stage-ok (codes "loading world registry") displayed load_worlds _ s rest in
      let (listener, made, rest'') =
        bind-ok (new_semaphore env.max_permits cfg.server.max_connections) _ s rest' in
      let (fresh_permits, few) =
        new_semaphore-ok env.max_permits cfg.server.max_connections listener made in
      let (tt, bound, last) =
        stage-ok (codes "binding TCP listener to " ++ address_of cfg.server) own_text
          (env.bind_listener (address_of cfg.server)) _ s rest'' in
      let e = ok-inj last in
      record {
        opened = opened ∙ ap (λ x. ok x.context.account_store) e;
        catalogue =
            subst (IsCatalogue env cfg.worlds.registry_path) (ap (λ x. x.context.world_registry) e)
              (load_from_toml-IsCatalogue env cfg.worlds.registry_path registry loaded);
        permits = few;
        bound = bound;
        limiter = ap (λ x. x.context.rate_limiter) (sym e);
        attempts = ap (λ x. x.context.max_login_attempts) (sym e);
        listener = ap (λ x. x.listener) (sym e) ∙ fresh_permits;
      }

  -- A server that is started with a file, read and parsed with a table `server`, has bound the address
  -- and the port of the command line if they are given there, else those of the file, else the
  -- defaults. It offers the worlds of the file at the path that the configuration gives, or at the
  -- default path: all of them, in their order, and its entries are filled and distinct, at least one.
  -- It throttles no one yet. The file's limit of connections, or the default one, is not above what a
  -- semaphore takes, and whatever comes and ends from then on, it never serves more connections than
  -- that limit.
  pub run_command-IsCatalogue :
      (path contents : Text) (keys : FileKeys) (file : ServerKeys) (o : Overrides) (salt : ℕ)
      (s : Started db kdf uuids) (now : Instant) (ip : IpAddr) (es : List ListenEvent)
      → env.read_file path ≡ ok contents
      → env.config_from_toml contents ≡ ok keys
      → keys.server ≡ some file
      → run_command db kdf uuids env (some path) o salt ≡ ok s
      → (env.bind_listener (
            or_else o.bind_address (or_else file.bind_address default_bind_address)
            ++ (codes ":" ++ to_string (or_else o.port (or_else file.port default_port))))
          ≡ ok tt)
        × IsCatalogue env (fill_config keys).worlds.registry_path s.context.world_registry
        × ((is_throttled s.context.rate_limiter now ip).1 ≡ false)
        × (or_else file.max_connections default_max_connections ≤ env.max_permits)
        × (length (accept_loop s.listener es).active
            ≤ or_else file.max_connections default_max_connections)
  unfolding run_command is_throttled get
  run_command-IsCatalogue path contents keys file o salt s now ip es r p k h =
      let (cfg, loaded, h') =
        stage-ok (codes "loading configuration") own_chain
          (load env.read_file env.config_from_toml (some path) o) _ s h in
      let (runtime, made, started) =
        stage-ok (codes "creating tokio runtime") own_text env.new_runtime
          (λ u. run_listener db kdf uuids env cfg salt) s h' in
      let (cfg', loaded', port, address, auth, max_connections, worlds) =
        load-precedence env.read_file env.config_from_toml path contents keys file o r p k in
      let same : cfg' ≡ cfg = ok-inj (sym loaded' ∙ loaded) in
      let ready = run_listener-IsReady cfg salt s started in
      let served = (accept_loop-bounds cfg.server.max_connections es).1 in
      (
        rw (← address, ← port, same) ready.bound,
        subst (λ w. IsCatalogue env w.registry_path s.context.world_registry)
            (ap (λ x. x.worlds) (sym same) ∙ worlds) ready.catalogue,
        rw ready.limiter refl,
        rw (← max_connections, same) ready.permits,
        rw (ready.listener, ← max_connections, same) served,
      )
