-- ===== src/Examples/Server.antt =====
-- The theorems on main.rs, and on how it starts the listener, at concrete inputs.
use liaozhai.Auth.Account.{Account, from_row}
use liaozhai.Auth.External.{UuidText}
use liaozhai.Auth.Params.{default_params, test_fast}
use liaozhai.Auth.RateLimiter.{is_throttled}
use liaozhai.Auth.Store.{
  AccountStore, account_of, accounts_of, create_account, create_parent, generate_hash,
  list_accounts, open_store,
}
use liaozhai.Common.{
  Occurs, Text, [], ap, arith, codes, drop, eq_list, false, length, none, refl, replicate, some,
  take, ℕ, ◌++◌, ◌∷◌, ◌≡◌, ◌≢◌, ◌≤◌,
}
use liaozhai.Core.Constants.{
  default_bind_address, default_max_connections, default_max_login_attempts,
  default_shutdown_drain_secs,
}
use liaozhai.Core.Error.{Result, ok}
use liaozhai.Core.Id.{AccountId}
use liaozhai.Examples.Memory.{
  find_row, memory, memory_laws, plain_kdf, plain_uuid_laws, plain_uuids,
}
use liaozhai.Net.Session.{auth_pending, handle_input, new_session}
use liaozhai.Server.Commands.{
  LocalTime, account_line, create_command, create_confirmed, header_line, list_command, listing,
}
use liaozhai.Server.Commands.Columns.{account_line-columns}
use liaozhai.Server.Commands.Created.{create_command-auth_pending}
use liaozhai.Server.Commands.Listed.{create_command-list_command}
use liaozhai.Server.Config.{
  FileKeys, Overrides, ServerKeys, default_worlds, fill_auth, load, load_file,
}
use liaozhai.Server.Listener.{accept, accept_loop, new_listener}
use liaozhai.Server.Startup.{
  Environment, Started, limiter_of, new_semaphore, run_command, run_listener,
}
use liaozhai.Server.Startup.Ready.{IsCatalogue, run_command-IsCatalogue}
use liaozhai.Text.Decimal.{to_string}
use liaozhai.Text.Trim.{is_whitespace, trim, trim_end, trim_start}
use liaozhai.Worlds.Metadata.{WorldEntryDto, new_world}
use liaozhai.Worlds.Registry.{
  check_entries, check_entry, contains, load_from_toml, new_registry, parse_worlds_toml,
}

abbrev server_keys : ServerKeys
server_keys = record {
  bind_address = none;
  port = some 4444;
  max_connections = none;
  shutdown_drain_secs = none;
}

abbrev keys : FileKeys
keys = record {
  server = some server_keys;
  auth = none;
  registry_path = none;
  default_filter = none;
}

abbrev pub overrides : Overrides
overrides = record { port = some 9999; bind_address = none }

abbrev reads : Text → Result Text Text
reads path = ok []

abbrev parses : Text → Result Text FileKeys
parses contents = ok keys

abbrev id_7 : AccountId
id_7 = record { uuid = 7 }

abbrev empty_store : AccountStore memory plain_kdf plain_uuids
empty_store = record { conn = []; params = test_fast; dummy_hash = [] }

-- A password with a space behind it.
abbrev spaced : Text
spaced = b'p' ∷ b' ' ∷ []

abbrev bob : Text
bob = b'b' ∷ []

abbrev bob_account : Account
bob_account = from_row id_7 bob 100 none

abbrev store_with_bob : AccountStore memory plain_kdf plain_uuids
store_with_bob = record empty_store {
  conn =
      record {
        id = 7 ∷ [];
        username = bob;
        password_hash = spaced;
        created_at = 100;
        last_login_at = none;
      }
      ∷ [];
}

commands :
    create_command memory plain_kdf plain_uuids empty_store 0 id_7 100 bob (ok spaced) (ok spaced)
    ≡ ok (bob_account, store_with_bob)
unfolding create_command create_confirmed create_account generate_hash find_row eq_list trim
    trim_start trim_end is_whitespace
commands = refl

spaced-trim : trim spaced ≢ spaced
unfolding trim trim_start trim_end is_whitespace
spaced-trim e = let n = ap length e in omega (arith, n)

create_command-auth_pending_example :
    (create_account memory plain_kdf plain_uuids empty_store 0 id_7 100 (trim bob) spaced
      ≡ ok (bob_account, store_with_bob))
    × (handle_input (new_session (new_registry [])) spaced ≢ auth_pending bob spaced)
create_command-auth_pending_example =
    create_command-auth_pending memory plain_kdf plain_uuids empty_store 0 id_7 100 bob spaced
      (bob_account, store_with_bob) (new_session (new_registry [])) spaced bob commands spaced-trim

-- Times are printed as numbers.
abbrev plain_time : LocalTime
plain_time = record {
  DateTime = ℕ;
  Offset = Unit;
  from_unix_timestamp = λ secs. some secs;
  current_local_offset = none;
  to_offset = λ dt offset. dt;
  format = λ dt. some (dt ∷ []);
}

lists :
    list_command memory plain_kdf plain_uuids plain_time store_with_bob
    ≡ ok (listing plain_time plain_uuids (bob_account ∷ []))
unfolding list_command list_accounts accounts_of account_of
lists = refl

create_command-list_command_example :
    Occurs
      (account_line plain_time plain_uuids (from_row id_7 (trim bob) 100 none))
      (listing plain_time plain_uuids (bob_account ∷ []))
create_command-list_command_example =
    create_command-list_command memory memory_laws plain_kdf plain_uuids plain_uuid_laws plain_time
      empty_store 0 id_7 100 bob spaced spaced (bob_account, store_with_bob)
      (listing plain_time plain_uuids (bob_account ∷ [])) commands lists

-- Identifiers of 36 characters.
abbrev wide_uuids : UuidText
wide_uuids = record { display = λ x. replicate 36 b'0'; parse_str = λ t. ok 0 }

account_line-columns_example :
    (take (length bob_account.username) (drop 37 (account_line plain_time wide_uuids bob_account))
      ≡ bob_account.username)
    × (take 8 (drop 39 header_line) ≡ codes "USERNAME")
account_line-columns_example = account_line-columns plain_time wide_uuids bob_account refl

abbrev pub bog : WorldEntryDto
bog = record { slug = b'b' ∷ []; name = b'B' ∷ []; short = b's' ∷ [] }

-- Every file can be read, and the address can be bound.
abbrev pub machine : Environment
machine = record {
  read_file = reads;
  config_from_toml = parses;
  worlds_from_toml = λ contents. ok (bog ∷ []);
  fresh = λ i. record { uuid = i };
  new_runtime = ok tt;
  max_permits = 1000;
  bind_listener = λ address. ok tt;
}

abbrev pub started : Started memory plain_kdf plain_uuids
started = record {
  context = record {
    account_store = record {
      conn = [];
      params = default_params;
      dummy_hash = codes "dummy_password_for_timing";
    };
    world_registry =
        new_registry (new_world (record { uuid = 0 }) bog.slug bog.name bog.short ∷ []);
    rate_limiter = limiter_of (fill_auth none);
    max_login_attempts = default_max_login_attempts;
  };
  listener = new_listener default_max_connections;
  drain_timeout = default_shutdown_drain_secs;
}

starts :
    run_command memory plain_kdf plain_uuids machine (some (codes "a.toml")) overrides 0
    ≡ ok started
unfolding run_command run_listener new_semaphore load load_file open_store create_parent
    generate_hash load_from_toml parse_worlds_toml check_entries check_entry contains trim
    trim_start trim_end is_whitespace
starts = refl

run_command-IsCatalogue_example :
    (machine.bind_listener (default_bind_address ++ (codes ":" ++ to_string 9999)) ≡ ok tt)
    × IsCatalogue machine default_worlds.registry_path started.context.world_registry
    × ((is_throttled started.context.rate_limiter 50 1).1 ≡ false)
    × (default_max_connections ≤ machine.max_permits)
    × (length (accept_loop started.listener (accept 0 ∷ accept 1 ∷ [])).active
        ≤ default_max_connections)
run_command-IsCatalogue_example =
    run_command-IsCatalogue memory plain_kdf plain_uuids machine (codes "a.toml") [] keys
      server_keys overrides 0 started 50 1 (accept 0 ∷ accept 1 ∷ []) refl refl refl starts
