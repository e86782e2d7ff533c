-- ===== src/Auth/Params.antt =====
-- crates/liaozhai-auth/src/params.rs
use liaozhai.Auth.External.{Argon2}
use liaozhai.Common.{Text, ℕ}
use liaozhai.Core.Constants.{
  default_argon2_memory_cost, default_argon2_parallelism, default_argon2_time_cost,
}
use liaozhai.Core.Error.{Result}

pub record Argon2Params : Type 0 where
  pub m_cost : ℕ
  pub t_cost : ℕ
  pub p_cost : ℕ

abbrev pub new_params : ℕ → ℕ → ℕ → Argon2Params
new_params m_cost t_cost p_cost = record { m_cost = m_cost; t_cost = t_cost; p_cost = p_cost }

abbrev pub test_fast : Argon2Params
test_fast = new_params 256 1 1

abbrev pub default_params : Argon2Params
default_params =
    new_params default_argon2_memory_cost default_argon2_time_cost default_argon2_parallelism

-- `Argon2Params::to_argon2_params`
abbrev pub to_argon2_params : (kdf : Argon2) → Argon2Params → Result Text kdf.Params
to_argon2_params kdf p = kdf.params_new p.m_cost p.t_cost p.p_cost
