-- ===== src/Core/Id.antt =====
-- crates/liaozhai-core/src/id.rs. A UUID of the `uuid` crate is a number below 2 ^ 128; the random
-- ones that `new` draws are arguments of the code that makes them.
use liaozhai.Common.{ℕ}

abbrev pub Uuid : Type 0
Uuid = ℕ

pub record AccountId : Type 0 where
  pub uuid : Uuid

pub record WorldId : Type 0 where
  pub uuid : Uuid

pub record ConnectionId : Type 0 where
  pub uuid : Uuid
