-- ===== src/Core/Data.antt =====
-- crates/itaruby_semantic/src/core.rs: the data of the tables of the core methods.
use itaruby.Base.{ℕ, List, Option, Text}

pub data CoreClass : Type 0 where
  integer float str sym array hash nil bool object : CoreClass

pub data CoreRet : Type 0 where
  int float str sym bool nil self_same elem key_array val_array str_array unknown : CoreRet

-- `max_args` is `none` if there is no upper bound.
pub record CoreMethod : Type 0 where
  pub min_args : ℕ
  pub max_args : Option ℕ
  pub ret : CoreRet

abbrev pub method : ℕ → Option ℕ → CoreRet → CoreMethod
method min_args max_args ret = record { min_args = min_args; max_args = max_args; ret = ret }

-- An arm of a `match` on the name: the names and what they give.
pub data Arm : Type 0 where
  arm : List Text → CoreMethod → Arm
