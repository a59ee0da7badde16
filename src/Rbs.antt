-- ===== src/Rbs.antt =====
-- crates/itaruby_semantic/src/rbs_comment.rs: the signature of a `#:` comment. The `Vec<RbsTy>` of a
-- generic type or a union is the list type `RbsTys`.
pub mod Outcome
pub mod Scan
pub mod Parser
pub mod Comment
pub mod Printer
mod Tests
use itaruby.Base.{Bool, List, Text}

mutual
  pub data RbsTy : Type 0 where
    simple : Text → RbsTy
    generic : Text → RbsTys → RbsTy
    nilable : RbsTy → RbsTy
    union : RbsTys → RbsTy

  pub data RbsTys : Type 0 where
    end : RbsTys
    arg : RbsTy → RbsTys → RbsTys

pub data RbsParam : Type 0 where
  required : RbsTy → RbsParam
  optional : RbsTy → RbsParam
  -- the name, the type, and whether it is required
  keyword : Text → RbsTy → Bool → RbsParam

pub record RbsSig : Type 0 where
  pub params : List RbsParam
  pub ret : RbsTy
  pub type_params : List Text
