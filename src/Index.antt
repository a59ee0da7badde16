-- ===== src/Index.antt =====
-- crates/itaruby_semantic/src/index.rs: the data of the project index. A hash map is an association
-- list, a hash set a list, and a `SourceFile` the number of a file. Of `ProjectIndex` and of
-- `ClassDef` these are the fields that the modelled operations read or write.
pub mod Names
pub mod Resolve
pub mod Valid
pub mod Ancestors
pub mod Descendants
pub mod Lookup
pub mod Singleton
pub mod Tests
use itaruby.Base.{ℕ, Bool, List, Option, Text}
use itaruby.Types.{ClassId}
use itaruby.Rbs.{RbsSig}

abbrev pub SourceFile : Type 0
SourceFile = ℕ

abbrev pub Span : Type 0
Span = ℕ × ℕ

pub data OpenReason : Type 0 where
  dynamic_superclass method_missing abstract_raise dynamic_mixin_receiver dynamic_mixin_arg :
      OpenReason
  dynamic_attr_arg dynamic_define_method dynamic_alias_method eval_or_send : OpenReason
  unknown_class_body_call class_body_block singleton_class_expr declared_external : OpenReason
  reopened_external unattributed nested_def_owner block_nested_definition : OpenReason
  string_source_defined namespace_only_module ignored_reopening : OpenReason

pub record MethodSig : Type 0 where
  pub required : ℕ
  pub optional : ℕ
  pub rest : Bool
  pub keywords : List (Text × Bool)
  pub kwrest : Bool
  pub sig : Option RbsSig
  pub sorbet_ret : Option Text
  pub arity_unknown : Bool
  pub abstract_stub : Bool
  pub file : SourceFile
  pub def_span : Span
  pub name_span : Span
  pub schema_col_type : Option Text

pub data TableNameDecl : Type 0 where
  literal : Text → TableNameDecl
  dynamic : TableNameDecl

pub record ClassDef : Type 0 where
  pub path : Text
  pub nesting : List Text
  pub is_module : Bool
  pub is_open : Bool
  pub open_reason : Option OpenReason
  pub superclass : Option Text
  pub includes : List Text
  pub prepends : List Text
  pub extends : List Text
  pub methods : List (Text × MethodSig)
  pub singleton_methods : List (Text × MethodSig)
  pub consts : List Text
  pub table_name : Option TableNameDecl

pub record ProjectIndex : Type 0 where
  pub classes : List ClassDef
  pub by_path : List (Text × ClassId)
  pub superclass_nesting : List (ClassId × List Text)
  pub ambiguous_ancestry : List ClassId
  pub subclasses : List (ClassId × List ClassId)
  pub const_aliases : List (Text × (List Text × Text))
  pub mock_singleton_methods : List Text
  pub dynamic_mixin_instance_targets : List ClassId
  pub dynamic_mixin_singleton_targets : List ClassId

-- The result of a lookup: `not_found` claims that the ancestry is closed and has no such method; an
-- open class or an unresolved ancestor makes it `inconclusive`.
pub data MethodLookup : Type 0 where
  found : MethodSig → ClassId → MethodLookup
  not_found inconclusive : MethodLookup
