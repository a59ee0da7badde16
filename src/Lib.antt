-- ===== src/Lib.antt =====
-- A verification of itaruby, a type checker and language server for Ruby.
--
-- The program indexes the classes of a project (crates/itaruby_semantic/src/index.rs), infers the
-- types of expressions from that index and the flow of local variables
-- (crates/itaruby_semantic/src/check.rs, types.rs), and reports a call of a method only when no class
-- that the receiver may have can answer it. Its first invariant is that it never reports what is
-- right: a type that is not known, an open class and an ancestor that is not resolved all silence it.
--
-- The files:
--   Base: Boolean tests, lists, options and maps over the native numbers. A text is the list of its
--     bytes; a hash map is an association list in which `insert` overwrites. Base/Utf8 has UTF-8 and
--     `String::from_utf8_lossy`.
--   Types: `Ty` and `Ty::union` of types.rs. Types/Union holds the meaning and the normal form of
--     unions. A value of a type is given by a reading of the types that are no unions.
--   Flow: `apply_narrow_true`, `apply_narrow_false`, `strip_nil`, `eliminate_union_member`,
--     `join_envs`, `widen_env`, `merge_loop_env` and `spill_block_writes` of check.rs. A store
--     gives each variable its value and agrees with an environment if the values have its types. A
--     loop over a hash map is a loop over a list.
--   Core: the tables of the core methods of core.rs, which Core/Tables and Core/Names list arm by arm
--     in their order, and `core_ret_to_ty` and `check_core_arity` of check.rs, which read them.
--   Rbs: the signature comments of rbs_comment.rs. Rbs/Scan and Rbs/Parser have the methods of `Parser`,
--     which take the input that is left in place of the offset, Rbs/Comment `parse_rbs_comment` and
--     `parse_cast_comment`, to which a text is the list of its characters. Rbs/Printer writes a signature out; it is no code of the repository but
--     what the parser is measured against.
--   Signature: `compatible`, `rbs_to_ty`, `check_sig_args`, `check_arity` and `fold_ivar_writes` of
--     check.rs. Signature/Values has the values that a type stands for.
--   Suggest: `edit_distance`, `closest_const_key` and `closest_name` of check.rs. Suggest/Scripts has
--     the edit scripts whose least length a distance is.
--   Index: `ProjectIndex` of index.rs. Index/Resolve has `intern` and `resolve_const`,
--     Index/Ancestors the resolution of superclasses and `linearize`, Index/Descendants the worklist of
--     `descendant_defines` and `abstract_family_defines`, Index/Lookup `lookup_method` and
--     `super_lookup`, Index/Singleton `lookup_singleton` and the softenings of `not_found`, whose
--     reasons are in Index/Singleton/Reasons; the embedded inventories and the RBI files are tests
--     of names. The lookups take `ancestors` as a parameter, which stands for the one of
--     Index/Ancestors.
--   Server: `percent_encode_path`, `percent_decode` and `normalize_path` of
--     crates/itaruby_server/src/main_loop.rs. A path is the list of its components.
--   Schema: the attributes of crates/itaruby_semantic/src/schema.rs: `derive_table_name`, `col_rbs_ty`
--     and `apply_schema_attributes`.
--   Lines: `LineIndex` of crates/itaruby_syntax/src/lib.rs, with its casts to u32.
--   Cli: `parse_location_arg` and `parse_check_flags` of crates/itaruby/src/main.rs.
--
-- The parts interact: Signature reads the signatures that Rbs parses, resolves their names with Index and
-- compares the types of Types by the chains of Index/Ancestors; Flow gives the types of the arguments.
--
-- Bounds: `ancestors` is bounded in depth, since the resolution of a superclass may ask for the
-- ancestors of the enclosing class, and its inner walk by one more than the number of classes, which
-- is enough since a walk enters a class once. The worklist over the subclasses is bounded by two more
-- than the number of the entries in the subclass map, which is enough since each class's kids are
-- pushed once. The parser of signatures has sixteen units of fuel and eight more for each byte, which
-- is enough since a call reads a byte or calls a rule of a lower rank. `none` stands for a bound that is reached or for a panic on an index out of range.
--
-- Not modelled: the traversals of ruby_prism syntax trees, which are a library's; the salsa database;
-- the message loop of the server and the walks over files, which are input and output; the text of the
-- diagnostics; and the readers of RBI files, of sorbet's sig blocks, of lock files and of
-- schema dumps.
pub mod Base
pub mod Types
pub mod Core
pub mod Flow
pub mod Rbs
pub mod Suggest
pub mod Signature
pub mod Index
pub mod Schema
pub mod Server
pub mod Lines
pub mod Cli
