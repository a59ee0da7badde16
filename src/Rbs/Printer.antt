-- ===== src/Rbs/Printer.antt =====
-- A signature written out the way `parse_rbs_comment` reads it: the repository has no printer, this one
-- is the reference that the parser is measured against. A text is written in front of the given rest.
pub mod Names
pub mod Steps
pub mod Types
pub mod Param
pub mod Params
pub mod Weights
pub mod RoundTrip
use itaruby.Base.{
  ℕ, zero, suc, ◌+◌, ◌<◌, Every, Bool, true, false, ◌||◌, List, [], ◌∷◌, ◌++◌, Text, codes, ◌==◌,
  nat_eq, ◌≡◌, length,
}
use itaruby.Rbs.{
  RbsTy, RbsTys, simple, generic, nilable, union, end, arg, RbsParam, required, optional, keyword,
  RbsSig,
}
use itaruby.Rbs.Scan.{is_lower, read_ident}

abbrev mutual
  pub print_ty : RbsTy → Text → Text
  print_ty (simple name) rest = name ++ rest
  print_ty (generic name args) rest = name ++ b'[' ∷ print_types b',' args (b']' ∷ rest)
  print_ty (nilable t) rest = b'(' ∷ print_ty t (b')' ∷ b'?' ∷ rest)
  print_ty (union parts) rest = b'(' ∷ print_types b'|' parts (b')' ∷ rest)

  pub print_types : ℕ → RbsTys → Text → Text
  print_types separator end rest = rest
  print_types separator (arg t ts) rest = print_ty t (print_more separator ts rest)

  pub print_more : ℕ → RbsTys → Text → Text
  print_more separator end rest = rest
  print_more separator (arg t ts) rest = separator ∷ print_ty t (print_more separator ts rest)

-- A name that `ident` reads to its end.
unfoldable pub IsName : Text → Type 0
IsName name = (0 < length name) × ((read_ident name).1 ≡ [])

mutual
  -- A generic type has one argument or two, a union two members or more.
  pub data Writable : RbsTy → Type 0 where
    a_name : {name : Text} → IsName name → Writable (simple name)
    one_argument :
        {name : Text} {t : RbsTy} → IsName name → Writable t → Writable (generic name (arg t end))
    two_arguments :
        {name : Text} {t u : RbsTy}
        → IsName name
        → Writable t
        → Writable u
        → Writable (generic name (arg t (arg u end)))
    or_nil : {t : RbsTy} → Writable t → Writable (nilable t)
    one_of :
        {t u : RbsTy} {ts : RbsTys}
        → Writable t
        → Writable u
        → Writables ts
        → Writable (union (arg t (arg u ts)))

  pub data Writables : RbsTys → Type 0 where
    nothing : Writables end
    more : {t : RbsTy} {ts : RbsTys} → Writable t → Writables ts → Writables (arg t ts)

abbrev pub print_param : RbsParam → Text → Text
print_param (required t) rest = print_ty t rest
print_param (optional t) rest = b'?' ∷ print_ty t rest
print_param (keyword name t true) rest = name ++ b':' ∷ b' ' ∷ print_ty t rest
print_param (keyword name t false) rest = b'?' ∷ (name ++ b':' ∷ b' ' ∷ print_ty t rest)

abbrev pub print_more_params : List RbsParam → Text → Text
print_more_params [] rest = b')' ∷ rest
print_more_params (p ∷ ps) rest = b',' ∷ print_param p (print_more_params ps rest)

abbrev pub print_params : List RbsParam → Text → Text
print_params [] rest = b')' ∷ rest
print_params (p ∷ ps) rest = print_param p (print_more_params ps rest)

abbrev pub print_more_names : List Text → Text → Text
print_more_names [] rest = b']' ∷ rest
print_more_names (name ∷ names) rest = b',' ∷ (name ++ print_more_names names rest)

abbrev pub print_type_params : List Text → Text → Text
print_type_params [] rest = rest
print_type_params (name ∷ names) rest = b'[' ∷ (name ++ print_more_names names rest)

abbrev pub print_sig : RbsSig → Text
print_sig sig =
    print_type_params sig.type_params
      (b'(' ∷ print_params sig.params (b'-' ∷ b'>' ∷ print_ty sig.ret []))

-- The name of a required keyword begins in lower case or with `_`.
abbrev pub begins_lower : Text → Bool
begins_lower [] = false
begins_lower (c ∷ name) = is_lower c || c == b'_'

pub data WritableParam : RbsParam → Type 0 where
  a_required : {t : RbsTy} → Writable t → WritableParam (required t)
  an_optional : {t : RbsTy} → Writable t → WritableParam (optional t)
  a_required_keyword :
      {name : Text} {t : RbsTy}
      → IsName name
      → begins_lower name ≡ true
      → Writable t
      → WritableParam (keyword name t true)
  an_optional_keyword :
      {name : Text} {t : RbsTy} → IsName name → Writable t → WritableParam (keyword name t false)

-- Every type and name of the signature is writable.
pub record WritableSig (sig : RbsSig) : Type 0 where
  pub params_writable : Every WritableParam sig.params
  pub ret_writable : Writable sig.ret
  pub names_writable : Every IsName sig.type_params
