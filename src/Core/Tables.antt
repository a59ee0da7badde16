-- ===== src/Core/Tables.antt =====
-- crates/itaruby_semantic/src/core.rs: the arms of the tables of the core methods, in their order.
use itaruby.Base.{List, [], ◌∷◌, none, some, Text, codes}
use itaruby.Core.Data.{CoreRet, method, Arm, arm}

abbrev pub integer_arms : List Arm
integer_arms =
    arm (codes "+" ∷ codes "-" ∷ codes "*" ∷ codes "/" ∷ codes "%" ∷ codes "**" ∷ [])
      (method 1 (some 1) CoreRet.int)
    ∷ arm (codes "to_s" ∷ []) (method 0 (some 1) CoreRet.str)
    ∷ arm (codes "to_i" ∷ []) (method 0 (some 0) CoreRet.int)
    ∷ arm (codes "to_f" ∷ []) (method 0 (some 0) CoreRet.float)
    ∷ arm (codes "abs" ∷ []) (method 0 (some 0) CoreRet.self_same)
    ∷ arm
        (codes "zero?" ∷ codes "positive?" ∷ codes "negative?" ∷ codes "even?" ∷ codes "odd?" ∷ [])
        (method 0 (some 0) CoreRet.bool)
    ∷ arm (codes "times" ∷ []) (method 0 (some 0) CoreRet.unknown)
    ∷ arm (codes "succ" ∷ codes "pred" ∷ []) (method 0 (some 0) CoreRet.self_same)
    ∷ arm (codes "clamp" ∷ []) (method 1 (some 2) CoreRet.self_same)
    ∷ arm (codes "<=>" ∷ []) (method 1 (some 1) CoreRet.int)
    ∷ arm (codes "==" ∷ codes "!=" ∷ codes "<" ∷ codes "<=" ∷ codes ">" ∷ codes ">=" ∷ [])
        (method 1 (some 1) CoreRet.bool)
    ∷ []

abbrev pub float_arms : List Arm
float_arms =
    arm (codes "+" ∷ codes "-" ∷ codes "*" ∷ codes "/" ∷ codes "%" ∷ codes "**" ∷ [])
      (method 1 (some 1) CoreRet.float)
    ∷ arm (codes "to_i" ∷ []) (method 0 (some 0) CoreRet.int)
    ∷ arm (codes "to_s" ∷ []) (method 0 (some 0) CoreRet.str)
    ∷ arm (codes "round" ∷ codes "ceil" ∷ codes "floor" ∷ []) (method 0 (some 1) CoreRet.int)
    ∷ arm (codes "abs" ∷ []) (method 0 (some 0) CoreRet.self_same)
    ∷ arm (codes "zero?" ∷ codes "positive?" ∷ codes "negative?" ∷ codes "nan?" ∷ [])
        (method 0 (some 0) CoreRet.bool)
    ∷ arm (codes "<=>" ∷ []) (method 1 (some 1) CoreRet.int)
    ∷ arm (codes "==" ∷ codes "!=" ∷ codes "<" ∷ codes "<=" ∷ codes ">" ∷ codes ">=" ∷ [])
        (method 1 (some 1) CoreRet.bool)
    ∷ []

abbrev pub str_arms : List Arm
str_arms =
    arm (codes "+" ∷ []) (method 1 (some 1) CoreRet.str)
    ∷ arm (codes "length" ∷ codes "size" ∷ []) (method 0 (some 0) CoreRet.int)
    ∷ arm
        (codes "upcase"
          ∷ codes "downcase"
          ∷ codes "capitalize"
          ∷ codes "strip"
          ∷ codes "lstrip"
          ∷ codes "rstrip"
          ∷ codes "chomp"
          ∷ codes "chop"
          ∷ codes "reverse"
          ∷ [])
        (method 0 (some 0) CoreRet.self_same)
    ∷ arm (codes "empty?" ∷ []) (method 0 (some 0) CoreRet.bool)
    ∷ arm (codes "include?" ∷ codes "start_with?" ∷ codes "end_with?" ∷ [])
        (method 1 none CoreRet.bool)
    ∷ arm (codes "split" ∷ []) (method 0 (some 2) CoreRet.str_array)
    ∷ arm (codes "gsub" ∷ codes "sub" ∷ []) (method 1 (some 2) CoreRet.str)
    ∷ arm (codes "to_i" ∷ []) (method 0 (some 1) CoreRet.int)
    ∷ arm (codes "to_f" ∷ []) (method 0 (some 0) CoreRet.float)
    ∷ arm (codes "to_s" ∷ []) (method 0 (some 0) CoreRet.self_same)
    ∷ arm (codes "to_sym" ∷ []) (method 0 (some 0) CoreRet.sym)
    ∷ arm (codes "[]" ∷ []) (method 1 (some 2) CoreRet.unknown)
    ∷ arm (codes "*" ∷ []) (method 1 (some 1) CoreRet.str)
    ∷ arm (codes "==" ∷ codes "!=" ∷ []) (method 1 (some 1) CoreRet.bool)
    ∷ arm (codes "chars" ∷ []) (method 0 (some 0) CoreRet.str_array)
    ∷ arm (codes "freeze" ∷ []) (method 0 (some 0) CoreRet.self_same)
    ∷ []

abbrev pub sym_arms : List Arm
sym_arms =
    arm (codes "to_s" ∷ []) (method 0 (some 0) CoreRet.str)
    ∷ arm (codes "to_sym" ∷ []) (method 0 (some 0) CoreRet.self_same)
    ∷ arm (codes "to_proc" ∷ []) (method 0 (some 0) CoreRet.unknown)
    ∷ arm (codes "length" ∷ codes "size" ∷ []) (method 0 (some 0) CoreRet.int)
    ∷ arm (codes "==" ∷ []) (method 1 (some 1) CoreRet.bool)
    ∷ []

abbrev pub array_arms : List Arm
array_arms =
    arm (codes "<<" ∷ codes "push" ∷ []) (method 0 none CoreRet.self_same)
    ∷ arm
        (codes "pop"
          ∷ codes "shift"
          ∷ codes "first"
          ∷ codes "last"
          ∷ codes "min"
          ∷ codes "max"
          ∷ [])
        (method 0 (some 1) CoreRet.elem)
    ∷ arm
        (codes "map"
          ∷ codes "collect"
          ∷ codes "select"
          ∷ codes "filter"
          ∷ codes "reject"
          ∷ codes "flat_map"
          ∷ [])
        (method 0 (some 0) CoreRet.unknown)
    ∷ arm (codes "each" ∷ codes "each_with_index" ∷ []) (method 0 (some 0) CoreRet.self_same)
    ∷ arm (codes "length" ∷ codes "size" ∷ codes "count" ∷ []) (method 0 (some 1) CoreRet.int)
    ∷ arm (codes "empty?" ∷ []) (method 0 (some 0) CoreRet.bool)
    ∷ arm (codes "include?" ∷ []) (method 1 (some 1) CoreRet.bool)
    ∷ arm (codes "join" ∷ []) (method 0 (some 1) CoreRet.str)
    ∷ arm
        (codes "sort"
          ∷ codes "sort_by"
          ∷ codes "uniq"
          ∷ codes "flatten"
          ∷ codes "compact"
          ∷ codes "reverse"
          ∷ codes "shuffle"
          ∷ [])
        (method 0 (some 1) CoreRet.self_same)
    ∷ arm (codes "sum" ∷ []) (method 0 (some 1) CoreRet.unknown)
    ∷ arm (codes "index" ∷ codes "find_index" ∷ []) (method 0 (some 1) CoreRet.unknown)
    ∷ arm (codes "concat" ∷ []) (method 0 none CoreRet.self_same)
    ∷ arm (codes "+" ∷ codes "-" ∷ []) (method 1 (some 1) CoreRet.self_same)
    ∷ arm (codes "[]" ∷ []) (method 1 (some 2) CoreRet.unknown)
    ∷ arm (codes "==" ∷ []) (method 1 (some 1) CoreRet.bool)
    ∷ arm (codes "any?" ∷ codes "all?" ∷ codes "none?" ∷ []) (method 0 (some 1) CoreRet.bool)
    ∷ arm (codes "to_a" ∷ []) (method 0 (some 0) CoreRet.self_same)
    ∷ []

abbrev pub hash_arms : List Arm
hash_arms =
    arm (codes "[]" ∷ []) (method 1 (some 1) CoreRet.unknown)
    ∷ arm (codes "[]=" ∷ []) (method 2 (some 2) CoreRet.unknown)
    ∷ arm (codes "fetch" ∷ []) (method 1 (some 2) CoreRet.unknown)
    ∷ arm
        (codes "key?"
          ∷ codes "has_key?"
          ∷ codes "include?"
          ∷ codes "member?"
          ∷ codes "value?"
          ∷ codes "has_value?"
          ∷ [])
        (method 1 (some 1) CoreRet.bool)
    ∷ arm (codes "keys" ∷ []) (method 0 (some 0) CoreRet.key_array)
    ∷ arm (codes "values" ∷ []) (method 0 (some 0) CoreRet.val_array)
    ∷ arm (codes "length" ∷ codes "size" ∷ codes "count" ∷ []) (method 0 (some 0) CoreRet.int)
    ∷ arm (codes "empty?" ∷ []) (method 0 (some 0) CoreRet.bool)
    ∷ arm (codes "merge" ∷ []) (method 0 none CoreRet.self_same)
    ∷ arm (codes "each" ∷ codes "each_pair" ∷ []) (method 0 (some 0) CoreRet.self_same)
    ∷ arm (codes "map" ∷ []) (method 0 (some 0) CoreRet.unknown)
    ∷ arm (codes "delete" ∷ []) (method 1 (some 1) CoreRet.unknown)
    ∷ arm (codes "to_h" ∷ []) (method 0 (some 0) CoreRet.self_same)
    ∷ arm (codes "any?" ∷ []) (method 0 (some 1) CoreRet.bool)
    ∷ []

abbrev pub nil_arms : List Arm
nil_arms =
    arm (codes "nil?" ∷ []) (method 0 (some 0) CoreRet.bool)
    ∷ arm (codes "to_s" ∷ codes "inspect" ∷ []) (method 0 (some 0) CoreRet.str)
    ∷ arm (codes "to_a" ∷ []) (method 0 (some 0) CoreRet.unknown)
    ∷ arm (codes "to_i" ∷ []) (method 0 (some 0) CoreRet.int)
    ∷ []

abbrev pub bool_arms : List Arm
bool_arms =
    arm (codes "!" ∷ []) (method 0 (some 0) CoreRet.bool)
    ∷ arm (codes "&" ∷ codes "|" ∷ codes "^" ∷ []) (method 1 (some 1) CoreRet.bool)
    ∷ arm (codes "to_s" ∷ codes "inspect" ∷ []) (method 0 (some 0) CoreRet.str)
    ∷ []

abbrev pub object_arms : List Arm
object_arms =
    arm (codes "nil?" ∷ []) (method 0 (some 0) CoreRet.bool)
    ∷ arm (codes "block_given?" ∷ []) (method 0 (some 0) CoreRet.bool)
    ∷ arm
        (codes "Integer"
          ∷ codes "String"
          ∷ codes "Float"
          ∷ codes "Array"
          ∷ codes "Hash"
          ∷ codes "Rational"
          ∷ codes "Complex"
          ∷ codes "BigDecimal"
          ∷ codes "URI"
          ∷ codes "Pathname"
          ∷ codes "JSON"
          ∷ [])
        (method 1 (some 2) CoreRet.unknown)
    ∷ arm
        (codes "caller"
          ∷ codes "binding"
          ∷ codes "catch"
          ∷ codes "throw"
          ∷ codes "exit"
          ∷ codes "exit!"
          ∷ codes "abort"
          ∷ codes "at_exit"
          ∷ codes "gets"
          ∷ codes "system"
          ∷ codes "printf"
          ∷ codes "pp"
          ∷ codes "srand"
          ∷ codes "open"
          ∷ codes "load"
          ∷ codes "autoload"
          ∷ codes "instance_variable_defined?"
          ∷ codes "instance_variables"
          ∷ codes "methods"
          ∷ codes "public_methods"
          ∷ codes "private_methods"
          ∷ codes "singleton_class"
          ∷ codes "define_singleton_method"
          ∷ codes "display"
          ∷ codes "extend"
          ∷ codes "instance_exec"
          ∷ codes "instance_eval"
          ∷ codes "method_missing"
          ∷ codes "enum_for"
          ∷ codes "to_enum"
          ∷ [])
        (method 0 none CoreRet.unknown)
    ∷ arm (codes "is_a?" ∷ codes "kind_of?" ∷ codes "instance_of?" ∷ [])
        (method 1 (some 1) CoreRet.bool)
    ∷ arm (codes "respond_to?" ∷ []) (method 1 (some 2) CoreRet.bool)
    ∷ arm (codes "tap" ∷ codes "then" ∷ codes "yield_self" ∷ []) (method 0 (some 0) CoreRet.unknown)
    ∷ arm (codes "class" ∷ []) (method 0 (some 0) CoreRet.unknown)
    ∷ arm (codes "freeze" ∷ codes "dup" ∷ codes "clone" ∷ codes "itself" ∷ [])
        (method 0 (some 0) CoreRet.self_same)
    ∷ arm (codes "frozen?" ∷ []) (method 0 (some 0) CoreRet.bool)
    ∷ arm (codes "inspect" ∷ codes "to_s" ∷ []) (method 0 (some 0) CoreRet.str)
    ∷ arm (codes "==" ∷ codes "!=" ∷ codes "equal?" ∷ codes "eql?" ∷ [])
        (method 1 (some 1) CoreRet.bool)
    ∷ arm (codes "hash" ∷ []) (method 0 (some 0) CoreRet.int)
    ∷ arm (codes "object_id" ∷ []) (method 0 (some 0) CoreRet.int)
    ∷ arm (codes "send" ∷ codes "public_send" ∷ codes "__send__" ∷ [])
        (method 1 none CoreRet.unknown)
    ∷ arm (codes "method" ∷ []) (method 1 (some 1) CoreRet.unknown)
    ∷ arm (codes "instance_variable_get" ∷ []) (method 1 (some 1) CoreRet.unknown)
    ∷ arm (codes "instance_variable_set" ∷ []) (method 2 (some 2) CoreRet.unknown)
    ∷ arm (codes "puts" ∷ codes "p" ∷ codes "print" ∷ codes "warn" ∷ []) (method 0 none CoreRet.nil)
    ∷ arm (codes "raise" ∷ codes "fail" ∷ []) (method 0 (some 3) CoreRet.unknown)
    ∷ arm (codes "require" ∷ codes "require_relative" ∷ []) (method 1 (some 1) CoreRet.bool)
    ∷ arm (codes "loop" ∷ []) (method 0 (some 0) CoreRet.unknown)
    ∷ arm (codes "rand" ∷ codes "sleep" ∷ []) (method 0 (some 1) CoreRet.unknown)
    ∷ arm (codes "format" ∷ codes "sprintf" ∷ []) (method 1 none CoreRet.str)
    ∷ []

abbrev pub lexical_self_methods : List Text
lexical_self_methods =
    codes "each"
    ∷ codes "each_with_index"
    ∷ codes "each_with_object"
    ∷ codes "each_entry"
    ∷ codes "each_index"
    ∷ codes "each_pair"
    ∷ codes "each_key"
    ∷ codes "each_value"
    ∷ codes "each_slice"
    ∷ codes "each_cons"
    ∷ codes "each_char"
    ∷ codes "each_line"
    ∷ codes "each_byte"
    ∷ codes "reverse_each"
    ∷ codes "map"
    ∷ codes "map!"
    ∷ codes "collect"
    ∷ codes "collect!"
    ∷ codes "flat_map"
    ∷ codes "filter_map"
    ∷ codes "select"
    ∷ codes "select!"
    ∷ codes "filter"
    ∷ codes "filter!"
    ∷ codes "reject"
    ∷ codes "reject!"
    ∷ codes "find"
    ∷ codes "detect"
    ∷ codes "find_all"
    ∷ codes "delete_if"
    ∷ codes "keep_if"
    ∷ codes "sort_by"
    ∷ codes "sort_by!"
    ∷ codes "min_by"
    ∷ codes "max_by"
    ∷ codes "group_by"
    ∷ codes "partition"
    ∷ codes "sum"
    ∷ codes "count"
    ∷ codes "reduce"
    ∷ codes "inject"
    ∷ codes "take_while"
    ∷ codes "drop_while"
    ∷ codes "transform_keys"
    ∷ codes "transform_values"
    ∷ codes "fetch"
    ∷ codes "all?"
    ∷ codes "any?"
    ∷ codes "none?"
    ∷ codes "one?"
    ∷ codes "times"
    ∷ codes "upto"
    ∷ codes "downto"
    ∷ codes "step"
    ∷ codes "tap"
    ∷ codes "then"
    ∷ codes "yield_self"
    ∷ []
