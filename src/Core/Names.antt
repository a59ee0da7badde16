-- ===== src/Core/Names.antt =====
-- crates/itaruby_semantic/src/core.rs: the lists of names.
use itaruby.Base.{List, [], ◌∷◌, Text, codes}
use itaruby.Core.Data.{CoreClass}

abbrev pub kernel_private_instance_methods : List Text
kernel_private_instance_methods =
    codes "__callee__"
    ∷ codes "__dir__"
    ∷ codes "__method__"
    ∷ codes "`"
    ∷ codes "autoload?"
    ∷ codes "caller_locations"
    ∷ codes "eval"
    ∷ codes "exec"
    ∷ codes "fork"
    ∷ codes "gem"
    ∷ codes "global_variables"
    ∷ codes "initialize_clone"
    ∷ codes "initialize_copy"
    ∷ codes "initialize_dup"
    ∷ codes "iterator?"
    ∷ codes "lambda"
    ∷ codes "local_variables"
    ∷ codes "proc"
    ∷ codes "putc"
    ∷ codes "readline"
    ∷ codes "readlines"
    ∷ codes "respond_to_missing?"
    ∷ codes "select"
    ∷ codes "set_trace_func"
    ∷ codes "singleton_method_added"
    ∷ codes "singleton_method_removed"
    ∷ codes "singleton_method_undefined"
    ∷ codes "spawn"
    ∷ codes "syscall"
    ∷ codes "test"
    ∷ codes "trace_var"
    ∷ codes "trap"
    ∷ codes "untrace_var"
    ∷ codes "URI"
    ∷ codes "pp"
    ∷ []

abbrev pub gem_kernel_methods : List Text
gem_kernel_methods =
    codes "Stoplight" ∷ codes "Rainbow" ∷ codes "_" ∷ codes "s_" ∷ codes "BigDecimal" ∷ []

abbrev pub test_framework_object_mixin_methods : List Text
test_framework_object_mixin_methods =
    codes "stubs" ∷ codes "expects" ∷ codes "unstub" ∷ codes "stub" ∷ []

abbrev pub active_support_object_mixin_methods : List Text
active_support_object_mixin_methods =
    codes "to_json" ∷ codes "try" ∷ codes "instance_values" ∷ codes "acts_like?" ∷ []

abbrev pub class_module_only_methods : List Text
class_module_only_methods =
    codes "<"
    ∷ codes "<="
    ∷ codes ">"
    ∷ codes ">="
    ∷ codes "alias_method"
    ∷ codes "allocate"
    ∷ codes "ancestors"
    ∷ codes "append_features"
    ∷ codes "attached_object"
    ∷ codes "attr"
    ∷ codes "attr_accessor"
    ∷ codes "attr_reader"
    ∷ codes "attr_writer"
    ∷ codes "class_eval"
    ∷ codes "class_exec"
    ∷ codes "class_variable_defined?"
    ∷ codes "class_variable_get"
    ∷ codes "class_variable_set"
    ∷ codes "class_variables"
    ∷ codes "const_added"
    ∷ codes "const_defined?"
    ∷ codes "const_get"
    ∷ codes "const_missing"
    ∷ codes "const_set"
    ∷ codes "const_source_location"
    ∷ codes "constants"
    ∷ codes "define_method"
    ∷ codes "deprecate_constant"
    ∷ codes "extend_object"
    ∷ codes "extended"
    ∷ codes "include"
    ∷ codes "include?"
    ∷ codes "included"
    ∷ codes "included_modules"
    ∷ codes "inherited"
    ∷ codes "instance_method"
    ∷ codes "instance_methods"
    ∷ codes "method_added"
    ∷ codes "method_defined?"
    ∷ codes "method_removed"
    ∷ codes "method_undefined"
    ∷ codes "module_eval"
    ∷ codes "module_exec"
    ∷ codes "module_function"
    ∷ codes "name"
    ∷ codes "new"
    ∷ codes "prepend"
    ∷ codes "prepend_features"
    ∷ codes "prepended"
    ∷ codes "private"
    ∷ codes "private_class_method"
    ∷ codes "private_constant"
    ∷ codes "private_instance_methods"
    ∷ codes "private_method_defined?"
    ∷ codes "protected"
    ∷ codes "protected_instance_methods"
    ∷ codes "protected_method_defined?"
    ∷ codes "public"
    ∷ codes "public_class_method"
    ∷ codes "public_constant"
    ∷ codes "public_instance_method"
    ∷ codes "public_instance_methods"
    ∷ codes "public_method_defined?"
    ∷ codes "refine"
    ∷ codes "refinements"
    ∷ codes "remove_class_variable"
    ∷ codes "remove_const"
    ∷ codes "remove_method"
    ∷ codes "ruby2_keywords"
    ∷ codes "set_temporary_name"
    ∷ codes "singleton_class?"
    ∷ codes "subclasses"
    ∷ codes "superclass"
    ∷ codes "undef_method"
    ∷ codes "undefined_instance_methods"
    ∷ codes "using"
    ∷ []

abbrev pub core_namespace_names : List Text
core_namespace_names =
    codes "Integer"
    ∷ codes "Float"
    ∷ codes "Numeric"
    ∷ codes "String"
    ∷ codes "Symbol"
    ∷ codes "Array"
    ∷ codes "Hash"
    ∷ codes "NilClass"
    ∷ codes "TrueClass"
    ∷ codes "FalseClass"
    ∷ codes "Object"
    ∷ codes "Kernel"
    ∷ codes "Comparable"
    ∷ codes "Enumerable"
    ∷ []

abbrev pub core_namespaces : List Text
core_namespaces =
    codes "Integer"
    ∷ codes "Float"
    ∷ codes "Numeric"
    ∷ codes "String"
    ∷ codes "Symbol"
    ∷ codes "Array"
    ∷ codes "Hash"
    ∷ codes "NilClass"
    ∷ codes "TrueClass"
    ∷ codes "FalseClass"
    ∷ codes "Object"
    ∷ codes "Kernel"
    ∷ codes "Comparable"
    ∷ codes "Enumerable"
    ∷ []

abbrev pub known_core_constants : List Text
known_core_constants =
    codes "Integer"
    ∷ codes "SecureRandom"
    ∷ codes "URI"
    ∷ codes "OpenSSL"
    ∷ codes "Base64"
    ∷ codes "Digest"
    ∷ codes "Logger"
    ∷ codes "Tempfile"
    ∷ codes "Pathname"
    ∷ codes "StringIO"
    ∷ codes "Timeout"
    ∷ codes "Net"
    ∷ codes "BigDecimal"
    ∷ codes "Forwardable"
    ∷ codes "Singleton"
    ∷ codes "Observable"
    ∷ codes "PP"
    ∷ codes "PStore"
    ∷ codes "Benchmark"
    ∷ codes "Zlib"
    ∷ codes "Socket"
    ∷ codes "Resolv"
    ∷ codes "String"
    ∷ codes "Symbol"
    ∷ codes "Float"
    ∷ codes "Array"
    ∷ codes "Hash"
    ∷ codes "NilClass"
    ∷ codes "TrueClass"
    ∷ codes "FalseClass"
    ∷ codes "Object"
    ∷ codes "Kernel"
    ∷ codes "Comparable"
    ∷ codes "Enumerable"
    ∷ codes "Struct"
    ∷ codes "Math"
    ∷ codes "ENV"
    ∷ codes "ARGV"
    ∷ codes "STDIN"
    ∷ codes "STDOUT"
    ∷ codes "STDERR"
    ∷ codes "RUBY_VERSION"
    ∷ codes "BasicObject"
    ∷ codes "Module"
    ∷ codes "Class"
    ∷ codes "Proc"
    ∷ codes "Range"
    ∷ codes "Regexp"
    ∷ codes "Exception"
    ∷ codes "StandardError"
    ∷ codes "ArgumentError"
    ∷ codes "RuntimeError"
    ∷ codes "TypeError"
    ∷ codes "NameError"
    ∷ codes "NoMethodError"
    ∷ codes "KeyError"
    ∷ codes "IndexError"
    ∷ codes "StopIteration"
    ∷ codes "NotImplementedError"
    ∷ codes "IO"
    ∷ codes "File"
    ∷ codes "Dir"
    ∷ codes "Time"
    ∷ codes "Date"
    ∷ codes "DateTime"
    ∷ codes "Rational"
    ∷ codes "Complex"
    ∷ codes "Numeric"
    ∷ codes "Set"
    ∷ codes "OpenStruct"
    ∷ codes "JSON"
    ∷ codes "YAML"
    ∷ codes "CSV"
    ∷ codes "Marshal"
    ∷ codes "ObjectSpace"
    ∷ codes "GC"
    ∷ codes "Signal"
    ∷ codes "Process"
    ∷ codes "Thread"
    ∷ codes "Mutex"
    ∷ codes "Queue"
    ∷ codes "Random"
    ∷ codes "Encoding"
    ∷ codes "Data"
    ∷ codes "Method"
    ∷ codes "UnboundMethod"
    ∷ codes "Binding"
    ∷ codes "Fiber"
    ∷ codes "Enumerator"
    ∷ codes "Ractor"
    ∷ codes "Warning"
    ∷ codes "Errno"
    ∷ codes "SystemExit"
    ∷ codes "Interrupt"
    ∷ codes "ScriptError"
    ∷ codes "LoadError"
    ∷ codes "SyntaxError"
    ∷ codes "SecurityError"
    ∷ codes "FrozenError"
    ∷ codes "EncodingError"
    ∷ codes "ZeroDivisionError"
    ∷ codes "FloatDomainError"
    ∷ codes "RangeError"
    ∷ codes "LocalJumpError"
    ∷ codes "EOFError"
    ∷ codes "IOError"
    ∷ codes "RegexpError"
    ∷ codes "ThreadError"
    ∷ codes "FiberError"
    ∷ codes "ClosedQueueError"
    ∷ codes "UncaughtThrowError"
    ∷ []

abbrev pub core_inventory_names : CoreClass → List Text
core_inventory_names CoreClass.integer = codes "Integer" ∷ []
core_inventory_names CoreClass.float = codes "Float" ∷ []
core_inventory_names CoreClass.str = codes "String" ∷ []
core_inventory_names CoreClass.sym = codes "Symbol" ∷ []
core_inventory_names CoreClass.array = codes "Array" ∷ []
core_inventory_names CoreClass.hash = codes "Hash" ∷ []
core_inventory_names CoreClass.nil = codes "NilClass" ∷ []
core_inventory_names CoreClass.bool = codes "TrueClass" ∷ codes "FalseClass" ∷ []
core_inventory_names CoreClass.object = codes "Object" ∷ []

abbrev pub core_pollution_names : CoreClass → List Text
core_pollution_names CoreClass.integer =
    codes "Integer" ∷ codes "Numeric" ∷ codes "Comparable" ∷ codes "Object" ∷ codes "Kernel" ∷ []
core_pollution_names CoreClass.float =
    codes "Float" ∷ codes "Numeric" ∷ codes "Comparable" ∷ codes "Object" ∷ codes "Kernel" ∷ []
core_pollution_names CoreClass.str =
    codes "String" ∷ codes "Comparable" ∷ codes "Object" ∷ codes "Kernel" ∷ []
core_pollution_names CoreClass.sym =
    codes "Symbol" ∷ codes "Comparable" ∷ codes "Object" ∷ codes "Kernel" ∷ []
core_pollution_names CoreClass.array =
    codes "Array" ∷ codes "Enumerable" ∷ codes "Object" ∷ codes "Kernel" ∷ []
core_pollution_names CoreClass.hash =
    codes "Hash" ∷ codes "Enumerable" ∷ codes "Object" ∷ codes "Kernel" ∷ []
core_pollution_names CoreClass.nil = codes "NilClass" ∷ codes "Object" ∷ codes "Kernel" ∷ []
core_pollution_names CoreClass.bool =
    codes "TrueClass" ∷ codes "FalseClass" ∷ codes "Object" ∷ codes "Kernel" ∷ []
core_pollution_names CoreClass.object = codes "Object" ∷ codes "Kernel" ∷ []

abbrev pub core_own_names : CoreClass → List Text
core_own_names CoreClass.integer = codes "Integer" ∷ []
core_own_names CoreClass.float = codes "Float" ∷ []
core_own_names CoreClass.str = codes "String" ∷ []
core_own_names CoreClass.sym = codes "Symbol" ∷ []
core_own_names CoreClass.array = codes "Array" ∷ []
core_own_names CoreClass.hash = codes "Hash" ∷ []
core_own_names CoreClass.nil = codes "NilClass" ∷ []
core_own_names CoreClass.bool = codes "TrueClass" ∷ codes "FalseClass" ∷ []
core_own_names CoreClass.object = codes "Object" ∷ []
