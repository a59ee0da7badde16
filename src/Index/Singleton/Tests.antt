-- ===== src/Index/Singleton/Tests.antt =====
-- Lookups on the class objects of the application, with empty inventories.
use itaruby.Base.{Bool, false, none, some, Text, codes, ◌≡◌, refl, text_eq, nat_eq}
use itaruby.Core.{kernel_object_singleton_method}
use itaruby.Index.{MethodLookup, not_found, inconclusive}
use itaruby.Index.Names.{strip_prefix, has_separator}
use itaruby.Index.Resolve.{resolve_const, shadowed, conflicting_const_scope}
use itaruby.Index.Ancestors.{ancestors}
use itaruby.Index.Descendants.{descendant_defines}
use itaruby.Index.Lookup.Tests.{app-KidsAreClasses}
use itaruby.Index.Singleton.{lookup_singleton, lookup_singleton_rbi}
use itaruby.Index.Singleton.Absent.{NoSingleton, lookup_singleton-NoSingleton}
use itaruby.Index.Singleton.Reasons.{SingletonReason}
use itaruby.Index.Singleton.Softened.{Softened, lookup_singleton_rbi-Softened}
use itaruby.Index.Tests.{app}

abbrev nothing : Text → Bool
nothing name = false

abbrev no_pair : Text → Text → Bool
no_pair path name = false

finds_nothing_on_class : lookup_singleton (ancestors 1 app) app 2 (codes "load") ≡ some not_found
unfolding lookup_singleton ancestors resolve_const strip_prefix has_separator shadowed
    conflicting_const_scope descendant_defines
finds_nothing_on_class = refl

silences_proc :
    lookup_singleton_rbi (ancestors 1 app) app nothing nothing no_pair 2 (codes "proc") none
    ≡ some inconclusive
unfolding lookup_singleton_rbi ancestors resolve_const strip_prefix has_separator shadowed
    conflicting_const_scope descendant_defines kernel_object_singleton_method
silences_proc = refl

lookup_singleton-NoSingleton_example : NoSingleton (ancestors 1 app) app (codes "load") 2
lookup_singleton-NoSingleton_example =
    lookup_singleton-NoSingleton (ancestors 1 app) app (codes "load") 2 app-KidsAreClasses
      finds_nothing_on_class

lookup_singleton_rbi-Softened_example :
    (base : MethodLookup) × (lookup_singleton (ancestors 1 app) app 2 (codes "proc") ≡ some base)
    × Softened
        (ancestors 1 app)
        app
        2
        nothing
        nothing
        no_pair
        (codes "proc")
        none
        (SingletonReason (ancestors 1 app) app 2 nothing nothing no_pair (codes "proc") none)
        base
        inconclusive
lookup_singleton_rbi-Softened_example =
    lookup_singleton_rbi-Softened (ancestors 1 app) app 2 nothing nothing no_pair (codes "proc")
      none silences_proc
