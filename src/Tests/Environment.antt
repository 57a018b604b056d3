-- ===== src/Tests/Environment.antt =====
-- A resource whose backend is the environment, in memory.
use confd.Prelude.{◌≡◌, refl, ◌≢◌, ◌∙◌, inl, inr, true, false, some, List, [], ◌∷◌}
use confd.Std.Text.{
  Text, codes, text_dec, has_prefix, trim_prefix, index, to_upper, to_lower, replace_byte,
}
use confd.Std.Result.{ok}
use confd.Std.Dict.{Dict, lookup, insert}
use confd.Std.Path.{is_dot, is_dot_dot, path_join}
use confd.Std.Path.Canonical.{Names}
use confd.Util.{append_prefix}
use confd.Platform.{StoreClient}
use confd.Platform.Memory.{memory}
use confd.Platform.Memory.Lawful.{memory-StoreModel}
use confd.Template.Resource.{World}
use confd.Template.Resource.Vars.{set_vars}
use confd.Backends.Env
use confd.Backends.Env.{transform, env_map}
use confd.Backends.Env.Found.{here, later, AskedFor}
use confd.Backends.Env.Store.{AllStandUnder, OneValue, set_vars-environment}
use confd.Tests.Samples.{disk, app, world}

abbrev environ : List Text
environ = codes "P_K=1" ∷ codes "HOME=/root" ∷ []

abbrev variables : Dict Text
variables = (codes "P_K", codes "1") ∷ (codes "HOME", codes "/root") ∷ []

abbrev values : Dict Text
values = (codes "/p/k", codes "1") ∷ []

abbrev environment : StoreClient memory
environment = record {
  get_values = λ keys d. (ok values, d);
  watch_prefix = λ prefix keys index d. (ok 0, d);
}

abbrev resource_world : World memory
resource_world = world (record (app false true []) { store_client = environment })

k_Names : Names (codes "k" ∷ [])
unfolding is_dot is_dot_dot
k_Names = (record { no_slash = (refl, tt); not_dot = refl; not_dot_dot = refl }, tt)

p_Names : Names (codes "p" ∷ [])
unfolding is_dot is_dot_dot
p_Names = (record { no_slash = (refl, tt); not_dot = refl; not_dot_dot = refl }, tt)

environ_is_read : env_map environ [] ≡ some variables
unfolding env_map index insert text_dec has_prefix
environ_is_read = refl

keys_are : append_prefix (codes "/p") (codes "/k" ∷ []) ≡ codes "/p/k" ∷ []
unfolding append_prefix path_join
keys_are = refl

is_answered : Env.get_values environ (codes "/p/k" ∷ []) ≡ some values
unfolding Env.get_values Env.collect_all Env.collect Env.transform Env.clean env_map index insert
    text_dec has_prefix trim_prefix to_upper to_lower replace_byte
is_answered = refl

asked : AskedFor (codes "P_K") (codes "/p/k" ∷ [])
unfolding transform has_prefix trim_prefix to_upper replace_byte
asked = inl refl

home_is_not_asked : ¬ (AskedFor (codes "HOME") (codes "/p/k" ∷ []))
unfolding transform has_prefix trim_prefix to_upper replace_byte
home_is_not_asked (inl e) = absurd (cc)
home_is_not_asked (inr a) = a

stands : Env.clean (codes "P_K") ≡ codes "/p/k"
unfolding Env.clean to_lower replace_byte
stands = refl

home_stands_elsewhere : Env.clean (codes "HOME") ≢ codes "/p/k"
unfolding Env.clean to_lower replace_byte
home_stands_elsewhere h = cc

all_stand_under : AllStandUnder (codes "p" ∷ []) (codes "/p/k" ∷ []) variables
all_stand_under name v here a = (codes "k" ∷ [], k_Names, stands)
all_stand_under name v (later here) a = absurd (home_is_not_asked a)
all_stand_under name v (later (later h)) a = elim h [ ]

one_value : OneValue (Env.clean (codes "P_K")) (codes "1") variables
one_value name w here e = refl
one_value name w (later here) e = absurd (home_stands_elsewhere (e ∙ stands))
one_value name w (later (later h)) e = elim h [ ]

set_vars-environment_example :
    lookup (codes "/k") (set_vars memory resource_world).1.resource.store ≡ some (codes "1")
unfolding append_prefix path_join
set_vars-environment_example =
    set_vars-environment memory memory-StoreModel resource_world environ variables values
      (codes "p" ∷ []) (codes "k" ∷ []) disk (codes "P_K") (codes "1") refl p_Names k_Names
      environ_is_read is_answered refl all_stand_under here asked stands one_value
