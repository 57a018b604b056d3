-- ===== src/Template/Functions.antt =====
-- pkg/template/template_funcs.go: the functions that a template can call.
pub mod Arithmetic
pub mod Sequence
pub mod Reversal
pub mod Maps
pub mod Network
pub mod Encodings
use confd.Prelude.{
  ℕ, Bool, true, false, Option, none, some, List, [], ◌∷◌, length, ltb, if◌then◌else◌,
}
use confd.Std.Text.{Text, codes}
use confd.Std.Result.{Error, Result, ok, err}
use confd.Std.Dict.{Dict, insert}

-- What a name of the function map stands for, by the function of Go.
pub data Function : Type 0 where
  path_base strings_split json_object json_array path_dir create_map getenv strings_join : Function
  time_now to_upper to_lower contains replace trim_suffix : Function
  lookup_ip lookup_ipv4 lookup_ipv6 lookup_srv lookup_iface_ipv4 lookup_iface_ipv6 : Function
  is_file_exist base64_encode base64_decode parse_bool reverse : Function
  sort_by_length sort_kv_by_length add_ints sub_ints div_ints mod_ints mul_ints seq atoi
        get_hostname :
      Function

-- `newFuncMap`
unfoldable pub new_func_map : Dict Function
new_func_map =
    (codes "base", path_base)
    ∷ (codes "split", strings_split)
    ∷ (codes "json", json_object)
    ∷ (codes "jsonArray", json_array)
    ∷ (codes "dir", path_dir)
    ∷ (codes "map", create_map)
    ∷ (codes "getenv", getenv)
    ∷ (codes "join", strings_join)
    ∷ (codes "datetime", time_now)
    ∷ (codes "toUpper", to_upper)
    ∷ (codes "toLower", to_lower)
    ∷ (codes "contains", contains)
    ∷ (codes "replace", replace)
    ∷ (codes "trimSuffix", trim_suffix)
    ∷ (codes "lookupIP", lookup_ip)
    ∷ (codes "lookupIPV4", lookup_ipv4)
    ∷ (codes "lookupIPV6", lookup_ipv6)
    ∷ (codes "lookupSRV", lookup_srv)
    ∷ (codes "lookupIfaceIPV4", lookup_iface_ipv4)
    ∷ (codes "lookupIfaceIPV6", lookup_iface_ipv6)
    ∷ (codes "fileExists", is_file_exist)
    ∷ (codes "base64Encode", base64_encode)
    ∷ (codes "base64Decode", base64_decode)
    ∷ (codes "parseBool", parse_bool)
    ∷ (codes "reverse", reverse)
    ∷ (codes "sortByLength", sort_by_length)
    ∷ (codes "sortKVByLength", sort_kv_by_length)
    ∷ (codes "add", add_ints)
    ∷ (codes "sub", sub_ints)
    ∷ (codes "div", div_ints)
    ∷ (codes "mod", mod_ints)
    ∷ (codes "mul", mul_ints)
    ∷ (codes "seq", seq)
    ∷ (codes "atoi", atoi)
    ∷ (codes "hostname", get_hostname)
    ∷ []

-- `addFuncs`
unfoldable pub add_funcs : {F : Type 0} → Dict F → Dict F → Dict F
add_funcs out [] = out
add_funcs out ((name, fn) ∷ more) = add_funcs (insert name fn out) more

-- `Getenv`, given the environment with the empty text for an unset variable.
unfoldable pub getenv_or : (Text → Text) → Text → List Text → Text
getenv_or environ key v = elim (environ key) [
  | [] ↦ elim v [ [] ↦ [] | default_value ∷ rest ↦ default_value ]
  | c ∷ value ↦ c ∷ value
]

-- `sort.Sort` by a `Less`.
abbrev pub Sort : Type 0 → Type 0
Sort A = (A → A → Bool) → List A → List A

-- `byLength` and `SortByLength`
unfoldable pub shorter : Text → Text → Bool
shorter s t = ltb (length s) (length t)

unfoldable pub sort_strings_by_length : Sort Text → List Text → List Text
sort_strings_by_length sort values = sort shorter values

-- `byLengthKV` and `SortKVByLength`
unfoldable pub shorter_key : Text × Text → Text × Text → Bool
shorter_key (k, v) (l, w) = ltb (length k) (length l)

unfoldable pub sort_pairs_by_length : Sort (Text × Text) → List (Text × Text) → List (Text × Text)
sort_pairs_by_length sort values = sort shorter_key values
