-- ===== src/Backends/Ssm.antt =====
-- pkg/backends/ssm/client.go: `GetValues` over the answers of the Parameter Store.
pub mod Errors
pub mod Connect
use confd.Prelude.{
  ℕ, Bool, Option, none, some, ◌≡◌, refl, ◌≢◌, List, [], ◌∷◌, if◌then◌else◌, ◌⊎◌, inl, inr,
}
use confd.Std.Text.{Text, codes, same, same_iff, same_ne}
use confd.Std.Dict.{Dict, insert}
use confd.Std.Result.{Error}

-- An error of the service, by its code.
pub record AwsError : Type 0 where
  pub code : Text

pub data Answer (A : Type 0) : Type 0 where
  ok : A → Answer A
  err : AwsError → Answer A

abbrev pub not_found : Text
not_found = codes "ParameterNotFound"

-- A parameter: its name and its value.
abbrev pub Parameters : Type 0
Parameters = List (Text × Text)

-- The service: the pages of `GetParametersByPath`, and `GetParameter`.
pub record Service : Type 0 where
  pub pages : Text → Answer (List Parameters)
  pub parameter : Text → Answer (Text × Text)

unfoldable pub add_page : Parameters → Dict Text → Dict Text
add_page [] parameters = parameters
add_page ((name, value) ∷ page) parameters = add_page page (insert name value parameters)

pub add_pages : List Parameters → Dict Text → Dict Text
add_pages [] parameters = parameters
add_pages (page ∷ pages) parameters = add_pages pages (add_page page parameters)

abbrev pub map_answer : {A B : Type 0} → (A → B) → Answer A → Answer B
map_answer f (ok a) = ok (f a)
map_answer f (err e) = err e

-- `getParametersWithPrefix`
pub get_parameters_with_prefix : Service → Text → Answer (Dict Text)
get_parameters_with_prefix service prefix =
    map_answer (λ pages. add_pages pages []) (service.pages prefix)

-- `getParameter`
pub get_parameter : Service → Text → Answer (Dict Text)
get_parameter service name =
    map_answer (λ (found, value). insert found value []) (service.parameter name)

-- The parameter itself, where nothing lies under the key: only that it is missing is forgiven.
pub single : Answer (Dict Text) → Answer (Dict Text)
single (ok found) = ok found
single (err e) = if same e.code not_found then ok [] else err e

pub read_key : Service → Text → Answer (Dict Text) → Answer (Dict Text)
read_key service key (err e) = err e
read_key service key (ok []) = single (get_parameter service key)
read_key service key (ok (p ∷ found)) = ok (p ∷ found)

-- `for k, v := range resp { vars[k] = v }`
pub merge : Dict Text → Dict Text → Dict Text
merge [] vars = vars
merge ((k, v) ∷ resp) vars = merge resp (insert k v vars)

abbrev pub bind_answer : {A B : Type 0} → Answer A → (A → Answer B) → Answer B
bind_answer (ok a) f = f a
bind_answer (err e) f = err e

pub get_values_from : Service → List Text → Dict Text → Answer (Dict Text)
get_values_from service [] vars = ok vars
get_values_from service (key ∷ keys) vars =
    bind_answer (read_key service key (get_parameters_with_prefix service key))
      (λ resp. get_values_from service keys (merge resp vars))

-- `GetValues`
unfoldable pub get_values : Service → List Text → Answer (Dict Text)
get_values service keys = get_values_from service keys []

-- A key under which nothing lies and which is no parameter itself adds nothing and is no error.
get_values_from-missing :
    (service : Service) (key : Text) (keys : List Text) (vars : Dict Text)
    → service.pages key ≡ ok []
    → service.parameter key ≡ err (record { code = not_found })
    → get_values_from service (key ∷ keys) vars ≡ get_values_from service keys vars
unfolding get_values_from get_parameters_with_prefix read_key single get_parameter add_pages merge
get_values_from-missing service key keys vars p q =
    simp (p, q) (simp ((same_iff not_found not_found).1 refl) refl)

-- `WatchPrefix` only waits, and returns no index and no error once stopChan gives a value; `none`
-- where it never does.
unfoldable pub watch_prefix : Bool → Option (ℕ × Option Error)
watch_prefix stops = if stops then some (0, none) else none
