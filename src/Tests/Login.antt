-- ===== src/Tests/Login.antt =====
-- The log-in to a Vault that refuses every request; the state is the token of the client.
use confd.Prelude.{◌≡◌, refl, ◌≢◌, true, [], ◌∷◌, exists, ◌⊎◌}
use confd.Std.Text.{Text, codes, text_dec, same}
use confd.Std.Result.{ok, err}
use confd.Std.Dict.{Dict, lookup}
use confd.Backends.Vault.Login.{
  Api, value_of, get_parameter, needed, authenticate, request, send_jwt, lose_error, finish_login,
  authenticate-missing, authenticate-kubernetes,
}

abbrev api : Api Text
api = record {
  write = λ url body s. (err (codes "permission denied"), s);
  read = λ url s. (err (codes "permission denied"), s);
  token = λ s. s;
  set_token = λ t s. t;
  read_jwt = λ s. ok (codes "jwt");
}

abbrev role_only : Dict Text
role_only = (codes "role-id", codes "r") ∷ []

secret_missing : exists (λ key. same (value_of key role_only) []) (needed (codes "app-role")) ≡ true
unfolding value_of lookup text_dec
secret_missing = refl

authenticate-missing_example :
    ((authenticate api (codes "app-role") role_only []).0 ≢ ok tt)
    × ((authenticate api (codes "app-role") role_only []).1 ≡ [])
authenticate-missing_example =
    authenticate-missing api (codes "app-role") role_only [] secret_missing

refused :
    (authenticate api (codes "kubernetes") role_only []).0 ≡ err (codes "Unable to authenticate")
unfolding authenticate request send_jwt lose_error finish_login get_parameter value_of lookup
    text_dec
refused = refl

authenticate-kubernetes_example :
    (api.read_jwt [] ≡ err (codes "Unable to authenticate"))
    ⊎ (get_parameter (codes "role-id") role_only ≡ err (codes "Unable to authenticate"))
    ⊎ (codes "Unable to authenticate" ≡ codes "Unable to authenticate")
authenticate-kubernetes_example =
    authenticate-kubernetes api role_only [] (codes "Unable to authenticate") refused
