-- ===== src/Backends/Vault/Login.antt =====
-- pkg/backends/vault/client.go: `authenticate` with `getParameter`.
use confd.Prelude.{
  ◌≡◌, ◌≢◌, true, Option, none, some, List, [], ◌∷◌, ◌++◌, exists, arith, ◌⊎◌, inl, inr,
  if◌then◌else◌, ap,
}
use confd.Std.Text.{Text, codes, text_dec, same}
use confd.Std.Result.{Error, Result, ok, err, ◌>>=◌}
use confd.Std.Dict.{Dict, lookup}
use confd.Std.Exec.{Exec, raise, continue}

-- `parameters[key]`, empty where it is missing.
unfoldable pub value_of : Text → Dict Text → Text
value_of key parameters = elim (lookup key parameters) [ none ↦ [] | some v ↦ v ]

-- `getParameter`. Its panic is the error that `panicToError` makes of it.
unfoldable pub get_parameter : Text → Dict Text → Result Text
get_parameter key parameters =
    let v = value_of key parameters in
    if same v [] then err (key ++ codes " is missing from configuration") else ok v

-- The body of a request: the names of its fields with the parameters that they hold.
unfoldable pub body : List (Text × Text) → Dict Text → Result (Dict Text)
body [] parameters = ok []
body ((name, key) ∷ fields) parameters = do
  v ← get_parameter key parameters
  more ← body fields parameters
  ok ((name, v) ∷ more)

-- Where the method is mounted, unless a path is given.
unfoldable pub mount : Text → Dict Text → Text
mount auth_type parameters =
    let given = value_of (codes "path") parameters in
    if same given []
    then if same auth_type (codes "app-role") then codes "approle" else auth_type
    else given

unfoldable pub login_url : Text → Dict Text → Text
login_url auth_type parameters = codes "/auth/" ++ (mount auth_type parameters ++ codes "/login")

-- A secret, by the client token of its `Auth`, if it has one.
pub record Secret : Type 0 where
  pub auth : Option Text

-- The client of Vault, and the file with the token of a Kubernetes service account.
pub record Api (S : Type 0) : Type 0 where
  pub write : Text → Dict Text → Exec S (Option Secret)
  pub read : Text → Exec S (Option Secret)
  pub token : S → Text
  pub set_token : Text → S → S
  pub read_jwt : S → Result Text

-- The parameters that a method of authentication reads and that may not be empty.
abbrev pub needed : Text → List Text
needed auth_type =
    if same auth_type (codes "app-role")
    then codes "role-id" ∷ codes "secret-id" ∷ []
    else if same auth_type (codes "app-id")
    then codes "app-id" ∷ codes "user-id" ∷ []
    else if same auth_type (codes "github")
    then codes "token" ∷ []
    else if same auth_type (codes "token")
    then codes "token" ∷ []
    else if same auth_type (codes "userpass")
    then codes "username" ∷ codes "password" ∷ []
    else if same auth_type (codes "kubernetes")
    then codes "role-id" ∷ []
    else []

module _ {S : Type 0} (api : Api S) where
  unfoldable pub send : Text → Result (Dict Text) → Exec S (Option Secret)
  send url (err e) = raise e
  send url (ok data') = api.write url data'

  unfoldable pub send_token : Result Text → Exec S (Option Secret)
  send_token (err e) s = (err e, s)
  send_token (ok t) s = api.read (codes "/auth/token/lookup-self") (api.set_token t s)

  unfoldable pub send_user : Text → Result Text → Result Text → Exec S (Option Secret)
  send_user url (err e) password = raise e
  send_user url (ok username) (err e) = raise e
  send_user url (ok username) (ok password) =
      api.write (url ++ (codes "/" ++ username)) ((codes "password", password) ∷ [])

  -- The error of the request goes to a variable of the inner block, which nothing reads.
  unfoldable pub lose_error : Result (Option Secret) × S → Result (Option Secret) × S
  lose_error (err e, s) = (ok none, s)
  lose_error (ok secret, s) = (ok secret, s)

  unfoldable pub send_jwt : Text → Result Text → Result Text → Exec S (Option Secret)
  send_jwt url (err e) role s = (err e, s)
  send_jwt url (ok jwt) (err e) s = (err e, s)
  send_jwt url (ok jwt) (ok role) s =
      lose_error (api.write url ((codes "jwt", jwt) ∷ (codes "role", role) ∷ []) s)

  -- The switch over the methods.
  unfoldable pub request : Text → Text → Dict Text → Exec S (Option Secret)
  request auth_type url parameters s =
      if same auth_type (codes "app-role")
      then send url
          (body ((codes "role_id", codes "role-id") ∷ (codes "secret_id", codes "secret-id") ∷ [])
            parameters)
          s
      else if same auth_type (codes "app-id")
      then send url
          (body ((codes "app_id", codes "app-id") ∷ (codes "user_id", codes "user-id") ∷ [])
            parameters)
          s
      else if same auth_type (codes "github")
      then send url (body ((codes "token", codes "token") ∷ []) parameters) s
      else if same auth_type (codes "token")
      then send_token (get_parameter (codes "token") parameters) s
      else if same auth_type (codes "userpass")
      then send_user url (get_parameter (codes "username") parameters)
          (get_parameter (codes "password") parameters) s
      else if same auth_type (codes "kubernetes")
      then send_jwt url (api.read_jwt s) (get_parameter (codes "role-id") parameters) s
      else if same auth_type (codes "cert")
      then api.write url [] s
      else (ok none, s)

  -- The token of the secret is set, unless the client has one.
  unfoldable pub finish_login : Option Secret → Exec S (Unit {0})
  finish_login secret s =
      if same (api.token s) []
      then elim secret [
        | none ↦ (err (codes "Unable to authenticate"), s)
        | some found ↦ elim found.auth [
          | none ↦ (err (codes "Unable to authenticate"), s)
          | some t ↦ (ok tt, api.set_token t s)
        ]
      ]
      else (ok tt, s)

  -- `authenticate`
  unfoldable pub authenticate : Text → Dict Text → Exec S (Unit {0})
  authenticate auth_type parameters s =
      let (r, s') = request auth_type (login_url auth_type parameters) parameters s in
      continue r finish_login s'

  -- Where a parameter that the method needs is missing or empty, `authenticate` fails, and the
  -- client is as it was: nothing was sent and no token set.
  pub authenticate-missing :
      (auth_type : Text) (parameters : Dict Text) (s : S)
      → exists (λ key. same (value_of key parameters) []) (needed auth_type) ≡ true
      → ((authenticate auth_type parameters s).0 ≢ ok tt)
        × ((authenticate auth_type parameters s).1 ≡ s)
  unfolding authenticate request body get_parameter send send_token send_user send_jwt
  authenticate-missing auth_type parameters s h = ground (arith, h)

  finish_login-error :
      (secret : Option Secret) (s : S) (e : Error)
      → (finish_login secret s).0 ≡ err e
      → e ≡ codes "Unable to authenticate"
  unfolding finish_login
  finish_login-error secret s e h = ground arith

  lose_error-error :
      (r : Result (Option Secret) × S) (e : Error)
      → (continue (lose_error r).0 finish_login (lose_error r).1).0 ≡ err e
      → e ≡ codes "Unable to authenticate"
  unfolding lose_error
  lose_error-error (err x, s) e h = finish_login-error none s e h
  lose_error-error (ok secret, s) e h = finish_login-error secret s e h

  send_jwt-error :
      (url : Text) (jwt role : Result Text) (s : S) (e : Error)
      → (let (r, s') = send_jwt url jwt role s in continue r finish_login s').0 ≡ err e
      → (jwt ≡ err e) ⊎ (role ≡ err e) ⊎ (e ≡ codes "Unable to authenticate")
  unfolding send_jwt
  send_jwt-error url (err x) role s e h = let same_error : x ≡ e = cc in inl (ap err same_error)
  send_jwt-error url (ok jwt) (err x) s e h =
      let same_error : x ≡ e = cc in inr (inl (ap err same_error))
  send_jwt-error url (ok jwt) (ok role) s e h = inr (inr (lose_error-error _ e h))

  -- The error of a request of the Kubernetes method is never returned: an error of `authenticate` is
  -- that of reading the token of the service account, that of the missing role, or only tells that
  -- it is unable to authenticate, whatever Vault answers.
  pub authenticate-kubernetes :
      (parameters : Dict Text) (s : S) (e : Error)
      → (authenticate (codes "kubernetes") parameters s).0 ≡ err e
      → (api.read_jwt s ≡ err e)
        ⊎ (get_parameter (codes "role-id") parameters ≡ err e)
        ⊎ (e ≡ codes "Unable to authenticate")
  unfolding authenticate request text_dec
  authenticate-kubernetes parameters s e h =
      send_jwt-error (login_url (codes "kubernetes") parameters) (api.read_jwt s)
        (get_parameter (codes "role-id") parameters) s e h
