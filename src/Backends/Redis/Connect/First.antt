-- ===== src/Backends/Redis/Connect/First.antt =====
-- Which machine is chosen, and when the test of a connection panics.
use confd.Prelude.{
  ◌≡◌, refl, ap, ◌∙◌, ◌↔◌, ◌≢◌, Bool, true, false, Option, none, some, List, ◌∷◌, arith,
}
use mathlib.Core.Option.{some-injective}
use confd.Std.Text.{Text}
use confd.Std.Result.{Error, Result, ok, err}
use confd.Std.Int.{ℤ}
use confd.Backends.Redis.{panics}
use confd.Backends.Redis.Connect.Address.{IsTarget}
use confd.Backends.Redis.Connect.{
  Target, Net, PingError, try_connect, is_pong, unusable, test_connection, connected_by, reconnect,
  connected_client,
}

module _ {Conn : Type 0} (net : Net Conn) where
  -- A machine is dialled: at the target that its address names, as a path where such a path exists.
  abbrev pub dialled : Text → Bool → Target → Result Conn
  dialled password timeout t =
      net.dial
        (record { unix = net.exists t.address; target = t; password = password; timeout = timeout })

  -- A machine answers, and all before it refused.
  pub data FirstOf (password : Text) (timeout : Bool) : List Text → Conn → ℤ → Type 0 where
    here :
        {machine : Text} {machines : List Text} {conn : Conn} (t : Target)
        → IsTarget machine t
        → dialled password timeout t ≡ ok conn
        → FirstOf password timeout (machine ∷ machines) conn t.db
    next :
        {machine : Text} {machines : List Text} {conn : Conn} {db : ℤ} (t : Target) (e : Error)
        → IsTarget machine t
        → dialled password timeout t ≡ err e
        → FirstOf password timeout machines conn db
        → FirstOf password timeout (machine ∷ machines) conn db

  connected_by-returns : (r : Result (Option (Conn × ℤ))) → connected_by r ≢ panics
  unfolding connected_by
  connected_by-returns (err e) h = cc
  connected_by-returns (ok none) h = cc
  connected_by-returns (ok (some c)) h = cc

  tested-panics :
      (conn : Conn) (machines : List Text) (password : Text) (reply : Option Text)
      (e : Option PingError)
      → (reconnect net machines password (test_connection conn (reply, e)) ≡ panics)
        ↔ ((e ≡ none) × (is_pong reply ≡ false))
  unfolding test_connection reconnect unusable
  tested-panics conn machines password reply e =
      let n = connected_by-returns (try_connect net machines password true) in ground (arith, n)

  -- `connectedClient` panics exactly where there is a connection whose PING returns no error and
  -- anything but PONG: the message of the error that is not there is to be logged.
  pub connected_client-panics :
      (machines : List Text) (password : Text) (client : Option Conn)
      → (connected_client net machines password client ≡ panics) ↔ (
          (conn : Conn) × (client ≡ some conn)
          × ((net.ping conn).1 ≡ none)
          × (is_pong (net.ping conn).0 ≡ false))
  unfolding connected_client reconnect
  connected_client-panics machines password none = (
    λ h. absurd (connected_by-returns (try_connect net machines password true) h),
    λ (conn, e, p, q). cc,
  )
  connected_client-panics machines password (some conn) =
      let t = tested-panics conn machines password (net.ping conn).0 (net.ping conn).1 in
      (
        λ h. (conn, refl, (t.0 h).0, (t.0 h).1),
        λ (c, e, p, q).
            let r : conn ≡ c = some-injective _ _ e in
            t.1 (ap (λ d. (net.ping d).1) r ∙ p, ap (λ d. is_pong (net.ping d).0) r ∙ q),
      )
