-- ===== src/Backends/Redis/Connect.antt =====
-- pkg/backends/redis/client.go: `tryConnect` and `connectedClient`.
pub mod Address
pub mod First
use confd.Prelude.{
  ℕ, ◌+◌, ◌≡◌, refl, Bool, true, false, not, ◌&&◌, ◌||◌, Option, none, some, List, [], ◌∷◌, ◌++◌,
  take, drop, if◌then◌else◌,
}
use confd.Std.Text.{Text, codes, same, index}
use confd.Std.Result.{Error, Result, ok, err}
use confd.Std.Int.{ℤ}
use confd.Std.Strconv.{atoi, atoi_value}
use confd.Backends.Redis.{Call, returns, fails, panics}

-- An address as it is dialled, and the number of the database.
pub record Target : Type 0 where
  pub address : Text
  pub db : ℤ

-- What stands behind the first slash is the database, if it is a number. The value that `Atoi`
-- returns beside an error is kept, and the address is left whole.
unfoldable pub split_database : Text → Option ℕ → Target
split_database address none = record { address = address; db = ℤ.pos 0 }
split_database address (some idx) = elim (atoi (drop (idx + 1) address)) [
  | ok db ↦ record { address = take idx address; db = db }
  | err e ↦ record { address = address; db = atoi_value (drop (idx + 1) address) }
]

unfoldable pub target_of : Text → Target
target_of address = split_database address (index address (codes "/"))

-- The options of `redis.Dial`: whether the address is a path that `os.Stat` finds, the address,
-- the database, the password, and whether reading has a time limit.
pub record Dialling : Type 0 where
  pub unix : Bool
  pub target : Target
  pub password : Text
  pub timeout : Bool

-- What a command on a connection may return beside its reply.
pub data PingError : Type 0 where
  err_nil : PingError
  other : Error → PingError

-- The machines around: which paths exist, how a connection is made, and what PING returns on it,
-- its reply if that is a text and its error if there is one.
pub record Net (Conn : Type 0) : Type 0 where
  pub exists : Text → Bool
  pub dial : Dialling → Result Conn
  pub ping : Conn → Option Text × Option PingError

abbrev is_err_nil : Option PingError → Bool
is_err_nil (some err_nil) = true
is_err_nil _ = false

abbrev pub is_pong : Option Text → Bool
is_pong none = false
is_pong (some reply) = same reply (codes "PONG")

-- `if (err != nil && err == redis.ErrNil) || resp != "PONG"`
unfoldable pub unusable : Option Text × Option PingError → Bool
unusable (reply, e) = is_err_nil e || not (is_pong reply)

module _ {Conn : Type 0} where
  -- What is left of an existing connection. The message of the error is logged, and where there is
  -- none the call on nil panics.
  unfoldable pub test_connection : Conn → Option Text × Option PingError → Call (Option Conn)
  test_connection conn (reply, e) =
      if unusable (reply, e)
      then elim e [ none ↦ panics | some _ ↦ returns none ]
      else returns (some conn)

  -- The connection of a new try, or its error.
  unfoldable pub connected_by : Result (Option (Conn × ℤ)) → Call (Option Conn)
  connected_by (err e) = fails e
  connected_by (ok none) = returns none
  connected_by (ok (some (conn, db))) = returns (some conn)

module _ {Conn : Type 0} (net : Net Conn) where
  -- One round of the loop over the machines.
  unfoldable pub dial_machine : Text → Bool → Text → Result Conn
  dial_machine password timeout machine =
      let target = target_of machine in
      net.dial (record {
        unix = net.exists target.address;
        target = target;
        password = password;
        timeout = timeout;
      })

  -- The machines in turn: the first connection with its database, or the last error. `last` is
  -- the error so far; without one `tryConnect` returns neither a connection nor an error.
  unfoldable pub connect_from : Option Error → Text → Bool → List Text → Result (Option (Conn × ℤ))
  connect_from none password timeout [] = ok none
  connect_from (some e) password timeout [] = err e
  connect_from last password timeout (machine ∷ machines) =
      elim (dial_machine password timeout machine) [
        | ok conn ↦ ok (some (conn, (target_of machine).db))
        | err e ↦ connect_from (some e) password timeout machines
      ]

  -- `tryConnect`
  unfoldable pub try_connect : List Text → Text → Bool → Result (Option (Conn × ℤ))
  try_connect machines password timeout = connect_from none password timeout machines

  unfoldable pub reconnect : List Text → Text → Call (Option Conn) → Call (Option Conn)
  reconnect machines password (returns none) = connected_by (try_connect machines password true)
  reconnect machines password tested = tested

  -- `connectedClient`, at the client that is kept: the connection that it returns and keeps.
  unfoldable pub connected_client : List Text → Text → Option Conn → Call (Option Conn)
  connected_client machines password none = reconnect machines password (returns none)
  connected_client machines password (some conn) =
      reconnect machines password (test_connection conn (net.ping conn))
