-- ===== src/Backends/Redis.antt =====
-- pkg/backends/redis/client.go: the names of keys and `GetValues` over the answers of one server.
-- Connect is the choice of the server, Client the client that keeps its connection, Watch is
-- `WatchPrefix`.
pub mod Connect
pub mod Watch
pub mod Names
pub mod Scans
pub mod Client
use confd.Prelude.{ℕ, zero, suc, Bool, true, false, List, [], ◌∷◌, ◌++◌, if◌then◌else◌}
use confd.Std.Text.{Text, codes, same, has_prefix, trim_prefix, replace_all}
use confd.Std.Result.{Error}
use confd.Std.Dict.{Dict, insert}
use confd.Std.Path.{slash}

abbrev pub root : Text
root = slash ∷ []

-- `separator == ""` in `NewRedisClient`.
unfoldable pub separator_or_slash : Text → Text
separator_or_slash [] = root
separator_or_slash (c ∷ separator) = c ∷ separator

-- `transform`
unfoldable pub transform : Text → Text → Text
transform separator key =
    if same separator root then key else replace_all (trim_prefix key root) root separator

-- `clean`
unfoldable pub clean : Text → Text → Text
clean separator key = replace_all (if has_prefix key root then key else slash ∷ key) separator root

-- What a command returns: a value, `redis.ErrNil`, or another error.
pub data Answer (A : Type 0) : Type 0 where
  ok : A → Answer A
  nil : Answer A
  err : Error → Answer A

-- One part of a scan: the next cursor, which is 0 after the last part, and the items.
pub record Page : Type 0 where
  pub cursor : ℕ
  pub items : List Text

-- The commands TYPE, GET, HSCAN of a key at a cursor, and SCAN at a cursor for a pattern.
pub record Server : Type 0 where
  pub type_of : Text → Answer Text
  pub get : Text → Answer Text
  pub hscan : Text → ℕ → Answer Page
  pub scan : ℕ → Text → Answer Page

-- How a call ends. A scan that is followed for too few parts is `unfinished`.
pub data Call (A : Type 0) : Type 0 where
  returns : A → Call A
  fails : Error → Call A
  panics : Call A
  unfinished : Call A

abbrev pub and_then : {A B : Type 0} → Call A → (A → Call B) → Call B
and_then (returns a) f = f a
and_then (fails e) f = fails e
and_then panics f = panics
and_then unfinished f = unfinished

-- The fields and values of a hash, which HSCAN sends in turn; a field without a value is an
-- index out of range.
unfoldable pub add_fields : Text → Text → List Text → Dict Text → Call (Dict Text)
add_fields separator k [] vars = returns vars
add_fields separator k (field ∷ []) vars = panics
add_fields separator k (field ∷ value ∷ items) vars =
    add_fields separator k items (insert (clean separator (k ++ (slash ∷ field))) value vars)

-- A key that is found is read, and passed over where it cannot be read as a string.
unfoldable pub add_value : Text → Text → Answer Text → Dict Text → Dict Text
add_value separator key (ok value) vars = insert (clean separator key) value vars
add_value separator key nil vars = vars
add_value separator key (err e) vars = vars

unfoldable pub add_keys : Server → Text → List Text → Dict Text → Dict Text
add_keys server separator [] vars = vars
add_keys server separator (key ∷ keys) vars =
    add_keys server separator keys (add_value separator key (server.get key) vars)

-- The loop of a scan, for a number of parts: each part is asked for at the cursor of the one
-- before. A reply of nil has no parts, and `values[0]` is an index out of range.
unfoldable pub scan_loop :
    ℕ
    → (ℕ → Answer Page)
    → (List Text → Dict Text → Call (Dict Text))
    → ℕ
    → Dict Text
    → Call (Dict Text)
scan_loop zero ask add idx vars = unfinished
scan_loop (suc parts) ask add idx vars = elim (ask idx) [
  | err e ↦ fails e
  | nil ↦ panics
  | ok page ↦ and_then (add page.items vars) (λ vars'. elim page.cursor [
    | zero ↦ returns vars'
    | suc c ↦ scan_loop parts ask add (suc c) vars'
  ])
]

-- The pattern of the keys below a key. A separator has no `%`.
unfoldable pub pattern_below : Text → Text → Text → Text
pattern_below separator key k = if same key root then codes "*" else k ++ (separator ++ codes "*")

unfoldable pub read_string : Text → Answer Text → Dict Text → Call (Dict Text)
read_string key (ok value) vars = returns (insert key value vars)
read_string key nil vars = returns vars
read_string key (err e) vars = fails e

-- A string is read, a hash is scanned for its fields, and for any other type, the missing key
-- among them, the server is scanned for the keys below.
unfoldable pub read_typed :
    Server → ℕ → Text → Text → Text → Answer Text → Dict Text → Call (Dict Text)
read_typed server parts separator key k (err e) vars = fails e
read_typed server parts separator key k nil vars = fails (codes "redigo: nil returned")
read_typed server parts separator key k (ok t) vars =
    if same t (codes "string")
    then read_string key (server.get k) vars
    else if same t (codes "hash")
    then scan_loop parts (server.hscan k) (add_fields separator k) 0 vars
    else scan_loop parts (λ idx. server.scan idx (pattern_below separator key k))
        (λ keys vars'. returns (add_keys server separator keys vars')) 0 vars

unfoldable pub read_key : Server → ℕ → Text → Text → Dict Text → Call (Dict Text)
read_key server parts separator key vars =
    let k = transform separator key in
    read_typed server parts separator key k (server.type_of k) vars

unfoldable pub read_keys : Server → ℕ → Text → List Text → Dict Text → Call (Dict Text)
read_keys server parts separator [] vars = returns vars
read_keys server parts separator (key ∷ keys) vars =
    and_then (read_key server parts separator (replace_all key (codes "/*") []) vars)
      (λ vars'. read_keys server parts separator keys vars')

-- `GetValues` on a connected client, with the number of parts that each scan is followed for.
unfoldable pub get_values : Server → ℕ → Text → List Text → Call (Dict Text)
get_values server parts separator keys = read_keys server parts separator keys []
