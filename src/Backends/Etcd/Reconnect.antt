-- ===== src/Backends/Etcd/Reconnect.antt =====
-- The goroutine of `createWatch`: connection after connection, each from where the last one stopped.
use confd.Prelude.{ℕ, Option, none, List, [], ◌∷◌}
use confd.Backends.Etcd.Watch.{Response, Watch, new_watch, respond_all, resume_from}

-- What a connection answers until it is stopped, by the revision that it starts from (`none` for the
-- latest) and a number that stands for the connection.
abbrev pub Connections : Type 0
Connections = Option ℕ → ℕ → List Response

-- The loop, for the connections given.
unfoldable pub reconnect_loop : Connections → List ℕ → Option ℕ → Watch → Watch
reconnect_loop connect [] start w = w
reconnect_loop connect (c ∷ cs) start w =
    let w' = respond_all (connect start c) w in reconnect_loop connect cs (resume_from w') w'

-- `createWatch`
unfoldable pub create_watch : Connections → List ℕ → Watch
create_watch connect cs = reconnect_loop connect cs none new_watch
