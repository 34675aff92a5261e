-- ===== src/TcpServer/Site.antt =====
-- TcpServer: the server with all its connection objects, as a step relation. The tasks that the server
-- has handed to the loops and that have not been called yet are its `handed`; the loops call them in any
-- order. An object is known by its address, which is not used again, and by where it stands in its life.
-- A connection is accepted while `nextConnId_` is an `int`.
pub mod Tasks
pub mod Entries
pub mod Kept
pub mod Destroyed
use mynuduo.Base.{
  ℕ, ◌<◌, ◌≡◌, Bool, true, false, Option, none, some, List, [], ◌∷◌, ◌++◌, ◌==◌, if◌then◌else◌,
}
use mynuduo.ThreadPool.{get_next_loop}
use mynuduo.TcpServer
use mynuduo.TcpServer.{
  Printf, Conn, Task, TcpServer, conn_name, new_connection, remove_connection,
  remove_connection_in_loop, start, listen_task, establish_task, remove_task, destroy_task,
}

module _ (L : Type 0) where
  -- The life of a connection object: made by `newConnection`, past `connectEstablished`, past
  -- `handleClose`, taken out of `connections_`, past `connectDestroyed`.
  pub data Stage : Type 0 where
    absent : Stage
    adopted live closed removed gone : Conn L → Stage

  pub record Site : Type 0 where
    pub server : TcpServer L
    pub stage : ℕ → Stage

  abbrev pub set_stage : ℕ → Stage → (ℕ → Stage) → ℕ → Stage
  set_stage a v f j = if a == j then v else f j

  abbrev pub moves : Conn L → Stage → TcpServer L → Site → Site
  moves c v t s = record { server = t; stage = set_stage c.self v s.stage }

  abbrev pub waiting : List (L × Task L) → Site → TcpServer L
  waiting ts s = record (s.server) { handed = ts }

  -- The object that `newConnection` makes.
  abbrev pub fresh : Printf → ℕ → ℕ → L → Site → Conn L
  fresh f self fd io_loop s = record {
    self = self;
    name = conn_name L f s.server s.server.next_conn_id;
    fd = fd;
    loop = io_loop;
  }

  pub data Step (f : Printf) (s : Site) : Site → Type 0 where
    starts :
        (start_loop : ℕ → L) (has_callback : Bool)
        → Step f s (record s { server = start L start_loop has_callback s.server })
    listens :
        (l : L) (pre post : List (L × Task L))
        → s.server.handed ≡ pre ++ (l, listen_task) ∷ post
        → Step f s (record s { server = waiting (pre ++ post) s })
    accepts :
        (self fd : ℕ) (io_loop : L) (t : TcpServer L)
        → s.stage self ≡ absent
        → (get_next_loop L s.server.pool).0 ≡ some io_loop
        → s.server.next_conn_id < 2147483648
        → new_connection L f self fd s.server ≡ some t
        → Step f s (moves (fresh f self fd io_loop s) (adopted (fresh f self fd io_loop s)) t s)
    establishes :
        (l : L) (c : Conn L) (pre post : List (L × Task L))
        → s.server.handed ≡ pre ++ (l, establish_task c) ∷ post
        → Step f s (moves c (live c) (waiting (pre ++ post) s) s)
    closes :
        (c : Conn L)
        → s.stage c.self ≡ live c
        → Step f s (moves c (closed c) (remove_connection L c s.server) s)
    removes :
        (l : L) (c : Conn L) (pre post : List (L × Task L))
        → s.server.handed ≡ pre ++ (l, remove_task c) ∷ post
        → Step f s (moves c (removed c) (remove_connection_in_loop L c (waiting (pre ++ post) s)) s)
    destroys :
        (l : L) (c : Conn L) (pre post : List (L × Task L))
        → s.server.handed ≡ pre ++ (l, destroy_task c) ∷ post
        → Step f s (moves c (gone c) (waiting (pre ++ post) s) s)

  pub data Reach (f : Printf) (s : Site) : Site → Type 0 where
    here : Reach f s s
    next : {t u : Site} → Reach f s t → Step f t u → Reach f s u

  -- A new server, without connections.
  abbrev pub bare : L → List ℕ → List ℕ → Site
  bare loop ip_port name = record {
    server = TcpServer.new L loop ip_port name;
    stage = λ a. absent;
  }
