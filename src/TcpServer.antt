-- ===== src/TcpServer.antt =====
-- TcpServer.h and TcpServer.cc: the connections of a server by name. Texts are lists of characters,
-- what `snprintf` prints for `%d` is the parameter `Printf`, and a new connection object is known by
-- its address, an argument. What the server hands to a loop, to be called at once or queued, is in
-- `handed`, oldest first.
pub mod Map
pub mod Names
pub mod Start
pub mod Serve
pub mod Site
mod Tests
use mynuduo.Base.{
  ℕ, ◌+◌, ◌^◌, ◌≤◌, ◌<◌, ◌≡◌, Bool, true, false, ◌&&◌, Option, none, some, List, [], ◌∷◌, ◌++◌,
  length, take, ◌==◌, if◌then◌else◌, ◌>>=◌,
}
use mynuduo.ThreadPool
use mynuduo.ThreadPool.{ThreadPool, get_next_loop}

-- `%d` of a number that is not negative.
pub record Printf : Type 0 where
  pub digits : ℕ → List ℕ
  pub injective : (i j : ℕ) → digits i ≡ digits j → i ≡ j
  pub short : (i : ℕ) → i < 2147483648 → length (digits i) ≤ 10

-- `std::string::operator==`
pub same_name : List ℕ → List ℕ → Bool
same_name [] [] = true
same_name [] (y ∷ ys) = false
same_name (x ∷ xs) [] = false
same_name (x ∷ xs) (y ∷ ys) = x == y && same_name xs ys

-- `ConnectionMap`
module _ {V : Type 0} where
  pub find : List ℕ → List (List ℕ × V) → Option V
  unfolding same_name
  find k [] = none
  find k ((j, v) ∷ m) = if same_name j k then some v else find k m

  -- `connections_[k] = v`
  pub assign : List ℕ → V → List (List ℕ × V) → List (List ℕ × V)
  unfolding same_name
  assign k v [] = (k, v) ∷ []
  assign k v ((j, w) ∷ m) =
      let rest = assign k v m in if same_name j k then (j, v) ∷ m else (j, w) ∷ rest

  pub erase : List ℕ → List (List ℕ × V) → List (List ℕ × V)
  unfolding same_name
  erase k [] = []
  erase k ((j, w) ∷ m) = let rest = erase k m in if same_name j k then rest else (j, w) ∷ rest

module _ (L : Type 0) where
  -- The parts of a TcpConnection that the server uses.
  pub record Conn : Type 0 where
    pub self : ℕ
    pub name : List ℕ
    pub fd : ℕ
    pub loop : L

  pub data Task : Type 0 where
    listen_task : Task
    establish_task remove_task destroy_task : Conn → Task

  -- `started_` and `nextConnId_` are counts: they do not wrap round.
  pub record TcpServer : Type 0 where
    pub loop : L
    pub ip_port : List ℕ
    pub name : List ℕ
    pub pool : ThreadPool L
    pub started : ℕ
    pub next_conn_id : ℕ
    pub connections : List (List ℕ × Conn)
    pub handed : List (L × Task)

  pub new : L → List ℕ → List ℕ → TcpServer
  new loop ip_port name = record {
    loop = loop;
    ip_port = ip_port;
    name = name;
    pool = ThreadPool.new L loop;
    started = 0;
    next_conn_id = 1;
    connections = [];
    handed = [];
  }

  pub hand : L → Task → TcpServer → TcpServer
  hand l t s = record s { handed = s.handed ++ (l, t) ∷ [] }

  pub set_thread_num : ℕ → TcpServer → TcpServer
  set_thread_num n s = record s { pool = ThreadPool.set_thread_num L n s.pool }

  -- Only the first call does anything but count.
  pub start : (ℕ → L) → Bool → TcpServer → TcpServer
  unfolding hand
  start start_loop has_callback s =
      let s1 = record s { started = s.started + 1 } in
      if s.started == 0
      then hand s1.loop listen_task
          (record s1 { pool = (ThreadPool.start L start_loop has_callback s1.pool).1 })
      else s1

  -- `snprintf(buf, 64, "-%s#%d", ...)` keeps 63 characters; 45 is the dash and 35 the hash.
  pub conn_name : Printf → TcpServer → ℕ → List ℕ
  conn_name f s i = s.name ++ take 63 (45 ∷ s.ip_port ++ 35 ∷ f.digits i)

  -- `none` is a read out of range in `getNextLoop`.
  pub new_connection : Printf → ℕ → ℕ → TcpServer → Option TcpServer
  unfolding conn_name assign hand
  new_connection f self fd s = do
    let (chosen, pool') = get_next_loop L s.pool
    io_loop ← chosen
    let name = conn_name f s s.next_conn_id
    let conn : Conn = record { self = self; name = name; fd = fd; loop = io_loop }
    some (
        hand io_loop (establish_task conn) (record s {
          pool = pool';
          next_conn_id = s.next_conn_id + 1;
          connections = assign name conn s.connections;
        }))

  -- The close callback of each connection.
  pub remove_connection : Conn → TcpServer → TcpServer
  unfolding hand
  remove_connection c s = hand s.loop (remove_task c) s

  pub remove_connection_in_loop : Conn → TcpServer → TcpServer
  unfolding erase hand
  remove_connection_in_loop c s =
      hand c.loop (destroy_task c) (record s { connections = erase c.name s.connections })

  -- The destructor: every connection is destroyed on its own loop.
  destroy_all : List (List ℕ × Conn) → List (L × Task)
  destroy_all [] = []
  destroy_all ((n, c) ∷ m) = (c.loop, destroy_task c) ∷ destroy_all m

  pub destruct : TcpServer → List (L × Task)
  unfolding destroy_all
  destruct s = s.handed ++ destroy_all s.connections
