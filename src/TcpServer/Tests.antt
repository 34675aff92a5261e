-- ===== src/TcpServer/Tests.antt =====
-- The theorems about the server at concrete inputs.
use mynuduo.Base.{
  ◌≤◌, ◌+◌, Option, inr, ◌<◌, ℕ, ◌≡◌, refl, true, false, some, none, List, [], ◌∷◌, Returns, arith,
}
use mynuduo.Acceptor.{Acceptor}
use mynuduo.Channel.{read_event, added}
use mynuduo.Poller.Table.{table}
use mynuduo.TcpServer.Serve.{serve, accepted, Served, serve-Served}
use mynuduo.ThreadPool
use mynuduo.TcpServer
use mynuduo.TcpServer.{
  Printf, TcpServer, Conn, conn_name, new_connection, remove_connection, remove_connection_in_loop,
  hand, assign, establish_task, remove_task, destroy_task, destruct,
}
use mynuduo.TcpServer.Site.{
  Site, Reach, bare, moves, waiting, adopted, live, closed, removed, here, next, accepts,
  establishes, closes, removes,
}
use mynuduo.TcpServer.Site.Tasks.{Tasked, tasks_of}
use mynuduo.TcpServer.Site.Entries.{Stored}
use mynuduo.TcpServer.Site.Kept.{Reach-Kept}
use mynuduo.TcpServer.Site.Destroyed.{destruct-tasks_of}
use mynuduo.TcpServer.Names.{IsNumbered}

one_character-injective : (i j : ℕ) → i ∷ [] ≡ j ∷ [] → i ≡ j
one_character-injective i j h = cc

one_character-short : (i : ℕ) → i < 2147483648 → 1 ≤ 10
one_character-short i h = omega arith

-- A way to print numbers with one character for each.
abbrev one_character : Printf
one_character = record {
  digits = λ i. i ∷ [];
  injective = one_character-injective;
  short = one_character-short;
}

-- The server "S" on "1:2", with one connection, on loops that are numbers.
abbrev stored_conn : Conn ℕ
stored_conn = record { self = 500; name = 83 ∷ 45 ∷ 49 ∷ 58 ∷ 50 ∷ 35 ∷ 1 ∷ []; fd = 7; loop = 0 }

abbrev server : TcpServer ℕ
server = record {
  loop = 0;
  ip_port = 49 ∷ 58 ∷ 50 ∷ [];
  name = 83 ∷ [];
  pool = record { base_loop = 0; started = true; num_threads = 2; next = 1; loops = 10 ∷ 20 ∷ [] };
  started = 0;
  next_conn_id = 2;
  connections = (stored_conn.name, stored_conn) ∷ [];
  handed = [];
}

server-IsNumbered : IsNumbered ℕ one_character server
unfolding conn_name
server-IsNumbered = ((1, omega arith, refl), tt)

loop_given : (ThreadPool.get_next_loop ℕ server.pool).0 ≡ some 20
unfolding ThreadPool.get_next_loop
loop_given = refl

-- The acceptor of the server, on descriptor 3.
abbrev acceptor : Acceptor table
acceptor = record {
  socket = record {
    fd = 3;
    no_delay = false;
    reuse_addr = true;
    reuse_port = true;
    keep_alive = false;
    bound = true;
    listens = true;
    write_shut = false;
  };
  channel = record {
    self = 100;
    fd = 3;
    events = read_event;
    revents = read_event;
    index = added;
    owner = none;
    tied = false;
  };
  listenning = true;
  poller = record { epoll = λ j. none; channels = []; capacity = 16 };
  closed = [];
}

-- Two connections are accepted, and one call fails between them.
abbrev answers : List (Option (ℕ × ℕ))
answers = some (600, 8) ∷ none ∷ some (601, 9) ∷ []

two_accepted : server.next_conn_id + accepted ℕ one_character table answers < 2147483648
unfolding accepted
two_accepted = omega arith

serve-Served_example :
    Returns
      (λ r. (r.0 ≡ acceptor) × Served ℕ one_character table answers server r.1)
      (serve ℕ one_character table answers acceptor server)
serve-Served_example =
    serve-Served ℕ one_character table answers acceptor server (inr (omega arith)) (omega arith)
      two_accepted server-IsNumbered

-- A server without loops of its own, with one connection that has been established, closed and taken
-- out, and is to be destroyed.
abbrev new_site : Site ℕ
new_site = bare ℕ 0 (49 ∷ 58 ∷ 50 ∷ []) (83 ∷ [])

abbrev only : Conn ℕ
only = record { self = 600; name = 83 ∷ 45 ∷ 49 ∷ 58 ∷ 50 ∷ 35 ∷ 1 ∷ []; fd = 8; loop = 0 }

abbrev with_only : TcpServer ℕ
with_only = record {
  loop = 0;
  ip_port = 49 ∷ 58 ∷ 50 ∷ [];
  name = 83 ∷ [];
  pool = ThreadPool.new ℕ 0;
  started = 0;
  next_conn_id = 2;
  connections = (only.name, only) ∷ [];
  handed = (0, establish_task only) ∷ [];
}

abbrev adopted_site : Site ℕ
adopted_site = moves ℕ only (adopted only) with_only new_site

abbrev live_site : Site ℕ
live_site = moves ℕ only (live only) (waiting ℕ [] adopted_site) adopted_site

abbrev closed_site : Site ℕ
closed_site = moves ℕ only (closed only) (remove_connection ℕ only live_site.server) live_site

abbrev removed_site : Site ℕ
removed_site =
    moves ℕ only (removed only) (remove_connection_in_loop ℕ only (waiting ℕ [] closed_site))
      closed_site

closed_site-Reach : Reach ℕ one_character new_site closed_site
unfolding new_connection conn_name ThreadPool.get_next_loop ThreadPool.new remove_connection hand
    TcpServer.new assign
closed_site-Reach =
    next
      (next (next here (accepts 600 8 0 with_only refl refl (omega arith) refl))
        (establishes 0 only [] [] refl))
      (closes only refl)

removed_site-Reach : Reach ℕ one_character new_site removed_site
unfolding new_connection conn_name ThreadPool.get_next_loop ThreadPool.new remove_connection hand
    TcpServer.new assign
removed_site-Reach =
    next
      (next
        (next (next here (accepts 600 8 0 with_only refl refl (omega arith) refl))
          (establishes 0 only [] [] refl))
        (closes only refl))
      (removes 0 only [] [] refl)

Reach-Kept_example :
    Tasked ℕ removed_site.stage removed_site.server.handed
    × Stored ℕ removed_site.stage removed_site.server.connections
Reach-Kept_example =
    Reach-Kept ℕ one_character 0 (49 ∷ 58 ∷ 50 ∷ []) (83 ∷ []) (omega arith) removed_site-Reach

-- The server is destroyed while the connection is closed and has not been taken out.
destruct-tasks_of_example :
    tasks_of ℕ 600 (destruct ℕ closed_site.server) ≡ remove_task only ∷ destroy_task only ∷ []
destruct-tasks_of_example =
    destruct-tasks_of ℕ one_character 0 (49 ∷ 58 ∷ 50 ∷ []) (83 ∷ []) (omega arith)
      closed_site-Reach 600
