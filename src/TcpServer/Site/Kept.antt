-- ===== src/TcpServer/Site/Kept.antt =====
-- TcpServer/Site: what holds in every state that the server can reach.
use mynuduo.Base.{
  ℕ, ◌≡◌, ◌≤◌, ◌+◌, Bool, refl, sym, ap, subst, ◌∙◌, some, List, [], ◌∷◌, ◌++◌, ◌==◌, length,
  if_rule, arith, append-nil,
}
use mynuduo.ThreadPool.{get_next_loop}
use mynuduo.TcpServer
use mynuduo.TcpServer.{
  Printf, Conn, Task, TcpServer, conn_name, new_connection, assign, find, hand, start,
  remove_connection, remove_connection_in_loop, listen_task, establish_task, remove_task,
  destroy_task,
}
use mynuduo.TcpServer.Map.{
  Apart, assign-Apart, erase-Apart, assign-EachKey, erase-EachKey, EachKey-mono,
}
use mynuduo.TcpServer.Names.{IsNumbered, unused_lem}
use mynuduo.TcpServer.Site.{
  Site, adopted, live, closed, removed, gone, Step, Reach, starts, listens, accepts, establishes,
  closes, removes, destroys, here, next, bare, fresh, set_stage,
}
use mynuduo.TcpServer.Site.Tasks.{
  tasks_of, due, Tasked, tasks_of-append, called-due, called-Tasked, added-Tasked, ignored-Tasked,
  added_task, no_task, due-adopted, due-closed, due-removed,
}
use mynuduo.TcpServer.Site.Entries.{Stored, held, set-Stored, assign-Stored, erase-Stored}

module _ (L : Type 0) (f : Printf) where
  pub record Inv (s : Site L) : Type 0 where
    pub address : length s.server.ip_port ≤ 21
    pub numbered : IsNumbered L f s.server
    pub tasked : Tasked L s.stage s.server.handed
    pub stored : Stored L s.stage s.server.connections
    pub apart : Apart s.server.connections

  start-Inv :
      (s : Site L) (start_loop : ℕ → L) (has_callback : Bool)
      → Inv s
      → Inv (record s { server = start L start_loop has_callback s.server })
  unfolding start hand conn_name tasks_of
  start-Inv s start_loop has_callback v =
      if_rule (λ t. Inv (record s { server = t })) (s.server.started == 0)
        (λ _. record {
          address = v.address;
          numbered = v.numbered;
          tasked = λ a.
              tasks_of-append L a s.server.handed ((s.server.loop, listen_task) ∷ [])
              ∙ append-nil (tasks_of L a s.server.handed)
              ∙ v.tasked a;
          stored = v.stored;
          apart = v.apart;
        })
        λ _. record {
          address = v.address;
          numbered = v.numbered;
          tasked = v.tasked;
          stored = v.stored;
          apart = v.apart;
        }

  -- What `newConnection` makes of the server.
  abbrev made : ℕ → ℕ → L → Site L → TcpServer L
  made self fd io_loop s =
      let c = fresh L f self fd io_loop s in
      record (s.server) {
        pool = (get_next_loop L s.server.pool).1;
        next_conn_id = s.server.next_conn_id + 1;
        connections = assign c.name c s.server.connections;
        handed = s.server.handed ++ (io_loop, establish_task c) ∷ [];
      }

  new_connection-made :
      (self fd : ℕ) (io_loop : L) (s : Site L)
      → (get_next_loop L s.server.pool).0 ≡ some io_loop
      → new_connection L f self fd s.server ≡ some (made self fd io_loop s)
  unfolding new_connection hand
  new_connection-made self fd io_loop s given = rw given refl

  Step-Inv : {s t : Site L} → Step L f s t → Inv s → Inv t
  unfolding conn_name remove_connection remove_connection_in_loop hand
  Step-Inv {s} (starts start_loop has_callback) v = start-Inv s start_loop has_callback v
  Step-Inv {s} (listens l pre post e) v = record {
    address = v.address;
    numbered = v.numbered;
    tasked = ignored-Tasked L s.stage l pre post (subst (Tasked L s.stage) e v.tasked);
    stored = v.stored;
    apart = v.apart;
  }
  Step-Inv {s} (accepts self fd io_loop t out given room called) v =
      let c = fresh L f self fd io_loop s in
      let one : some (made self fd io_loop s) ≡ some t =
        sym (new_connection-made self fd io_loop s given) ∙ called in
      let same : made self fd io_loop s ≡ t = cc in
      subst (λ t. Inv (record { server = t; stage = set_stage L self (adopted c) s.stage })) same
        (record {
          address = v.address;
          numbered =
              assign-EachKey _ c.name c s.server.connections
                (s.server.next_conn_id, omega arith, refl)
                (EachKey-mono _ _ s.server.connections (λ k (i, less, e). (i, omega arith, e))
                  v.numbered);
          tasked =
              added-Tasked L c (adopted c) s.stage s.server.handed
                ((io_loop, establish_task c) ∷ [])
                (added_task L c (adopted c) io_loop (establish_task c) (λ a. refl) refl)
                (ap (due L) out) v.tasked;
          stored =
              assign-Stored L c s.stage s.server.connections out
                (unused_lem L f s.server v.address room v.numbered) v.stored;
          apart = assign-Apart c.name c s.server.connections v.apart;
        })
  Step-Inv {s} (establishes l c pre post e) v =
      let h = subst (Tasked L s.stage) e v.tasked in
      let at =
        due-adopted L c (s.stage c.self)
          ((called-due L c s.stage l (establish_task c) pre post (ground arith) h).0) in
      record {
        address = v.address;
        numbered = v.numbered;
        tasked = subst (Tasked L (set_stage L c.self (live c) s.stage)) (append-nil (pre ++ post)) (
            called-Tasked L c (live c) s.stage l (establish_task c) pre post [] (λ a. refl)
              (no_task L c (live c) refl) h);
        stored =
            set-Stored L c (live c) s.stage s.server.connections (sym (ap (held L) at)) v.stored;
        apart = v.apart;
      }
  Step-Inv {s} (closes c up) v = record {
    address = v.address;
    numbered = v.numbered;
    tasked =
        added-Tasked L c (closed c) s.stage s.server.handed ((s.server.loop, remove_task c) ∷ [])
          (added_task L c (closed c) s.server.loop (remove_task c) (λ a. refl) refl) (ap (due L) up)
          v.tasked;
    stored = set-Stored L c (closed c) s.stage s.server.connections (sym (ap (held L) up)) v.stored;
    apart = v.apart;
  }
  Step-Inv {s} (removes l c pre post e) v =
      let h = subst (Tasked L s.stage) e v.tasked in
      let at =
        due-closed L c (s.stage c.self)
          ((called-due L c s.stage l (remove_task c) pre post (ground arith) h).0) in
      record {
        address = v.address;
        numbered = erase-EachKey _ c.name s.server.connections v.numbered;
        tasked =
            called-Tasked L c (removed c) s.stage l (remove_task c) pre post
              ((c.loop, destroy_task c) ∷ []) (λ a. refl)
              (added_task L c (removed c) c.loop (destroy_task c) (λ a. refl) refl) h;
        stored = erase-Stored L c s.stage s.server.connections at v.stored;
        apart = erase-Apart c.name s.server.connections v.apart;
      }
  Step-Inv {s} (destroys l c pre post e) v =
      let h = subst (Tasked L s.stage) e v.tasked in
      let at =
        due-removed L c (s.stage c.self)
          ((called-due L c s.stage l (destroy_task c) pre post (ground arith) h).0) in
      record {
        address = v.address;
        numbered = v.numbered;
        tasked = subst (Tasked L (set_stage L c.self (gone c) s.stage)) (append-nil (pre ++ post)) (
            called-Tasked L c (gone c) s.stage l (destroy_task c) pre post [] (λ a. refl)
              (no_task L c (gone c) refl) h);
        stored =
            set-Stored L c (gone c) s.stage s.server.connections (sym (ap (held L) at)) v.stored;
        apart = v.apart;
      }

  pub bare-Inv :
      (loop : L) (ip_port name : List ℕ) → length ip_port ≤ 21 → Inv (bare L loop ip_port name)
  unfolding TcpServer.new tasks_of find
  bare-Inv loop ip_port name h = record {
    address = h;
    numbered = tt;
    tasked = λ a. refl;
    stored = record { sound = λ n d e. absurd (cc); complete = λ a d e. absurd (cc) };
    apart = tt;
  }

  pub Reach-Inv : {s t : Site L} → Inv s → Reach L f s t → Inv t
  Reach-Inv v here = v
  Reach-Inv v (next r x) = Step-Inv x (Reach-Inv v r)

  -- In every state that a new server can reach, whose address is no longer than an IPv4 address with its
  -- port, however the loops take turns with the tasks handed to them: each connection object has exactly
  -- the tasks waiting that its stage calls for, namely `connectEstablished` once after `newConnection`,
  -- `removeConnectionInLoop` once after `handleClose`, `connectDestroyed` once after that, and none at any
  -- other time; and `connections_` holds, under their names, exactly the objects that `newConnection` has
  -- made and `removeConnectionInLoop` has not taken out.
  pub Reach-Kept :
      (loop : L) (ip_port name : List ℕ) {s : Site L}
      → length ip_port ≤ 21
      → Reach L f (bare L loop ip_port name) s
      → Tasked L s.stage s.server.handed × Stored L s.stage s.server.connections
  Reach-Kept loop ip_port name h r =
      let v = Reach-Inv (bare-Inv loop ip_port name h) r in (v.tasked, v.stored)
