-- ===== src/TcpServer/Names.antt =====
-- TcpServer: names are fresh, so that no connection takes the place of another.
use mynuduo.Base.{
  Returns, Bool-cases, inl, inr, ℕ, ◌≤◌, ◌<◌, ◌≡◌, refl, ◌∙◌, sym, ap, false, none, some, List, [],
  ◌∷◌, ◌++◌, length, drop, arith, take_all, length-append,
}
use mynuduo.ThreadPool.{get_next_loop}
use mynuduo.TcpServer.{
  Printf, same_name, find, Conn, TcpServer, conn_name, hand, new_connection,
  remove_connection_in_loop, establish_task, destroy_task,
}
use mynuduo.TcpServer.Map.{
  same_name_lem, cancel_left, find-assign_same, find-assign_other, find-erase_same,
  find-erase_other, EachKey, EachKey-mono, assign-EachKey, erase-EachKey, find-none,
}

module _ (L : Type 0) (f : Printf) where
  -- The name with the number `i` is not cut off.
  conn_name_inj :
      (s : TcpServer L) (i j : ℕ)
      → length s.ip_port ≤ 21
      → i < 2147483648
      → j < 2147483648
      → conn_name L f s i ≡ conn_name L f s j
      → i ≡ j
  unfolding conn_name
  conn_name_inj s i j h a b e =
      let text : ℕ → List ℕ = λ n. 45 ∷ s.ip_port ++ 35 ∷ f.digits n in
      let size_i = length-append s.ip_port (35 ∷ f.digits i) in
      let size_j = length-append s.ip_port (35 ∷ f.digits j) in
      let tail_i = take_all 63 (text i) (omega (arith, h, f.short i a, size_i)) in
      let tail_j = take_all 63 (text j) (omega (arith, h, f.short j b, size_j)) in
      let cut : text i ≡ text j = sym tail_i ∙ cancel_left s.name e ∙ tail_j in
      let printed : 35 ∷ f.digits i ≡ 35 ∷ f.digits j = cancel_left s.ip_port (ap (drop 1) cut) in
      f.injective i j (ap (drop 1) printed)

  -- Every name in `connections_` is that of a number given out before.
  abbrev pub IsNumbered : TcpServer L → Type 0
  IsNumbered s =
      EachKey (λ k. (i : ℕ) × (i < s.next_conn_id) × (k ≡ conn_name L f s i)) s.connections

  -- What `newConnection` promises of its result `t`, with the loop that the pool gives.
  pub record Added (self fd : ℕ) (io_loop : L) (s t : TcpServer L) : Type 0 where
    pub conn : Conn L
    pub named : conn.name ≡ conn_name L f s s.next_conn_id
    pub object : (conn.self ≡ self) × (conn.fd ≡ fd) × (conn.loop ≡ io_loop)
    pub base : t.loop ≡ s.loop
    pub unused : find conn.name s.connections ≡ none
    pub stored : find conn.name t.connections ≡ some conn
    pub others :
        (k : List ℕ) → same_name conn.name k ≡ false → find k t.connections ≡ find k s.connections
    pub handed : t.handed ≡ s.handed ++ (io_loop, establish_task conn) ∷ []
    pub numbered : IsNumbered t

  pub unused_lem :
      (s : TcpServer L)
      → length s.ip_port ≤ 21
      → s.next_conn_id < 2147483648
      → IsNumbered s
      → find (conn_name L f s s.next_conn_id) s.connections ≡ none
  unused_lem s short room v =
      let name = conn_name L f s s.next_conn_id in
      find-none name s.connections (
        EachKey-mono (λ k. (i : ℕ) × (i < s.next_conn_id) × (k ≡ conn_name L f s i))
          (λ k. same_name k name ≡ false) s.connections
          (λ k (i, less, e). elim (Bool-cases (same_name k name)) [
            | inl same ↦
                (let clash =
                    conn_name_inj s i s.next_conn_id short (omega arith) room
                      (sym e ∙ same_name_lem k name same) in
                  absurd (omega arith))
            | inr other ↦ other
          ])
          v)

  -- `newConnection`, where the pool gives a loop, the address of the server is no longer than an IPv4
  -- address with its port, and the count of connections is an `int`: it returns, its name is not in
  -- use, so that it takes no other connection's place, it is stored under that name, every other
  -- connection stays, and the loop chosen is to establish this connection.
  pub new_connection-Added :
      (self fd : ℕ) (io_loop : L) (s : TcpServer L)
      → (get_next_loop L s.pool).0 ≡ some io_loop
      → length s.ip_port ≤ 21
      → s.next_conn_id < 2147483648
      → IsNumbered s
      → Returns (Added self fd io_loop s) (new_connection L f self fd s)
  unfolding new_connection hand
  new_connection-Added self fd io_loop s given short room v =
      let name = conn_name L f s s.next_conn_id in
      let c : Conn L = record { self = self; name = name; fd = fd; loop = io_loop } in
      rw given (record {
        conn = c;
        named = refl;
        object = (refl, refl, refl);
        base = refl;
        unused = unused_lem s short room v;
        stored = find-assign_same name c s.connections;
        others = λ k apart. find-assign_other name k c s.connections apart;
        handed = refl;
        numbered =
            assign-EachKey _ name c s.connections (s.next_conn_id, omega arith, refl)
              (EachKey-mono _ _ s.connections (λ k (i, less, e). (i, omega arith, e)) v);
      })

  -- `removeConnectionInLoop`: the connection is no longer stored, every other one stays, its own loop
  -- is to destroy it, and the names stay those of numbers given out.
  pub remove_connection_in_loop_lem :
      (c : Conn L) (s : TcpServer L)
      → IsNumbered s
      → let t = remove_connection_in_loop L c s in
        (find c.name t.connections ≡ none)
        × ((k : List ℕ) → same_name c.name k ≡ false → find k t.connections ≡ find k s.connections)
        × (t.handed ≡ s.handed ++ (c.loop, destroy_task c) ∷ [])
        × IsNumbered t
  unfolding remove_connection_in_loop hand conn_name
  remove_connection_in_loop_lem c s v = (
    find-erase_same c.name s.connections,
    λ k apart. find-erase_other c.name k s.connections apart,
    refl,
    erase-EachKey _ c.name s.connections v,
  )
