-- ===== src/TcpServer/Serve.antt =====
-- Acceptor and TcpServer: the connections that the acceptor hands to its server, one after another.
use mynuduo.Base.{
  Returns, Returns-mono, Returns-bind, Bool-cases, inl, inr, ◌>>=◌, ◌+◌, ℕ, ◌≤◌, ◌<◌, ◌≡◌, refl,
  ◌∙◌, sym, ap, ap₂, subst, ◌++◌, map, append-nil, append_assoc, Option, none, some, List, [], ◌∷◌,
  length, arith, suc,
}
use mynuduo.ThreadPool.{get_next_loop}
use mynuduo.ThreadPool.Usable.{IsUsable, get_next_loop-IsUsable}
use mynuduo.Acceptor.{Acceptor, handle_read}
use mynuduo.Poller.{Epoll}
use mynuduo.TcpServer.{
  Printf, same_name, find, assign, Conn, Task, TcpServer, conn_name, hand, new_connection,
  establish_task,
}
use mynuduo.TcpServer.Map.{
  find-assign_same, find-assign_other, same_name_lem, assign-EachKey, EachKey-mono,
}
use mynuduo.TcpServer.Names.{IsNumbered, unused_lem}

-- A name that is not in use gets a place of its own.
length-assign :
    {V : Type 0} (n : List ℕ) (v : V) (m : List (List ℕ × V))
    → find n m ≡ none
    → length (assign n v m) ≡ suc (length m)
unfolding find assign
length-assign n v [] h = refl
length-assign n v ((j, w) ∷ m) h = elim (Bool-cases (same_name j n)) [
  | inl same ↦ absurd (ground (arith, h))
  | inr other ↦ rw other (ap suc (length-assign n v m (ground (arith, h))))
]

module _ (L : Type 0) (f : Printf) (k : Epoll) where
  -- What `accept4` gave in one call, with the address of the new connection object.
  abbrev pub Answer : Type 0
  Answer = Option (ℕ × ℕ)

  -- The acceptor's read callback, called once for each answer; its own callback is `newConnection`.
  pub serve : List Answer → Acceptor k → TcpServer L → Option (Acceptor k × TcpServer L)
  serve [] a s = some (a, s)
  serve (none ∷ rest) a s = do
    (a', s') ← handle_read k none (some (λ fd. new_connection L f 0 fd)) a s
    serve rest a' s'
  serve (some (self, connfd) ∷ rest) a s = do
    (a', s') ← handle_read k (some connfd) (some (λ fd. new_connection L f self fd)) a s
    serve rest a' s'

  unfoldable pub accepted : List Answer → ℕ
  accepted [] = 0
  accepted (none ∷ rest) = accepted rest
  accepted (some x ∷ rest) = suc (accepted rest)

  -- What `newConnection` does, as far as the next call depends on it.
  record Stepped (self fd : ℕ) (io_loop : L) (s t : TcpServer L) : Type 0 where
    pool : t.pool ≡ (get_next_loop L s.pool).1
    ip_port : t.ip_port ≡ s.ip_port
    ids : t.next_conn_id ≡ s.next_conn_id + 1
    count : length t.connections ≡ length s.connections + 1
    conn : Conn L
    object : (conn.self ≡ self) × (conn.fd ≡ fd) × (conn.loop ≡ io_loop)
    stored : find conn.name t.connections ≡ some conn
    handed : t.handed ≡ s.handed ++ (conn.loop, establish_task conn) ∷ []
    numbered : IsNumbered L f t
    kept : (n : List ℕ) (c : Conn L) → find n s.connections ≡ some c → find n t.connections ≡ some c

  new_connection-Stepped :
      (self fd : ℕ) (io_loop : L) (s : TcpServer L)
      → (get_next_loop L s.pool).0 ≡ some io_loop
      → length s.ip_port ≤ 21
      → s.next_conn_id < 2147483648
      → IsNumbered L f s
      → Returns (Stepped self fd io_loop s) (new_connection L f self fd s)
  unfolding new_connection hand
  new_connection-Stepped self fd io_loop s given short room v =
      let name = conn_name L f s s.next_conn_id in
      let c : Conn L = record { self = self; name = name; fd = fd; loop = io_loop } in
      let unused = unused_lem L f s short room v in
      rw given (record {
        pool = refl;
        ip_port = refl;
        ids = refl;
        count = length-assign name c s.connections unused ∙ omega arith;
        conn = c;
        object = (refl, refl, refl);
        stored = find-assign_same name c s.connections;
        handed = refl;
        numbered =
            assign-EachKey _ name c s.connections (s.next_conn_id, omega arith, refl)
              (EachKey-mono _ _ s.connections (λ n (i, less, e). (i, omega arith, e)) v);
        kept = λ n x e. elim (Bool-cases (same_name name n)) [
          | inl same ↦
              (let clash : none ≡ some x =
                  sym unused ∙ ap (λ m. find m s.connections) (same_name_lem name n same) ∙ e in
                absurd (cc))
          | inr other ↦ find-assign_other name n c s.connections other ∙ e
        ];
      })

  -- The objects and descriptors of the connections accepted, in order.
  unfoldable pub sockets : List Answer → List (ℕ × ℕ)
  sockets [] = []
  sockets (none ∷ rest) = sockets rest
  sockets (some x ∷ rest) = x ∷ sockets rest

  abbrev pub object_of : Conn L → ℕ × ℕ
  object_of c = (c.self, c.fd)

  -- A connection's own loop is to establish it.
  abbrev pub to_establish : Conn L → L × Task L
  to_establish c = (c.loop, establish_task c)

  -- Each is stored under its name.
  abbrev pub AllStored : TcpServer L → List (Conn L) → Type 0
  AllStored t [] = Unit {0}
  AllStored t (c ∷ cs) = (find c.name t.connections ≡ some c) × AllStored t cs

  -- What serving the answers `rest` promises of the server `t`: the new connections, one for each socket
  -- accepted and on it, are stored, and are the only ones handed over; those of before are kept.
  pub record Served (rest : List Answer) (s t : TcpServer L) : Type 0 where
    pub conns : List (Conn L)
    pub objects : map object_of conns ≡ sockets rest
    pub handed : t.handed ≡ s.handed ++ map to_establish conns
    pub stored : AllStored t conns
    pub ids : t.next_conn_id ≡ s.next_conn_id + accepted rest
    pub count : length t.connections ≡ length s.connections + accepted rest
    pub numbered : IsNumbered L f t
    pub kept :
        (n : List ℕ) (c : Conn L) → find n s.connections ≡ some c → find n t.connections ≡ some c

  failed-Served :
      (rest : List Answer) (s t : TcpServer L) → Served rest s t → Served (none ∷ rest) s t
  unfolding accepted sockets
  failed-Served rest s t q = record {
    conns = q.conns;
    objects = q.objects;
    handed = q.handed;
    stored = q.stored;
    ids = q.ids;
    count = q.count;
    numbered = q.numbered;
    kept = q.kept;
  }

  Stepped-Served :
      (x : ℕ × ℕ) (io_loop : L) (rest : List Answer) (s s1 t : TcpServer L)
      → Stepped x.0 x.1 io_loop s s1
      → Served rest s1 t
      → Served (some x ∷ rest) s t
  unfolding accepted sockets
  Stepped-Served x io_loop rest s s1 t h q = record {
    conns = h.conn ∷ q.conns;
    objects = ap₂ ◌∷◌ (ap₂ (λ a b. (a, b)) h.object.0 h.object.1) q.objects;
    handed =
        q.handed
        ∙ ap (λ l. l ++ map to_establish q.conns) h.handed
        ∙ append_assoc s.handed (to_establish h.conn ∷ []) (map to_establish q.conns);
    stored = (q.kept h.conn.name h.conn h.stored, q.stored);
    ids = omega (arith, q.ids, h.ids);
    count = omega (arith, q.count, h.count);
    numbered = q.numbered;
    kept = λ n c e. q.kept n c (h.kept n c e);
  }

  abbrev Goal : List Answer → Acceptor k → TcpServer L → Acceptor k × TcpServer L → Type 0
  Goal rest a s r = (r.0 ≡ a) × Served rest s r.1

  -- However many connections the acceptor accepts, and fails to accept between them, on a server whose
  -- pool is usable, whose address is no longer than an IPv4 address with its port, and whose count of
  -- connections stays an `int`: each accepted socket becomes one new connection, on its descriptor,
  -- that is stored under its name and that its own loop is to establish, in the order of acceptance and
  -- with nothing else handed over; no connection of before is lost or replaced, and the acceptor closes
  -- none of the sockets.
  pub serve-Served :
      (rest : List Answer) (a : Acceptor k) (s : TcpServer L)
      → IsUsable L s.pool
      → length s.ip_port ≤ 21
      → s.next_conn_id + accepted rest < 2147483648
      → IsNumbered L f s
      → Returns (λ r. (r.0 ≡ a) × Served rest s r.1) (serve rest a s)
  unfolding serve accepted sockets handle_read
  serve-Served [] a s usable short room v = (
    refl,
    record {
      ids = omega arith;
      count = omega arith;
      conns = [];
      objects = refl;
      handed = sym (append-nil s.handed);
      stored = tt;
      numbered = v;
      kept = λ n c e. e;
    },
  )
  serve-Served (none ∷ rest) a s usable short room v =
      Returns-mono (Goal rest a s) (Goal (none ∷ rest) a s) (serve rest a s)
        (serve-Served rest a s usable short room v)
        λ r (same, q). (same, failed-Served rest s r.1 q)
  serve-Served (some x ∷ rest) a s usable short room v =
      let (io_loop, given, usable') = get_next_loop-IsUsable L s.pool usable in
      Returns-bind (Goal (some x ∷ rest) a s) (λ p. (p.0 ≡ a) × Stepped x.0 x.1 io_loop s p.1) _ _
        (Returns-bind (λ p. (p.0 ≡ a) × Stepped x.0 x.1 io_loop s p.1) (Stepped x.0 x.1 io_loop s)
          (new_connection L f x.0 x.1 s) _
          (new_connection-Stepped x.0 x.1 io_loop s given short (omega arith) v) λ s1 h. (refl, h))
        λ (a1, s1) (same, h).
          Returns-mono (Goal rest a1 s1) (Goal (some x ∷ rest) a s) (serve rest a1 s1)
            (serve-Served rest a1 s1 (subst (IsUsable L) (sym h.pool) usable')
              (subst (λ ip. length ip ≤ 21) (sym h.ip_port) short) (omega (arith, h.ids))
              h.numbered)
            λ r (same', q). (same' ∙ same, Stepped-Served x io_loop rest s s1 r.1 h q)
