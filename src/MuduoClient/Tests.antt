-- ===== src/MuduoClient/Tests.antt =====
-- The theorem about the session at a concrete input.
use mynuduo.Base.{
  ℕ, ◌≤◌, ◌≡◌, refl, ap, Option, some, List, [], ◌∷◌, length, take, arith, Returns, Returns-if,
  IfReturns, IfReturns-all, IfReturns-mono, length-take, ◌>>=◌,
}
use mynuduo.Buffer.Append.{extra-read_limit}
use mynuduo.Poller.Table.{table}
use mynuduo.TcpConnection.{Connection}
use mynuduo.EchoServer.Sample.{empty_buffer, empty-nil, up, up-Inv, takes_one, takes_part}
use mynuduo.MuduoClient.Session.{
  Session, Turn, client_writes, server_reads, server_writes, open_session, turns, to_server, turn,
}
use mynuduo.MuduoClient.Session.Conserved.{
  Fresh, Conserved, MayGet, TurnAllowed, TurnsAllowed, Started, open_session-Started,
  turns-Conserved,
}

abbrev close : Connection table → Option (Connection table)
close w = some w

up-Fresh : Fresh table up
up-Fresh = record { inv = up-Inv; new = refl; empty = empty-nil; none_sent = empty-nil }

-- The server reads up to five bytes, the client's socket has room twice, the server's one once.
abbrev later_turns : List (Turn table)
later_turns = client_writes takes_one ∷ server_writes takes_one ∷ client_writes takes_one ∷ []

abbrev some_turns : List (Turn table)
some_turns = server_reads 4 takes_one ∷ later_turns

-- A turn that is always allowed, before others that are.
free :
    (e : Turn table) (es : List (Turn table))
    → ((s : Session table) → TurnAllowed table takes_one close e s)
    → ((s : Session table) → TurnsAllowed table takes_one close es s)
    → (s : Session table) → TurnsAllowed table takes_one close (e ∷ es) s
free e es h rest s = (
  h s,
  IfReturns-all (TurnsAllowed table takes_one close es) (turn table takes_one close e s) rest,
)

later_turns-free : (s : Session table) → TurnsAllowed table takes_one close later_turns s
later_turns-free =
    free (client_writes takes_one) (server_writes takes_one ∷ client_writes takes_one ∷ [])
      (λ s. tt)
      (free (server_writes takes_one) (client_writes takes_one ∷ []) (λ s. tt)
        (free (client_writes takes_one) [] (λ s. tt) (λ s. tt)))

-- With empty buffers, five bytes may be read and sent back.
five_bytes :
    (d : List ℕ) (s : Session table)
    → length d ≤ 5
    → s.server.input ≡ empty_buffer
    → s.server.output ≡ empty_buffer
    → MayGet table takes_one close d takes_one s
five_bytes [] s h i o = tt
five_bytes (x ∷ d) s h i o = (
  omega (arith, extra-read_limit s.server.input),
  omega (arith, ap (λ b. length b.bytes) i),
  takes_part,
  (λ f. ground (arith, f.1)),
  omega (arith, ap (λ b. b.writer) o),
)

up-Started :
    Returns (Started table takes_one close up) (open_session table takes_one close 3 up 4 up)
up-Started =
    open_session-Started table takes_one close 3 up 4 up up-Fresh up-Fresh takes_part
      (λ f. ground (arith, f.1)) (omega arith)

some_turns-TurnsAllowed :
    IfReturns
      (TurnsAllowed table takes_one close some_turns)
      (open_session table takes_one close 3 up 4 up)
some_turns-TurnsAllowed =
    IfReturns-mono (Started table takes_one close up)
      (TurnsAllowed table takes_one close some_turns) _
      (Returns-if (Started table takes_one close up) _ up-Started)
      λ s (j, i, o). (
        five_bytes (take 5 (to_server table s)) s (omega (arith, length-take 5 (to_server table s)))
            i o,
        IfReturns-all (TurnsAllowed table takes_one close later_turns)
            (turn table takes_one close (server_reads 4 takes_one) s) later_turns-free,
      )

turns-Conserved_example :
    Returns (Conserved table) (do
      s ← open_session table takes_one close 3 up 4 up
      turns table takes_one close some_turns s)
turns-Conserved_example =
    turns-Conserved table takes_one close some_turns 3 up 4 up up-Fresh up-Fresh takes_part
      (λ f. ground (arith, f.1)) (omega arith) some_turns-TurnsAllowed
