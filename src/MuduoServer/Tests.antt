-- ===== src/MuduoServer/Tests.antt =====
-- The theorem about the server at a concrete input.
use mynuduo.Base.{IfReturns, Option, IfReturns-all, Returns, refl, some, List, [], ◌∷◌, arith}
use mynuduo.Buffer.Append.{extra-read_limit}
use mynuduo.Poller.Table.{table}
use mynuduo.EchoServer.Sample.{empty_buffer, empty-nil, up, up-Inv, takes_one, takes_part}
use mynuduo.MuduoServer.{Event, reads, writes, handle, run}
use mynuduo.TcpConnection.{Connection}
use mynuduo.MuduoServer.Relayed.{AllAllowed, Relayed, run-Relayed}

-- Two bytes come, of which the kernel takes one back at once and the other one later.
abbrev two_bytes : List (Event table)
two_bytes = reads 7 (8 ∷ []) takes_one ∷ writes takes_one ∷ []

abbrev close : Connection table → Option (Connection table)
close w = some w

later :
    IfReturns
      (AllAllowed table close (writes takes_one ∷ []))
      (handle table close (reads 7 (8 ∷ []) takes_one) up)
later =
    IfReturns-all (AllAllowed table close (writes takes_one ∷ []))
      (handle table close (reads 7 (8 ∷ []) takes_one) up)
      (λ t. (
        tt,
        IfReturns-all (AllAllowed table close []) (handle table close (writes takes_one) t) λ u. tt,
      ))

run-Relayed_example : Returns (Relayed table (7 ∷ 8 ∷ []) up) (run table close two_bytes up)
run-Relayed_example =
    run-Relayed table close two_bytes up (record { inv = up-Inv; up = refl; empty = empty-nil })
      (
        (
          omega (arith, extra-read_limit empty_buffer),
          omega arith,
          takes_part,
          (λ f. ground (arith, f.1)),
          omega arith,
        ),
        later,
      )
