-- ===== src/EchoServer/Tests.antt =====
-- The theorem about the echo server at a concrete input.
use mynuduo.Base.{ℕ, refl, some, [], ◌∷◌, arith, Returns}
use mynuduo.Buffer.{ReadResult, received}
use mynuduo.Buffer.Append.{extra-read_limit}
use mynuduo.Poller.Table.{table}
use mynuduo.TcpConnection.{handle_read}
use mynuduo.EchoServer.{callbacks}
use mynuduo.EchoServer.Sample.{empty_buffer, empty-nil, up, up-Inv, takes_one, takes_part}
use mynuduo.EchoServer.Echoed.{Echoed, handle_read-Echoed}

abbrev gives_two : ℕ → ReadResult
gives_two room = received (7 ∷ 8 ∷ [])

handle_read-Echoed_example :
    Returns
      (Echoed table (7 ∷ 8 ∷ []) up)
      (handle_read table (callbacks table takes_one (λ w. some w)) gives_two up)
handle_read-Echoed_example =
    handle_read-Echoed table takes_one (λ w. some w) gives_two 7 (8 ∷ []) up up-Inv refl empty-nil
      refl (omega (arith, extra-read_limit empty_buffer)) (omega arith) takes_part
      (λ f. ground (arith, f.1)) (omega arith)
