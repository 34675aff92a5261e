-- ===== src/Acceptor/Tests.antt =====
-- The theorems about the acceptor at concrete inputs.
use mynuduo.Base.{Returns, ◌≡◌, refl, true, false, none, some, []}
use mynuduo.Acceptor.{new, listen, destruct}
use mynuduo.Acceptor.Life.{Listens, Closed, new-listen-destruct}
use mynuduo.Poller.{Poller}
use mynuduo.Poller.Table.{table}

abbrev empty_poller : Poller table
empty_poller = record { epoll = λ j. none; channels = []; capacity = 16 }

new-listen-destruct_example :
    Returns
      (λ a.
        (a.listenning ≡ false)
        × (a.poller.epoll 3 ≡ none)
        × Returns (Closed table 3 empty_poller) (destruct table a)
        × Returns
            (λ b.
              Listens table 100 b
              × (b.channel.fd ≡ 3)
              × Returns (Closed table 3 empty_poller) (destruct table b))
            (listen table true a))
      (new table (some 3) true false 100 empty_poller)
new-listen-destruct_example = new-listen-destruct table 100 3 false empty_poller refl refl
