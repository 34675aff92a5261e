-- ===== src/Poller/Table.antt =====
-- An epoll instance as a plain table, which behaves as `Epoll` asks: the interface can be met.
use mynuduo.Base.{ℕ, ◌≡◌, refl, true, Option, none, some, ◌==◌, if◌then◌else◌}
use mynuduo.Poller.{Epoll, Watch, CtlOp, fits, after}

abbrev pub table_ctl : CtlOp → ℕ → Watch → (ℕ → Option Watch) → Option (ℕ → Option Watch)
table_ctl op fd w s =
    if fits op (s fd) then some (λ j. if fd == j then after op w else s j) else none

pub table_ok :
    (op : CtlOp) (fd : ℕ) (w : Watch) (s : ℕ → Option Watch)
    → fits op (s fd) ≡ true
    → (t : ℕ → Option Watch) × (table_ctl op fd w s ≡ some t)
      × ((j : ℕ) → t j ≡ (if fd == j then after op w else s j))
table_ok op fd w s h = ((λ j. if fd == j then after op w else s j), rw h, λ j. refl)

abbrev pub table : Epoll
table = record {
  Set = ℕ → Option Watch;
  registered = λ s fd. s fd;
  ctl = table_ctl;
  ctl_ok = table_ok;
}
