-- ===== src/Poller/Default.antt =====
-- DefaultPoller.cc and the constructor of EPollPoller: the poller of a new loop.
use mynuduo.Base.{Bool, true, false, Option, none, some, [], ◌>>=◌}
use mynuduo.Poller.{Epoll, Poller}
use mynuduo.Poller.Poll.{init_capacity}

module _ (k : Epoll) where
  -- `made` is what `epoll_create1` gave: without a descriptor the process ends.
  pub new_epoll_poller : Option k.Set → Option (Poller k)
  new_epoll_poller none = none
  new_epoll_poller (some s) = some (record { epoll = s; channels = []; capacity = init_capacity })

  -- `use_poll` is whether MUDUO_USE_POLL is set in the environment; the inner `none` is a null pointer.
  unfoldable pub new_default_poller : Bool → Option k.Set → Option (Option (Poller k))
  unfolding new_epoll_poller
  new_default_poller true made = some none
  new_default_poller false made = do p ← new_epoll_poller made; some (some p)
