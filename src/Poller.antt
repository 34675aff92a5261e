-- ===== src/Poller.antt =====
-- Poller.h, Poller.cc, EPollPoller.h and EPollPoller.cc: the map from descriptors to channels, and
-- what the kernel's epoll instance is told. The epoll instance is not part of the program: it is
-- the parameter `Epoll`, with the documented behaviour of `epoll_ctl`.
pub mod Sync
pub mod Events
pub mod Poll
pub mod Default
pub mod Table
mod Tests
use mynuduo.Base.{
  ℕ, ◌*◌, ◌≡◌, Bool, true, false, not, Option, none, some, List, [], ◌∷◌, ◌==◌, if◌then◌else◌,
  ◌>>=◌, length,
}
use mynuduo.Base.Dict.{lookup, insert, erase}
use mynuduo.Channel.{
  Mask, Channel, Index, fresh, added, deleted, set_index, set_revents, is_none_event,
}

-- `epoll_event`: the events asked for and `data.ptr`.
pub record Watch : Type 0 where
  pub mask : Mask
  pub ptr : ℕ

pub data CtlOp : Type 0 where
  ctl_add ctl_mod ctl_del : CtlOp

-- Whether `epoll_ctl` takes the operation, by what is registered for the descriptor: EPOLL_CTL_ADD
-- of a registered descriptor is EEXIST, the others of an unregistered one are ENOENT.
abbrev pub fits : CtlOp → Option Watch → Bool
fits ctl_add none = true
fits ctl_add (some w) = false
fits ctl_mod none = false
fits ctl_mod (some w) = true
fits ctl_del none = false
fits ctl_del (some w) = true

abbrev pub after : CtlOp → Watch → Option Watch
after ctl_add w = some w
after ctl_mod w = some w
after ctl_del w = none

-- An epoll instance with memory and watches enough. `ctl` returns `none` for -1.
pub record Epoll : Type 1 where
  pub Set : Type 0
  pub registered : Set → ℕ → Option Watch
  pub ctl : CtlOp → ℕ → Watch → Set → Option Set
  pub ctl_ok :
      (op : CtlOp) (fd : ℕ) (w : Watch) (s : Set)
      → fits op (registered s fd) ≡ true
      → (t : Set) × (ctl op fd w s ≡ some t)
        × ((j : ℕ) → registered t j ≡ (if fd == j then after op w else registered s j))

module _ (k : Epoll) where
  -- `epollfd_`, `channels_` and the length of `events_`.
  pub record Poller : Type 0 where
    pub epoll : k.Set
    pub channels : List (ℕ × ℕ)
    pub capacity : ℕ

  -- `update`: a failed EPOLL_CTL_DEL is logged, any other failure ends the process.
  update : CtlOp → Channel → Poller → Option Poller
  update op c p = elim (k.ctl op c.fd (record { mask = c.events; ptr = c.self }) p.epoll) [
    | some s ↦ some (record p { epoll = s })
    | none ↦ elim op [ ctl_del ↦ some p | _ ↦ none ]
  ]

  pub update_channel : Channel → Poller → Option (Channel × Poller)
  unfolding update
  update_channel c p = elim c.index [
    | fresh ↦ do
      let c' = set_index added c
      q ← update ctl_add c' (record p { channels = insert c.fd c.self p.channels })
      some (c', q)
    | deleted ↦ do let c' = set_index added c; q ← update ctl_add c' p; some (c', q)
    | added ↦
        if is_none_event c
        then (do q ← update ctl_del c p; some (set_index deleted c, q))
        else (do q ← update ctl_mod c p; some (c, q))
  ]

  pub remove_channel : Channel → Poller → Option (Channel × Poller)
  unfolding update
  remove_channel c p = do
    let erased = record p { channels = erase c.fd p.channels }
    q ← elim c.index [ added ↦ update ctl_del c erased | _ ↦ some erased ]
    some (set_index fresh c, q)

  pub has_channel : Channel → Poller → Bool
  has_channel c p = elim (lookup c.fd p.channels) [ none ↦ false | some ptr ↦ ptr == c.self ]

  -- `events_ = m; update();`, the shape of `enableReading`, `disableAll` and their like.
  pub change_events : Mask → Channel → Poller → Option (Channel × Poller)
  unfolding update_channel
  change_events m c p = update_channel (record c { events = m }) p
