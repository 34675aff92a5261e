-- ===== src/Poller/Poll.antt =====
-- EPollPoller: `poll` and `fillActiveChannels`. What `epoll_wait` returned, and the time, are
-- arguments. The channel objects are a function from their addresses.
use mynuduo.Base.{
  ℕ, ◌+◌, ◌*◌, ◌≤◌, ◌≡◌, refl, ap, Option, none, some, List, [], ◌∷◌, ◌==◌, if◌then◌else◌, length,
  arith, map,
}
use mynuduo.Channel.{Mask, Channel, set_revents}
use mynuduo.Poller.{Epoll, Poller, Watch}

-- kInitEventListSize
abbrev pub init_capacity : ℕ
init_capacity = 16

pub data WaitResult : Type 0 where
  ready : List Watch → WaitResult
  wait_failed : ℕ → WaitResult

abbrev pub Heap : Type 0
Heap = ℕ → Channel

abbrev pub modify : ℕ → (Channel → Channel) → Heap → Heap
modify i f h j = if i == j then f (h j) else h j

-- The channels reported, in order, each with its `revents_` set.
pub fill_active_channels : List Watch → Heap → List ℕ × Heap
fill_active_channels [] h = ([], h)
fill_active_channels (w ∷ ws) h =
    let (active, h') = fill_active_channels ws (modify w.ptr (set_revents w.mask) h) in
    (w.ptr ∷ active, h')

module _ (k : Epoll) where
  pub record Polled : Type 0 where
    pub time : ℕ
    pub active : List ℕ
    pub heap : Heap
    pub poller : Poller k

  -- `errno` after a failed wait is only logged.
  pub poll : WaitResult → ℕ → Heap → Poller k → Polled
  unfolding fill_active_channels
  poll (wait_failed e) now h p = record { time = now; active = []; heap = h; poller = p }
  poll (ready ws) now h p =
      let (active, h') = fill_active_channels ws h in
      record {
        time = now;
        active = active;
        heap = h';
        poller =
            if length ws == 0
            then p
            else if length ws == p.capacity
            then record p { capacity = p.capacity * 2 }
            else p;
      }

-- The events that `epoll_wait` reported for a channel: the last report counts.
abbrev pub reported : ℕ → List Watch → Option Mask
reported j [] = none
reported j (w ∷ ws) = elim (reported j ws) [
  | some m ↦ some m
  | none ↦ if w.ptr == j then some w.mask else none
]

abbrev pub with_revents : Option Mask → Channel → Channel
with_revents none c = c
with_revents (some m) c = set_revents m c

-- `fillActiveChannels` lists exactly the channels reported, in the order of the reports, sets the
-- `revents_` of each to what was reported for it, and changes no other channel.
pub fill_active_channels_lem :
    (ws : List Watch) (h : Heap)
    → ((fill_active_channels ws h).0 ≡ map (λ w. w.ptr) ws)
      × ((j : ℕ) → (fill_active_channels ws h).1 j ≡ with_revents (reported j ws) (h j))
unfolding fill_active_channels
fill_active_channels_lem [] h = (refl, λ j. refl)
fill_active_channels_lem (w ∷ ws) h =
    let (list, each) = fill_active_channels_lem ws (modify w.ptr (set_revents w.mask) h) in
    (ap (◌∷◌ w.ptr) list, λ j. ground (arith, each j))

-- A poll by a poller that has room, where the wait reports no more events than it was given room
-- for: the kernel's set and `channels_` stay as they are, the room for events does not shrink, and
-- afterwards there is room for more events than were reported.
pub poll_capacity :
    (k : Epoll) (ws : List Watch) (now : ℕ) (h : Heap) (p : Poller k)
    → 1 ≤ p.capacity
    → length ws ≤ p.capacity
    → let q = (poll k (ready ws) now h p).poller in
      (q.epoll ≡ p.epoll)
      × (q.channels ≡ p.channels)
      × (p.capacity ≤ q.capacity)
      × (length ws + 1 ≤ q.capacity)
unfolding poll
poll_capacity k ws now h p room few = ground arith
