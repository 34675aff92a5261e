-- ===== src/EventLoop/Reactor.antt =====
-- EventLoop.cc: the constructor and the destructor of a loop, with its wakeup channel in its poller and
-- the variable `t_loopInThisThread` of the thread that it is made on.
use mynuduo.Base.{
  Bool, true, false, ◌⊎◌, inl, inr, Returns, ℕ, ◌≡◌, refl, Option, none, some, List, [], ◌∷◌, ◌>>=◌,
}
use mynuduo.Base.Dict.{lookup}
use mynuduo.Channel
use mynuduo.Channel.{Channel, none_event, read_event, reading_on}
use mynuduo.Poller.{Epoll, Poller, change_events, remove_channel}
use mynuduo.Poller.Poll.{init_capacity}
use mynuduo.Poller.Default.{new_default_poller}
use mynuduo.Poller.Sync.{
  IsSynced, SameBut, SameBut-trans, change_events-Changed, remove_channel-Changed,
}
use mynuduo.EventLoop
use mynuduo.EventLoop.{EventLoop}

module _ (k : Epoll) (F : Type 0) where
  -- `here` is `t_loopInThisThread`, and `closed` are the descriptors closed so far, newest first.
  pub record Reactor : Type 0 where
    pub loop : EventLoop F
    pub wakeup_fd : ℕ
    pub wakeup_channel : Channel
    pub poller : Poller k
    pub here : Option ℕ
    pub closed : List ℕ

  -- A thread has one loop at most; a second one ends the process.
  claim : ℕ → Option ℕ → Option (Option ℕ)
  claim self (some other) = none
  claim self none = some (some self)

  -- `made` is what `eventfd` gave, `self` the address of the loop, `channel` that of its channel, and
  -- `poller` the new poller.
  pub construct : Option ℕ → ℕ → ℕ → Poller k → Option ℕ → Option Reactor
  unfolding claim
  construct made self channel poller here = do
    fd ← made
    here' ← claim self here
    let c = Channel.new channel fd
    (c', p) ← change_events k (reading_on c.events) c poller
    some (record {
      loop = EventLoop.new F;
      wakeup_fd = fd;
      wakeup_channel = c';
      poller = p;
      here = here';
      closed = [];
    })

  -- The same with the poller that `newDefaultPoller` gives, which `enableReading` calls.
  pub construct_default : Bool → Option k.Set → Option ℕ → ℕ → ℕ → Option ℕ → Option Reactor
  unfolding new_default_poller construct
  construct_default use_poll made_set made self channel here = do
    given ← new_default_poller k use_poll made_set
    p ← given
    construct made self channel p here

  pub destruct : Reactor → Option Reactor
  destruct r = do
    (c1, p1) ← change_events k none_event r.wakeup_channel r.poller
    (c2, p2) ← remove_channel k c1 p1
    some (record r {
      wakeup_channel = c2;
      poller = p2;
      here = none;
      closed = r.wakeup_fd ∷ r.closed;
    })

  -- The poller of a new loop.
  abbrev pub fresh_poller : k.Set → Poller k
  fresh_poller s = record { epoll = s; channels = []; capacity = init_capacity }

  -- The loop can be woken, and is the one loop of its thread.
  pub record Made (self channel fd : ℕ) (p : Poller k) (r : Reactor) : Type 0 where
    pub watched :
        k.registered r.poller.epoll fd ≡ some (record { mask = read_event; ptr = channel })
    pub others : SameBut k fd p r.poller
    pub alone : (made : Option ℕ) (a c : ℕ) (q : Poller k) → construct made a c q r.here ≡ none
    pub queue : r.loop ≡ EventLoop.new F

  -- The descriptor is unwatched and closed, and the thread can make another loop.
  pub record Unmade (fd : ℕ) (p : Poller k) (r : Reactor) : Type 0 where
    pub in_kernel : k.registered r.poller.epoll fd ≡ none
    pub in_map : lookup fd r.poller.channels ≡ none
    pub others : SameBut k fd p r.poller
    pub closed : r.closed ≡ fd ∷ []
    pub free : r.here ≡ none

  taken :
      (self : ℕ) (made : Option ℕ) (a c : ℕ) (q : Poller k)
      → construct made a c q (some self) ≡ none
  unfolding construct claim
  taken self none a c q = refl
  taken self (some fd) a c q = refl

  construct-destruct :
      (self channel fd : ℕ) (p : Poller k)
      → k.registered p.epoll fd ≡ none
      → lookup fd p.channels ≡ none
      → Returns
          (λ r. Made self channel fd p r × Returns (Unmade fd p) (destruct r))
          (construct (some fd) self channel p none)
  unfolding construct claim destruct Channel.new
  construct-destruct self channel fd p unwatched unmapped =
      let v : IsSynced k p (Channel.new channel fd) = record {
        in_kernel = unwatched;
        in_map = unmapped;
      } in
      let a = change_events-Changed k (reading_on none_event) v in
      let b = change_events-Changed k none_event a.synced in
      let c = remove_channel-Changed k b.synced in
      rw (a.returns, b.returns, c.returns)
        (
          record {
            watched = a.synced.in_kernel;
            others = a.same;
            alone = taken self;
            queue = refl;
          },
          record {
            in_kernel = c.synced.in_kernel;
            in_map = c.synced.in_map;
            others =
                SameBut-trans k fd p a.poller c.poller a.same
                  (SameBut-trans k fd a.poller b.poller c.poller b.same c.same);
            closed = refl;
            free = refl;
          },
        )

  no_loop :
      (self channel : ℕ) (use_poll : Bool) (made_set : Option k.Set) (made : Option ℕ)
      → (use_poll ≡ true) ⊎ (made_set ≡ none)
      → construct_default use_poll made_set made self channel none ≡ none
  unfolding construct_default new_default_poller
  no_loop self channel true made_set made h = refl
  no_loop self channel false none made h = refl
  no_loop self channel false (some s) made (inl h) = absurd (cc)
  no_loop self channel false (some s) made (inr h) = absurd (cc)

  -- On a thread without a loop, with a new epoll instance `s` and a new eventfd `fd` that it does not
  -- watch: the constructor returns, the kernel watches `fd` for reading, for the wakeup channel, and a
  -- second loop on this thread ends the process; the destructor takes `fd` out of the poller and of the
  -- kernel's set and closes it, and the thread has no loop again. No other descriptor is touched. Where
  -- MUDUO_USE_POLL is set, or the process has no descriptor left for the epoll instance, there is no loop:
  -- the process ends.
  pub construct_default-destruct :
      (self channel fd : ℕ) (s : k.Set)
      → k.registered s fd ≡ none
      → Returns
          (λ r.
            Made self channel fd (fresh_poller s) r
            × Returns (Unmade fd (fresh_poller s)) (destruct r))
          (construct_default false (some s) (some fd) self channel none)
        × ((use_poll : Bool) (made_set : Option k.Set) (made : Option ℕ)
            → (use_poll ≡ true) ⊎ (made_set ≡ none)
            → construct_default use_poll made_set made self channel none ≡ none)
  unfolding construct_default new_default_poller
  construct_default-destruct self channel fd s unwatched = (
    construct-destruct self channel fd (fresh_poller s) unwatched refl,
    λ use_poll made_set made h. no_loop self channel use_poll made_set made h,
  )
