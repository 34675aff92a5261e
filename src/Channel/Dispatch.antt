-- ===== src/Channel/Dispatch.antt =====
-- Channel: what `handleEvent` may rely on, and what it keeps.
use mynuduo.Base.{
  Returns, Returns-bind, ℕ, ◌≡◌, refl, Bool, true, false, Option, none, some, if◌then◌else◌, arith,
}
use mynuduo.Channel.{Channel, Callbacks, fire, handle_event_with_guard, handle_event}

-- Handling an event is handling it with the guard, or nothing: the object that the channel is tied to
-- may be gone.
pub handle_event-cases :
    {S : Type 0} (Q : Option S → Type 0) (alive : ℕ → Bool) (c : Channel) (cb : Callbacks S) (s : S)
    → Q (some s)
    → Q (handle_event_with_guard c.revents cb s)
    → Q (handle_event alive c cb s)
unfolding handle_event
handle_event-cases Q alive c cb s gone guarded = by_tie c.tied c.owner
  where
    by_alive : (b : Bool) → Q (if b then handle_event_with_guard c.revents cb s else some s)
    by_alive true = guarded
    by_alive false = gone

    by_tie :
        (b : Bool) (o : Option ℕ) → Q (handle_event alive (record c { tied = b; owner = o }) cb s)
    by_tie false o = guarded
    by_tie true none = gone
    by_tie true (some obj) = by_alive (alive obj)

module _ {S : Type 0} (P : S → Type 0) where
  -- A callback that keeps `P`; an empty `std::function` keeps anything.
  abbrev pub Keeps : Option (S → Option S) → Type 0
  Keeps none = Unit {0}
  Keeps (some f) = (s : S) → P s → Returns P (f s)

  fire-Keeps :
      (b : Bool) (cb : Option (S → Option S)) (s : S)
      → (b ≡ true → Keeps cb)
      → P s
      → Returns P (fire b cb s)
  fire-Keeps true none s h p = p
  fire-Keeps true (some f) s h p = h refl s p
  fire-Keeps false none s h p = p
  fire-Keeps false (some f) s h p = p

  -- Handling an event returns and keeps a property of the program's state, if each callback that
  -- the reported events call for keeps it: the close callback at EPOLLHUP without EPOLLIN, the
  -- error callback at EPOLLERR, the read callback at EPOLLIN, the write callback at EPOLLOUT. The
  -- other callbacks may do anything.
  pub handle_event-Returns :
      (alive : ℕ → Bool) (c : Channel) (cb : Callbacks S) (s : S)
      → (c.revents.hup ≡ true → c.revents.pollin ≡ false → Keeps cb.on_close)
      → (c.revents.err ≡ true → Keeps cb.on_error)
      → (c.revents.pollin ≡ true → Keeps cb.on_read)
      → (c.revents.out ≡ true → Keeps cb.on_write)
      → P s
      → Returns P (handle_event alive c cb s)
  unfolding handle_event_with_guard
  handle_event-Returns alive c cb s close error read write p =
      handle_event-cases (Returns P) alive c cb s p (
        Returns-bind P P _ _
          (fire-Keeps _ cb.on_close s (λ h. close (ground arith) (ground arith)) p)
          λ s1 p1. Returns-bind P P _ _ (fire-Keeps _ cb.on_error s1 error p1) λ s2 p2.
            Returns-bind P P _ _ (fire-Keeps _ cb.on_read s2 read p2)
              λ s3 p3. fire-Keeps _ cb.on_write s3 write p3)
