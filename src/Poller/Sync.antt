-- ===== src/Poller/Sync.antt =====
-- EPollPoller: what a channel says of itself agrees with `channels_` and with the kernel.
use mynuduo.Base.{
  ℕ, ◌≡◌, refl, ◌∙◌, Bool, true, false, Option, none, some, ◌==◌, arith, inl, inr, Bool-cases,
}
use mynuduo.Base.Dict.{insert, erase, lookup, lookup-insert, lookup-erase}
use mynuduo.Channel.{Mask, Channel, Index, fresh, added, deleted, set_index, any_flag}
use mynuduo.Poller.{
  Epoll, Poller, Watch, CtlOp, ctl_add, ctl_mod, ctl_del, update, update_channel, remove_channel,
  change_events, fits, after,
}

-- What the kernel should hold for a channel, by `index_`.
abbrev pub watched : Channel → Option Watch
watched c = elim c.index [ added ↦ some (record { mask = c.events; ptr = c.self }) | _ ↦ none ]

-- What `channels_` should hold for it.
abbrev pub mapped : Channel → Option ℕ
mapped c = elim c.index [ fresh ↦ none | _ ↦ some c.self ]

-- The channel after its events are set to `m`: one that the kernel watches, and that waits for
-- nothing now, leaves the kernel's set; any other is in it.
abbrev pub next_index : Index → Bool → Index
next_index added false = deleted
next_index added true = added
next_index fresh waits = added
next_index deleted waits = added

abbrev pub changed : Mask → Channel → Channel
changed m c = record c { events = m; index = next_index c.index (any_flag m) }

module _ (k : Epoll) where
  pub record IsSynced (p : Poller k) (c : Channel) : Type 0 where
    pub in_kernel : k.registered p.epoll c.fd ≡ watched c
    pub in_map : lookup c.fd p.channels ≡ mapped c

  -- Nothing that the poller keeps for another descriptor than `fd` has changed.
  pub record SameBut (fd : ℕ) (p q : Poller k) : Type 0 where
    pub kernel : (j : ℕ) → (fd == j) ≡ false → k.registered q.epoll j ≡ k.registered p.epoll j
    pub map : (j : ℕ) → (fd == j) ≡ false → lookup j q.channels ≡ lookup j p.channels

  pub SameBut-trans : (fd : ℕ) (p q r : Poller k) → SameBut fd p q → SameBut fd q r → SameBut fd p r
  SameBut-trans fd p q r a b = record {
    kernel = λ j ne. b.kernel j ne ∙ a.kernel j ne;
    map = λ j ne. b.map j ne ∙ a.map j ne;
  }

  pub SameBut-refl : (fd : ℕ) (p : Poller k) → SameBut fd p p
  SameBut-refl fd p = record { kernel = λ j ne. refl; map = λ j ne. refl }

  -- A channel on another descriptor stays in step.
  pub SameBut-IsSynced :
      {p q : Poller k} (fd : ℕ) (d : Channel)
      → SameBut fd p q
      → (fd == d.fd) ≡ false
      → IsSynced p d
      → IsSynced q d
  SameBut-IsSynced fd d same ne v = record {
    in_kernel = same.kernel d.fd ne ∙ v.in_kernel;
    in_map = same.map d.fd ne ∙ v.in_map;
  }

  -- One `epoll_ctl` that fits goes through, and touches its own descriptor only.
  update_ok :
      (op : CtlOp) (c : Channel) (p : Poller k)
      → fits op (k.registered p.epoll c.fd) ≡ true
      → (q : Poller k) × (update k op c p ≡ some q)
        × (k.registered q.epoll c.fd ≡ after op (record { mask = c.events; ptr = c.self }))
        × ((j : ℕ) → (c.fd == j) ≡ false → k.registered q.epoll j ≡ k.registered p.epoll j)
        × (q.channels ≡ p.channels)
  unfolding update
  update_ok op c p h =
      let w : Watch = record { mask = c.events; ptr = c.self } in
      let (t, e, r) = k.ctl_ok op c.fd w p.epoll h in
      (
        record p { epoll = t },
        rw (e, update),
        ground (arith, r c.fd),
        λ j ne. ground (arith, r j),
        refl,
      )

  -- What a call of `updateChannel` or `removeChannel` promises: it returns, with the channel `d`
  -- in step with the poller, and no other descriptor is touched.
  pub record Changed (p : Poller k) (fd : ℕ) (d : Channel) (r : Option (Channel × Poller k))
      : Type 0 where
    pub poller : Poller k
    pub returns : r ≡ some (d, poller)
    pub synced : IsSynced poller d
    pub same : SameBut fd p poller

  -- The index is a variable of its own, so that it can be matched.
  change_at :
      (i : Index) (m : Mask) (c : Channel) (p : Poller k)
      → IsSynced p (set_index i c)
      → Changed p c.fd (changed m (set_index i c)) (change_events k m (set_index i c) p)
  unfolding change_events update_channel
  change_at fresh m c p v =
      let d : Channel = record c { events = m; index = added } in
      let p1 : Poller k = record p { channels = insert c.fd c.self p.channels } in
      let (q, ok, at, frame, map) = update_ok ctl_add d p1 (rw v.in_kernel) in
      record {
        poller = q;
        returns = rw ok;
        synced = record {
          in_kernel = at;
          in_map = rw map (rw (lookup-insert c.fd c.fd c.self p.channels) (ground arith));
        };
        same = record {
          kernel = frame;
          map = λ j ne. rw map (rw (lookup-insert c.fd j c.self p.channels, ne));
        };
      }
  change_at deleted m c p v =
      let d : Channel = record c { events = m; index = added } in
      let (q, ok, at, frame, map) = update_ok ctl_add d p (rw v.in_kernel) in
      record {
        poller = q;
        returns = rw ok;
        synced = record { in_kernel = at; in_map = rw map v.in_map };
        same = record { kernel = frame; map = λ j ne. rw map };
      }
  change_at added m c p v = elim (Bool-cases (any_flag m)) [
    | inl waits ↦
        let d : Channel = record c { events = m; index = added } in
        let (q, ok, at, frame, map) = update_ok ctl_mod d p (rw v.in_kernel) in
        record {
          poller = q;
          returns = rw (waits, ok);
          synced = record { in_kernel = rw waits at; in_map = rw waits (rw map v.in_map) };
          same = record { kernel = frame; map = λ j ne. rw map };
        }
    | inr idle ↦
        let (q, ok, at, frame, map) =
          update_ok ctl_del (record c { events = m; index = added }) p (rw v.in_kernel) in
        record {
          poller = q;
          returns = rw (idle, ok);
          synced = record { in_kernel = rw idle at; in_map = rw idle (rw map v.in_map) };
          same = record { kernel = frame; map = λ j ne. rw map };
        }
  ]

  -- `enableReading`, `disableAll` and their like, on a channel in step with the poller: the process
  -- does not end, the channel has the new events and is in step again, and no other descriptor is
  -- touched.
  pub change_events-Changed :
      (m : Mask) {c : Channel} {p : Poller k}
      → IsSynced p c
      → Changed p c.fd (changed m c) (change_events k m c p)
  change_events-Changed m {c} {p} v = change_at c.index m c p v

  remove_at :
      (i : Index) (c : Channel) (p : Poller k)
      → IsSynced p (set_index i c)
      → Changed p c.fd (set_index fresh c) (remove_channel k (set_index i c) p)
  unfolding remove_channel
  remove_at added c p v =
      let p1 : Poller k = record p { channels = erase c.fd p.channels } in
      let (q, ok, at, frame, map) = update_ok ctl_del (set_index added c) p1 (rw v.in_kernel) in
      record {
        poller = q;
        returns = rw ok;
        synced = record {
          in_kernel = at;
          in_map = rw map (rw (lookup-erase c.fd c.fd p.channels) (ground arith));
        };
        same = record {
          kernel = frame;
          map = λ j ne. rw map (rw (lookup-erase c.fd j p.channels, ne));
        };
      }
  remove_at _ c p v = record {
    poller = record p { channels = erase c.fd p.channels };
    returns = refl;
    synced = record {
      in_kernel = v.in_kernel;
      in_map = rw (lookup-erase c.fd c.fd p.channels) (ground arith);
    };
    same = record { kernel = λ j ne. refl; map = λ j ne. rw (lookup-erase c.fd j p.channels, ne) };
  }

  -- `removeChannel` on a channel in step with the poller returns, and leaves it unknown to the
  -- poller and to the kernel; no other descriptor is touched.
  pub remove_channel-Changed :
      {c : Channel} {p : Poller k}
      → IsSynced p c
      → Changed p c.fd (set_index fresh c) (remove_channel k c p)
  remove_channel-Changed {c} {p} v = remove_at c.index c p v
