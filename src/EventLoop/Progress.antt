-- ===== src/EventLoop/Progress.antt =====
-- EventLoop under several threads: no functor is left behind, though `poll` sleeps until the eventfd can
-- be read.
use mynuduo.Base.{
  subst, ℕ, zero, suc, ◌+◌, ◌<◌, ◌≡◌, ◌≢◌, refl, sym, ap, ◌∙◌, true, false, List, [], ◌∷◌, ◌++◌,
  append_assoc, append-nil, arith,
}
use mynuduo.EventLoop.{wakeup}
use mynuduo.EventLoop.Threads.{
  System, Phase, outside, polling, handling, calling, left, is_handling, is_polling, other_wake,
  poll_returns, swap, call, finish, ends, Reach, next, Reach-Inv,
}

module _ {F : Type 0} where
  -- Steps in which nothing new is handed over: the loop's thread goes on, where `poll` returns only if
  -- the eventfd can be read, and another thread that has pushed a functor writes the eventfd.
  pub data Goes (s : System F) : System F → Type 0 where
    stays : Goes s s
    wakes :
        {t : System F} (n : ℕ)
        → Goes s t
        → t.writers ≡ suc n
        → Goes s (record t { loop = wakeup t.loop; writers = n })
    returns :
        {t : System F}
        → Goes s t
        → t.phase ≡ polling
        → 0 < t.loop.wakeups
        → Goes s (record t { phase = handling })
    swaps :
        {t : System F}
        → Goes s t
        → t.phase ≡ handling
        → Goes s (record t {
          loop = record (t.loop) { pending = []; calling_pending = true };
          phase = calling t.loop.pending;
          early = false;
        })
    calls :
        {t : System F} (f : F) (fs : List F)
        → Goes s t
        → t.phase ≡ calling (f ∷ fs)
        → Goes s (record t { phase = calling fs; ran = t.ran ++ f ∷ [] })
    finishes :
        {t : System F}
        → Goes s t
        → t.phase ≡ calling []
        → t.loop.quitting ≡ false
        → Goes s (record t { loop = record (t.loop) { calling_pending = false }; phase = polling })
    leaves :
        {t : System F}
        → Goes s t
        → t.phase ≡ calling []
        → t.loop.quitting ≡ true
        → Goes s (record t {
          loop = record (t.loop) { calling_pending = false; looping = false };
          phase = outside;
        })

  -- Each is a step of the threads.
  pub Goes-Reach : {s t : System F} → Reach s → Goes s t → Reach t
  Goes-Reach r stays = r
  Goes-Reach r (wakes n g e) = next (Goes-Reach r g) (other_wake n e)
  Goes-Reach r (returns g e h) = next (Goes-Reach r g) (poll_returns e)
  Goes-Reach r (swaps g e) = next (Goes-Reach r g) (swap e)
  Goes-Reach r (calls f fs g e) = next (Goes-Reach r g) (call f fs e)
  Goes-Reach r (finishes g e h) = next (Goes-Reach r g) (finish e h)
  Goes-Reach r (leaves g e h) = next (Goes-Reach r g) (ends e h)

  -- All functors called.
  called : List F → System F → System F
  called fs t = record t { phase = calling []; ran = t.ran ++ fs }

  calls_all :
      {s : System F} (fs : List F) (t : System F)
      → Goes s t
      → t.phase ≡ calling fs
      → Goes s (called fs t)
  unfolding called
  calls_all {s} [] t g e =
      subst (λ (p, r). Goes s (record t { phase = p; ran = r }))
        (λ i. (e i, sym (append-nil t.ran) i)) g
  calls_all {s} (f ∷ fs) t g e =
      subst (λ r. Goes s (record t { phase = calling []; ran = r }))
        (append_assoc t.ran (f ∷ []) fs) (calls_all fs _ (calls f fs g e) refl)

  -- The loop is in `poll` with nothing left to call; every functor handed over has been called.
  pub record Done (s t : System F) : Type 0 where
    pub goes : Goes s t
    pub phase : t.phase ≡ polling
    pub queued : t.queued ≡ s.queued
    pub ran : t.ran ≡ s.queued
    pub pending : t.loop.pending ≡ []

  -- `loop` has returned.
  pub record Left (s t : System F) : Type 0 where
    pub goes : Goes s t
    pub phase : t.phase ≡ outside
    pub looping : t.loop.looping ≡ false

  -- The loop's thread calls handlers, and nothing was handed over.
  record Woken (s t : System F) : Type 0 where
    reach : Reach t
    goes : Goes s t
    phase : t.phase ≡ handling
    queued : t.queued ≡ s.queued
    quitting : t.loop.quitting ≡ s.loop.quitting

  -- The functors that waited have been called.
  round_of : {s : System F} (t : System F) → Woken s t → System F
  unfolding called
  round_of t w = called t.loop.pending (record t {
    loop = record (t.loop) { pending = []; calling_pending = true };
    phase = calling t.loop.pending;
    early = false;
  })

  Woken-Goes : {s : System F} (t : System F) (w : Woken s t) → Goes s (round_of t w)
  unfolding round_of
  Woken-Goes t w = calls_all t.loop.pending _ (swaps w.goes w.phase) refl

  Woken-Done :
      {s : System F} (t : System F)
      → s.loop.quitting ≡ false
      → Woken s t
      → (u : System F) × Done s u
  unfolding called round_of
  Woken-Done {s} t on w = (
    _,
    record {
      goes = finishes (Woken-Goes t w) refl (w.quitting ∙ on);
      phase = refl;
      queued = w.queued;
      ran =
          subst (λ p. t.ran ++ (left p ++ t.loop.pending) ≡ t.queued) w.phase
            (Reach-Inv w.reach).order
          ∙ w.queued;
      pending = refl;
    },
  )

  Woken-Left :
      {s : System F} (t : System F) → s.loop.quitting ≡ true → Woken s t → (u : System F) × Left s u
  unfolding called round_of
  Woken-Left t over w = (
    _,
    record {
      goes = leaves (Woken-Goes t w) refl (w.quitting ∙ over);
      phase = refl;
      looping = refl;
    },
  )

  -- In `poll`, with the eventfd written or about to be.
  roused :
      {s : System F} (t : System F)
      → Reach t
      → Goes s t
      → t.queued ≡ s.queued
      → t.loop.quitting ≡ s.loop.quitting
      → t.phase ≡ polling
      → (n m : ℕ) → t.loop.wakeups ≡ n
      → t.writers ≡ m
      → 0 < n + m
      → (u : System F) × Woken s u
  unfolding wakeup
  roused t r g q k e zero zero a b h = absurd (omega arith)
  roused t r g q k e zero (suc m) a b h = (
    _,
    record {
      reach = next (next r (other_wake m b)) (poll_returns e);
      goes = returns (wakes m g b) e (omega arith);
      phase = refl;
      queued = q;
      quitting = k;
    },
  )
  roused t r g q k e (suc n) m a b h = (
    _,
    record {
      reach = next r (poll_returns e);
      goes = returns g e (omega arith);
      phase = refl;
      queued = q;
      quitting = k;
    },
  )

  not_nil : {f : F} {fs : List F} → f ∷ fs ≡ [] → ⊥
  not_nil h = cc

  from_polling :
      {s : System F} (t : System F)
      → Reach t
      → Goes s t
      → t.queued ≡ s.queued
      → t.loop.quitting ≡ s.loop.quitting
      → s.loop.quitting ≡ false
      → t.early ≡ false
      → t.phase ≡ polling
      → (ps : List F) → t.loop.pending ≡ ps
      → (u : System F) × Done s u
  from_polling {s} t r g q k on timely e [] idle = (
    t,
    record {
      goes = g;
      phase = e;
      queued = q;
      ran =
          sym (append-nil t.ran)
          ∙ subst (λ ps. t.ran ++ ps ≡ t.queued) idle
              (subst (λ p. t.ran ++ (left p ++ t.loop.pending) ≡ t.queued) e (Reach-Inv r).order)
          ∙ q;
      pending = idle;
    },
  )
  from_polling t r g q k on timely e (p ∷ ps) busy =
      let (u, w) =
        roused t r g q k e t.loop.wakeups t.writers refl refl
          ((Reach-Inv r).announced (ap is_handling e) timely λ h. not_nil (sym busy ∙ h)) in
      Woken-Done u on w

  -- From every state in `loop` that the threads can reach, where no functor that the loop's own thread
  -- queued outside `loop` waits, where nothing new is handed over, other threads only write the eventfd
  -- that they are about to write, and `poll` returns only when the eventfd can be read: if `quit_` is not
  -- set, there are steps by which the loop comes to `poll` with every functor called that was handed
  -- over, so that no wakeup is lost; if it is set, there are steps by which `loop` returns.
  pub Reach-Done :
      {s : System F}
      → Reach s
      → s.phase ≢ outside
      → s.early ≡ false
      → (s.loop.quitting ≡ false → (t : System F) × Done s t)
        × (s.loop.quitting ≡ true → (t : System F) × Left s t)
  unfolding called
  Reach-Done {s} r inside timely = (by_phase s.phase refl, leaving s.phase refl)
    where
      woken : s.phase ≡ handling → Woken s s
      woken e = record { reach = r; goes = stays; phase = e; queued = refl; quitting = refl }

      by_phase : (p : Phase F) → s.phase ≡ p → s.loop.quitting ≡ false → (t : System F) × Done s t
      by_phase outside e on = absurd (inside e)
      by_phase polling e on = from_polling s r stays refl refl on timely e s.loop.pending refl
      by_phase handling e on = Woken-Done s on (woken e)
      by_phase (calling fs) e on =
          let g = finishes (calls_all fs s stays e) refl on in
          from_polling _ (Goes-Reach r g) g refl refl on timely refl s.loop.pending refl

      leaving : (p : Phase F) → s.phase ≡ p → s.loop.quitting ≡ true → (t : System F) × Left s t
      leaving outside e over = absurd (inside e)
      leaving polling e over =
          let (u, w) =
            roused s r stays refl refl e s.loop.wakeups s.writers refl refl
              ((Reach-Inv r).asked (ap is_polling e) over) in
          Woken-Left u over w
      leaving handling e over = Woken-Left s over (woken e)
      leaving (calling fs) e over = (
        _,
        record { goes = leaves (calls_all fs s stays e) refl over; phase = refl; looping = refl },
      )
