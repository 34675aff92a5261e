-- ===== src/EventLoop/Quit.antt =====
-- EventLoop: `loop` ends in the first round after which `quit_` is set.
use mynuduo.Base.{ℕ, zero, suc, ◌≤◌, ◌<◌, ◌≡◌, refl, true, false, arith, ap}
use mynuduo.EventLoop.{EventLoop, round, rounds, loop}

module _ {F : Type 0} (handle : EventLoop F → EventLoop F)
    (exec : F → EventLoop F → EventLoop F) where
  -- `n` rounds, whatever `quit_` says.
  unfoldable pub after_rounds : ℕ → EventLoop F → EventLoop F
  after_rounds zero l = l
  after_rounds (suc n) l = after_rounds n (round handle exec l)

  abbrev started : EventLoop F → EventLoop F
  started l = record l { looping = true; quitting = false }

  quitting_ends : (fuel : ℕ) (l : EventLoop F) → l.quitting ≡ true → rounds fuel handle exec l ≡ l
  unfolding rounds
  quitting_ends zero l h = refl
  quitting_ends (suc fuel) l h = ground arith

  rounds-after_rounds :
      (n fuel : ℕ) (l : EventLoop F)
      → n ≤ fuel
      → ((i : ℕ) → i < n → (after_rounds i l).quitting ≡ false)
      → (after_rounds n l).quitting ≡ true
      → rounds fuel handle exec l ≡ after_rounds n l
  unfolding rounds after_rounds
  rounds-after_rounds zero fuel l le before ends = quitting_ends fuel l ends
  rounds-after_rounds (suc n) zero l le before ends = absurd (omega arith)
  rounds-after_rounds (suc n) (suc fuel) l le before ends =
      let go =
        rounds-after_rounds n fuel (round handle exec l) (omega arith)
          (λ i lt. before (suc i) (omega arith)) ends in
      let running : l.quitting ≡ false = before 0 (omega arith) in ground arith

  -- A `loop` whose `quit_` is first set at the end of its `n`-th round runs `n` rounds and clears
  -- `looping_`, with any fuel of `n` or more; a `quit_` set before it starts is forgotten.
  pub loop-after_rounds :
      (n fuel : ℕ) (l : EventLoop F)
      → n ≤ fuel
      → ((i : ℕ) → i < n → (after_rounds i (started l)).quitting ≡ false)
      → (after_rounds n (started l)).quitting ≡ true
      → loop fuel handle exec l ≡ record (after_rounds n (started l)) { looping = false }
  unfolding loop
  loop-after_rounds n fuel l le before ends =
      ap {A = EventLoop F} (λ m. record m { looping = false })
        (rounds-after_rounds n fuel (started l) le before ends)
