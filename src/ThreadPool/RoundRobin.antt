-- ===== src/ThreadPool/RoundRobin.antt =====
-- EventLoopThreadPool: `getNextLoop` goes round the loops.
use mynuduo.Base.{
  if_rule, ap₂, ℕ, zero, suc, ◌+◌, ◌%◌, ◌<◌, ◌≡◌, refl, ◌∙◌, ap, sym, List, [], ◌∷◌, length,
  get_elem?, arith, leb, if◌then◌else◌,
}
use native.Mathlib.Nat.{mod-eq_of_lt, mod-add-mod, mod_self, mod-lt}
use mynuduo.ThreadPool.{ThreadPool, get_next_loop}

wrap : (i n : ℕ) → i < n → (if leb n (i + 1) then 0 else i + 1) ≡ (i + 1) % n
wrap i n h =
    if_rule (λ r. r ≡ (i + 1) % n) (leb n (i + 1))
      (λ last. sym (ap (λ m. m % n) (ground arith) ∙ mod_self n))
      λ more. sym (mod-eq_of_lt (ground arith))

module _ (L : Type 0) where
  -- The pool after `n` calls of `getNextLoop`.
  pub calls : ℕ → ThreadPool L → ThreadPool L
  calls zero p = p
  calls (suc n) p = calls n (get_next_loop L p).1

  pub loops-next : (p : ThreadPool L) → (get_next_loop L p).1.loops ≡ p.loops
  unfolding get_next_loop
  loops-next p = ground arith

  next-step_of :
      (p : ThreadPool L) (l : List L)
      → p.next < length l
      → (get_next_loop L (record p { loops = l })).1.next ≡ (p.next + 1) % length l
  unfolding get_next_loop
  next-step_of p [] h = absurd (omega arith)
  next-step_of p (x ∷ xs) h = wrap p.next (length (x ∷ xs)) h

  pub next-step :
      (p : ThreadPool L)
      → p.next < length p.loops
      → (get_next_loop L p).1.next ≡ (p.next + 1) % length p.loops
  next-step p h = next-step_of p p.loops h

  pub loop-now :
      (p : ThreadPool L)
      → p.next < length p.loops
      → (get_next_loop L p).0 ≡ get_elem? p.loops p.next
  unfolding get_next_loop
  loop-now p h = ground arith

  -- The state after `n` calls.
  record After (n : ℕ) (p q : ThreadPool L) : Type 0 where
    loops : q.loops ≡ p.loops
    next : q.next ≡ (p.next + n) % length p.loops

  calls-After : (n : ℕ) (p : ThreadPool L) → p.next < length p.loops → After n p (calls n p)
  unfolding calls
  calls-After zero p h = record {
    loops = refl;
    next =
        sym (mod-eq_of_lt {n = p.next} {m = length p.loops} h)
        ∙ ap (λ i. i % length p.loops) (omega arith);
  }
  calls-After (suc n) p h =
      let q : ThreadPool L = (get_next_loop L p).1 in
      let size : length q.loops ≡ length p.loops = ap length (loops-next p) in
      let step = next-step p h in
      let ih =
        calls-After n q
          (omega (arith, step, size, mod-lt (p.next + 1) {m = length p.loops} (omega arith))) in
      record {
        loops = ih.loops ∙ loops-next p;
        next =
            ih.next
            ∙ ap₂ (λ i m. (i + n) % m) step size
            ∙ mod-add-mod (p.next + 1) (length p.loops) n
            ∙ ap (λ i. i % length p.loops) (omega arith);
      }

  -- `getNextLoop` after `n` calls, on a pool with loops and an index in range, returns the loop
  -- `n` places on from the index, going round: every loop has its turn, in order.
  pub get_next_loop-round_robin :
      (n : ℕ) (p : ThreadPool L)
      → p.next < length p.loops
      → ((get_next_loop L (calls n p)).0 ≡ get_elem? p.loops ((p.next + n) % length p.loops))
        × ((calls n p).next < length p.loops)
  get_next_loop-round_robin n p h =
      let a = calls-After n p h in
      let bound : (calls n p).next < length p.loops =
        omega (arith, a.next, mod-lt (p.next + n) {m = length p.loops} (omega arith)) in
      (
        loop-now (calls n p) (omega (arith, bound, ap length a.loops))
            ∙ ap₂ get_elem? a.loops a.next,
        bound,
      )
