-- ===== src/ThreadPool/Usable.antt =====
-- EventLoopThreadPool: a pool from which `getNextLoop` always gives a loop.
use mynuduo.Base.{
  ℕ, suc, zero, ◌+◌, ◌<◌, ◌≡◌, refl, ap, ◌∙◌, ◌⊎◌, inl, inr, some, List, [], ◌∷◌, length, get_elem?,
  arith,
}
use native.Mathlib.Nat.{mod-lt}
use mynuduo.ThreadPool.{ThreadPool, get_next_loop}
use mynuduo.ThreadPool.RoundRobin.{loops-next, next-step, loop-now}

get_elem?-some :
    {A : Type 0} (xs : List A) (i : ℕ) → i < length xs → (x : A) × (get_elem? xs i ≡ some x)
get_elem?-some [] i h = absurd (omega arith)
get_elem?-some (x ∷ xs) zero h = (x, refl)
get_elem?-some (x ∷ xs) (suc i) h = get_elem?-some xs i (omega arith)

module _ (L : Type 0) where
  -- It has no loops but the base loop, or its index is in range.
  abbrev pub IsUsable : ThreadPool L → Type 0
  IsUsable p = (p.loops ≡ []) ⊎ (p.next < length p.loops)

  pub get_next_loop-IsUsable :
      (p : ThreadPool L)
      → IsUsable p
      → (l : L) × ((get_next_loop L p).0 ≡ some l) × IsUsable (get_next_loop L p).1
  unfolding get_next_loop
  get_next_loop-IsUsable p (inl e) = (p.base_loop, ground arith, inl (ground arith))
  get_next_loop-IsUsable p (inr h) =
      let (l, e) = get_elem?-some p.loops p.next h in
      (
        l,
        loop-now L p h ∙ e,
        inr (
            omega (
              arith,
              next-step L p h,
              ap length (loops-next L p),
              mod-lt (p.next + 1) {m = length p.loops} (omega arith),
            )),
      )
