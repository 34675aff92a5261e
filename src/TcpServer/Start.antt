-- ===== src/TcpServer/Start.antt =====
-- TcpServer: `start` may be called any number of times.
use mynuduo.Base.{ℕ, zero, suc, ◌<◌, ◌≡◌, refl, ◌∙◌, Bool, [], ◌∷◌, ◌++◌, if_rule, arith, ◌==◌}
use mynuduo.ThreadPool
use mynuduo.TcpServer.{TcpServer, start, hand, listen_task}

module _ (L : Type 0) (start_loop : ℕ → L) (has_callback : Bool) where
  -- `start` called `n` times.
  pub starts : ℕ → TcpServer L → TcpServer L
  starts zero s = s
  starts (suc n) s = starts n (start L start_loop has_callback s)

  record Same (s t : TcpServer L) : Type 0 where
    handed : t.handed ≡ s.handed
    pool : t.pool ≡ s.pool

  later_call :
      (s : TcpServer L)
      → 0 < s.started
      → Same s (start L start_loop has_callback s)
        × (0 < (start L start_loop has_callback s).started)
  unfolding start
  later_call s h =
      if_rule (λ t. Same s t × (0 < t.started)) (s.started == 0) (λ first. absurd (ground arith))
        λ _. (record { handed = refl; pool = refl }, omega arith)

  later_calls : (n : ℕ) (s : TcpServer L) → 0 < s.started → Same s (starts n s)
  unfolding starts
  later_calls zero s h = record { handed = refl; pool = refl }
  later_calls (suc n) s h =
      let (same, up) = later_call s h in
      let rest = later_calls n (start L start_loop has_callback s) up in
      record { handed = rest.handed ∙ same.handed; pool = rest.pool ∙ same.pool }

  -- However often `start` is called on a server that has not been started, at least once: the
  -- acceptor is told to listen exactly once, and the pool is started exactly once.
  pub starts-once :
      (n : ℕ) (s : TcpServer L)
      → s.started ≡ 0
      → ((starts (suc n) s).handed ≡ s.handed ++ (s.loop, listen_task) ∷ [])
        × ((starts (suc n) s).pool ≡ (ThreadPool.start L start_loop has_callback s.pool).1)
  unfolding starts start hand
  starts-once n s h =
      if_rule
        (λ t.
          (0 < t.started)
          → ((starts n t).handed ≡ s.handed ++ (s.loop, listen_task) ∷ [])
            × ((starts n t).pool ≡ (ThreadPool.start L start_loop has_callback s.pool).1))
        (s.started == 0) (λ _ up. let r = later_calls n _ up in (r.handed, r.pool))
        (λ later. absurd (ground arith)) (ground arith)
