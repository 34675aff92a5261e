-- ===== src/TcpServer/Site/Tasks.antt =====
-- TcpServer/Site: the tasks that wait for one connection object.
use mynuduo.Base.{
  ℕ, ◌≡◌, refl, sym, ap, subst, ◌∙◌, Bool, true, false, List, [], ◌∷◌, ◌++◌, ◌==◌, if◌then◌else◌,
  if_rule, Bool-cases, inl, inr, arith, append-nil,
}
use mynuduo.TcpServer.{Conn, Task, listen_task, establish_task, remove_task, destroy_task}
use mynuduo.TcpServer.Site.{Stage, absent, adopted, live, closed, removed, gone, set_stage}

module _ (L : Type 0) where
  abbrev pub about : ℕ → Task L → Bool
  about a listen_task = false
  about a (establish_task c) = c.self == a
  about a (remove_task c) = c.self == a
  about a (destroy_task c) = c.self == a

  -- The waiting tasks about the object at `a`, oldest first.
  unfoldable pub tasks_of : ℕ → List (L × Task L) → List (Task L)
  tasks_of a [] = []
  tasks_of a ((l, t) ∷ ts) = let rest = tasks_of a ts in if about a t then t ∷ rest else rest

  -- The one task that is to wait for an object, by its stage.
  abbrev pub due : Stage L → List (Task L)
  due absent = []
  due (adopted c) = establish_task c ∷ []
  due (live c) = []
  due (closed c) = remove_task c ∷ []
  due (removed c) = destroy_task c ∷ []
  due (gone c) = []

  -- Every object has the tasks waiting that its stage calls for, and no others.
  abbrev pub Tasked : (ℕ → Stage L) → List (L × Task L) → Type 0
  Tasked stage ts = (a : ℕ) → tasks_of a ts ≡ due (stage a)

  pub tasks_of-append :
      (a : ℕ) (xs ys : List (L × Task L)) → tasks_of a (xs ++ ys) ≡ tasks_of a xs ++ tasks_of a ys
  unfolding tasks_of
  tasks_of-append a [] ys = refl
  tasks_of-append a ((l, t) ∷ xs) ys = elim (Bool-cases (about a t)) [
    | inl mine ↦ rw (mine, tasks_of-append a xs ys)
    | inr other ↦ rw (other, tasks_of-append a xs ys)
  ]

  tasks_of-mine :
      (a : ℕ) (l : L) (t : Task L) (pre post : List (L × Task L))
      → about a t ≡ true
      → tasks_of a (pre ++ (l, t) ∷ post) ≡ tasks_of a pre ++ t ∷ tasks_of a post
  unfolding tasks_of
  tasks_of-mine a l t pre post h = rw (tasks_of-append a pre ((l, t) ∷ post), h)

  tasks_of-other :
      (a : ℕ) (l : L) (t : Task L) (pre post : List (L × Task L))
      → about a t ≡ false
      → tasks_of a (pre ++ (l, t) ∷ post) ≡ tasks_of a (pre ++ post)
  unfolding tasks_of
  tasks_of-other a l t pre post h =
      rw (tasks_of-append a pre ((l, t) ∷ post), tasks_of-append a pre post, h)

  not_empty : (xs ys : List (Task L)) (t : Task L) → ¬ (xs ++ t ∷ ys ≡ [])
  not_empty [] ys t h = absurd (cc)
  not_empty (x ∷ xs) ys t h = absurd (cc)

  single :
      (xs ys : List (Task L)) (t u : Task L)
      → xs ++ t ∷ ys ≡ u ∷ []
      → (u ∷ [] ≡ t ∷ []) × (xs ++ ys ≡ [])
  single [] ys t u h = (sym h ∙ cc, cc)
  single (x ∷ xs) ys t u h = absurd (not_empty xs ys t cc)

  -- One task at most waits for an object.
  alone :
      (xs ys : List (Task L)) (t : Task L) (v : Stage L)
      → xs ++ t ∷ ys ≡ due v
      → (due v ≡ t ∷ []) × (xs ++ ys ≡ [])
  alone xs ys t absent h = absurd (not_empty xs ys t h)
  alone xs ys t (adopted c) h = single xs ys t (establish_task c) h
  alone xs ys t (live c) h = absurd (not_empty xs ys t h)
  alone xs ys t (closed c) h = single xs ys t (remove_task c) h
  alone xs ys t (removed c) h = single xs ys t (destroy_task c) h
  alone xs ys t (gone c) h = absurd (not_empty xs ys t h)

  -- What is due for an object says what stage it is at.
  pub due-adopted : (c : Conn L) (v : Stage L) → due v ≡ establish_task c ∷ [] → v ≡ adopted c
  due-adopted c absent h = absurd (cc)
  due-adopted c (adopted d) h = cc
  due-adopted c (live d) h = absurd (cc)
  due-adopted c (closed d) h = absurd (cc)
  due-adopted c (removed d) h = absurd (cc)
  due-adopted c (gone d) h = absurd (cc)

  pub due-closed : (c : Conn L) (v : Stage L) → due v ≡ remove_task c ∷ [] → v ≡ closed c
  due-closed c absent h = absurd (cc)
  due-closed c (adopted d) h = absurd (cc)
  due-closed c (live d) h = absurd (cc)
  due-closed c (closed d) h = cc
  due-closed c (removed d) h = absurd (cc)
  due-closed c (gone d) h = absurd (cc)

  pub due-removed : (c : Conn L) (v : Stage L) → due v ≡ destroy_task c ∷ [] → v ≡ removed c
  due-removed c absent h = absurd (cc)
  due-removed c (adopted d) h = absurd (cc)
  due-removed c (live d) h = absurd (cc)
  due-removed c (closed d) h = absurd (cc)
  due-removed c (removed d) h = cc
  due-removed c (gone d) h = absurd (cc)

  -- The task that is called is the one that waits for its object.
  pub called-due :
      (c : Conn L) (stage : ℕ → Stage L) (l : L) (t : Task L) (pre post : List (L × Task L))
      → about c.self t ≡ true
      → Tasked stage (pre ++ (l, t) ∷ post)
      → (due (stage c.self) ≡ t ∷ []) × (tasks_of c.self (pre ++ post) ≡ [])
  called-due c stage l t pre post h v =
      let (one, rest) =
        alone (tasks_of c.self pre) (tasks_of c.self post) t (stage c.self)
          (sym (tasks_of-mine c.self l t pre post h) ∙ v c.self) in
      (one, tasks_of-append c.self pre post ∙ rest)

  self : (c : Conn L) → (c.self == c.self) ≡ true
  self c = ground arith

  -- A task about `c` is called, and `c` comes to the stage `v`, which adds what it calls for.
  pub called-Tasked :
      (c : Conn L) (v : Stage L) (stage : ℕ → Stage L) (l : L) (t : Task L)
      (pre post added : List (L × Task L))
      → ((a : ℕ) → about a t ≡ (c.self == a))
      → ((a : ℕ) → tasks_of a added ≡ (if c.self == a then due v else []))
      → Tasked stage (pre ++ (l, t) ∷ post)
      → Tasked (set_stage L c.self v stage) ((pre ++ post) ++ added)
  called-Tasked c v stage l t pre post added mine more h a =
      rw (tasks_of-append a (pre ++ post) added, more a)
        (elim (Bool-cases (c.self == a)) [
          | inl same ↦
              (let e : c.self ≡ a = ground arith in
                let rest = (called-due c stage l t pre post (mine c.self ∙ self c) h).1 in
                rw same (ap (λ r. r ++ due v) (subst (λ b. tasks_of b (pre ++ post) ≡ []) e rest)))
          | inr other ↦
              rw (other, append-nil (tasks_of a (pre ++ post)))
                (sym (tasks_of-other a l t pre post (mine a ∙ other)) ∙ h a)
        ])

  -- A task about `c` is added, which had none.
  pub added-Tasked :
      (c : Conn L) (v : Stage L) (stage : ℕ → Stage L) (ts added : List (L × Task L))
      → ((a : ℕ) → tasks_of a added ≡ (if c.self == a then due v else []))
      → due (stage c.self) ≡ []
      → Tasked stage ts
      → Tasked (set_stage L c.self v stage) (ts ++ added)
  added-Tasked c v stage ts added more none h a =
      rw (tasks_of-append a ts added, more a)
        (elim (Bool-cases (c.self == a)) [
          | inl same ↦
              (let e : c.self ≡ a = ground arith in
                rw same
                  (ap (λ r. r ++ due v) (subst (λ b. tasks_of b ts ≡ []) e (h c.self ∙ none))))
          | inr other ↦ rw (other, append-nil (tasks_of a ts)) (h a)
        ])

  -- A task about no connection is called.
  pub ignored-Tasked :
      (stage : ℕ → Stage L) (l : L) (pre post : List (L × Task L))
      → Tasked stage (pre ++ (l, listen_task) ∷ post)
      → Tasked stage (pre ++ post)
  ignored-Tasked stage l pre post h a = sym (tasks_of-other a l listen_task pre post refl) ∙ h a

  -- The one task that is added, where one is due.
  pub added_task :
      (c : Conn L) (v : Stage L) (l : L) (t : Task L)
      → ((a : ℕ) → about a t ≡ (c.self == a))
      → due v ≡ t ∷ []
      → (a : ℕ) → tasks_of a ((l, t) ∷ []) ≡ (if c.self == a then due v else [])
  unfolding tasks_of
  added_task c v l t mine one a = rw (mine a, one) refl

  -- None is added, where none is due.
  pub no_task :
      (c : Conn L) (v : Stage L)
      → due v ≡ []
      → (a : ℕ) → tasks_of a [] ≡ (if c.self == a then due v else [])
  unfolding tasks_of
  no_task c v one a = if_rule (λ r. tasks_of a [] ≡ r) (c.self == a) (λ _. sym one) (λ _. refl)
