-- ===== src/Thread/Known.antt =====
-- Thread: what the owner knows after `start`, and that the destructor does not end the process.
use mynuduo.Base.{
  if◌then◌else◌, ◌&&◌, not, arith, ◌⊎◌, inl, inr, ◌≢◌, ℕ, suc, ◌≡◌, refl, sym, ap, subst, ◌∙◌, Bool,
  true, false,
}
use mynuduo.Thread.{
  tid, Child, unborn, born, identified, posted, calling, ended, Owner, fresh, waiting, up, joining,
  done, destroyed, terminated, is_idle, Thread, destruct, Step, starts, identifies, posts, calls,
  ends, wakes, begins_join, ends_join, destroys, Reach, here, next,
}

-- `tid_` has been set.
abbrev pub is_identified : Child → Bool
is_identified unborn = false
is_identified born = false
is_identified _ = true

abbrev pub is_terminated : Owner → Bool
is_terminated terminated = true
is_terminated _ = false

-- The flags of the object, by where the owner stands.
abbrev pub Flags : Owner → Thread → Type 0
Flags fresh t =
    (t.started ≡ false)
    × (t.joinable ≡ false)
    × (t.child ≡ unborn)
    × (t.sem ≡ 0)
    × (t.joined ≡ false)
Flags waiting t = (t.started ≡ true) × (t.joined ≡ false)
Flags up t = (t.started ≡ true) × (t.joined ≡ false) × (is_identified t.child ≡ true)
Flags joining t = is_identified t.child ≡ true
Flags done t = (t.joinable ≡ false) × (is_identified t.child ≡ true)
Flags destroyed t = Unit {0}
Flags terminated t = ⊥

module _ (gettid : ℕ) where
  pub record Inv (t : Thread) : Type 0 where
    pub flags : Flags t.owner t
    pub known : is_identified t.child ≡ true → t.tid ≡ gettid
    pub counted : (n : ℕ) → t.sem ≡ suc n → is_identified t.child ≡ true

  tid_lem : tid gettid 0 ≡ gettid
  unfolding tid
  tid_lem = refl

  -- A step of the new thread that keeps the rest of the object.
  moved :
      (x : Owner) (t : Thread) (c : Child) (n i : ℕ)
      → (is_identified t.child ≡ true → is_identified c ≡ true)
      → t.child ≢ unborn
      → Flags x t
      → Flags x (record t { child = c; sem = n; tid = i })
  moved fresh t c n i on there f = absurd (there f.2)
  moved waiting t c n i on there f = f
  moved up t c n i on there f = (f.0, f.1, on f.2)
  moved joining t c n i on there f = on f
  moved done t c n i on there f = (f.0, on f.1)
  moved destroyed t c n i on there f = tt
  moved terminated t c n i on there f = f

  settled : (b : Bool) (t : Thread) → b ≡ false → Flags (if b then terminated else destroyed) t
  settled true t h = absurd cc
  settled false t h = tt

  -- Before its own destructor `thread_` is not joinable.
  unjoinable :
      (t : Thread)
      → (t.joinable ≡ false) ⊎ (t.started ≡ true) × (t.joined ≡ false)
      → (if t.started && not t.joined then record t { joinable = false } else t).joinable ≡ false
  unjoinable t (inl h) = ground (arith, h)
  unjoinable t (inr h) = ground (arith, h)

  destructed :
      (x : Owner) (t : Thread)
      → is_idle x ≡ true
      → Flags x t
      → Flags (destruct t).owner (destruct t)
  unfolding destruct
  destructed fresh t h f = settled _ _ (unjoinable t (inl f.1))
  destructed up t h f = settled _ _ (unjoinable t (inr (f.0, f.1)))
  destructed done t h f = settled _ _ (unjoinable t (inl f.0))
  destructed waiting t h f = absurd cc
  destructed joining t h f = absurd cc
  destructed destroyed t h f = absurd cc
  destructed terminated t h f = absurd cc

  destruct-same :
      (t : Thread)
      → ((destruct t).tid ≡ t.tid) × ((destruct t).child ≡ t.child) × ((destruct t).sem ≡ t.sem)
  unfolding destruct
  destruct-same t = (ground arith, ground arith, ground arith)

  at : {t : Thread} (x : Owner) → t.owner ≡ x → Inv t → Flags x t
  at {t} x e v = subst (λ x. Flags x t) e v.flags

  Step-Inv : {s t : Thread} → Step gettid s t → Inv s → Inv t
  Step-Inv {s} (starts e) v = record {
    flags = (refl, (at fresh e v).4);
    known = λ h. absurd cc;
    counted = λ n h. absurd cc;
  }
  Step-Inv {s} (identifies e) v = record {
    flags = moved s.owner s identified s.sem _ (λ h. refl) (λ h. absurd cc) v.flags;
    known = λ h. tid_lem;
    counted = λ n h. refl;
  }
  Step-Inv {s} (posts e) v = record {
    flags = moved s.owner s posted _ s.tid (λ h. refl) (λ h. absurd cc) v.flags;
    known = λ h. v.known (ap is_identified e);
    counted = λ n h. refl;
  }
  Step-Inv {s} (calls e) v = record {
    flags = moved s.owner s calling s.sem s.tid (λ h. refl) (λ h. absurd cc) v.flags;
    known = λ h. v.known (ap is_identified e);
    counted = λ n h. refl;
  }
  Step-Inv {s} (ends e) v = record {
    flags = moved s.owner s ended s.sem s.tid (λ h. refl) (λ h. absurd cc) v.flags;
    known = λ h. v.known (ap is_identified e);
    counted = λ n h. refl;
  }
  Step-Inv {s} (wakes n e q) v =
      let f = at waiting e v in
      record { flags = (f.0, f.1, v.counted n q); known = v.known; counted = λ m h. v.counted n q }
  Step-Inv {s} (begins_join e) v = record {
    flags = (at up e v).2;
    known = v.known;
    counted = v.counted;
  }
  Step-Inv {s} (ends_join e c) v = record {
    flags = (refl, ap is_identified c);
    known = v.known;
    counted = v.counted;
  }
  Step-Inv {s} (destroys h) v =
      let same = destruct-same s in
      record {
        flags = destructed s.owner s h v.flags;
        known = λ i. same.0 ∙ v.known (sym (ap is_identified same.1) ∙ i);
        counted = λ n q. ap is_identified same.1 ∙ v.counted n (sym same.2 ∙ q);
      }

  pub Reach-Inv_of : {t : Thread} → Reach gettid t → Inv t
  Reach-Inv_of here = record {
    flags = (refl, refl, refl, refl, refl);
    known = λ h. cc;
    counted = λ n h. cc;
  }
  Reach-Inv_of (next r st) = Step-Inv st (Reach-Inv_of r)

  terminates : (x : Owner) (t : Thread) → Flags x t → x ≢ terminated
  terminates terminated t f h = f
  terminates _ t f h = absurd cc

  has_up :
      (x : Owner) (t : Thread)
      → Flags x t
      → is_idle x ≡ true
      → x ≢ fresh
      → is_identified t.child ≡ true
  has_up fresh t f h n = absurd (n refl)
  has_up up t f h n = f.2
  has_up done t f h n = f.1
  has_up _ t f h n = absurd cc

  -- In every state that the owner and the new thread can reach: no destructor has met a joinable
  -- `std::thread`, which would end the process.
  pub Reach-not_terminated : {t : Thread} → Reach gettid t → t.owner ≢ terminated
  Reach-not_terminated {t} r = terminates t.owner t (Reach-Inv_of r).flags

  -- In every state that the owner and the new thread can reach, where the owner has come back from
  -- `start` and no destructor has run: `tid_` is the kernel's id of the new thread.
  pub Reach-tid :
      {t : Thread} → Reach gettid t → is_idle t.owner ≡ true → t.owner ≢ fresh → t.tid ≡ gettid
  Reach-tid {t} r h n = let v = Reach-Inv_of r in v.known (has_up t.owner t v.flags h n)
