-- ===== src/TcpServer/Site/Entries.antt =====
-- TcpServer/Site: `connections_` holds exactly the connections that are not yet to be forgotten.
use mynuduo.Base.{
  ℕ, ◌≡◌, refl, sym, ap, subst, ◌∙◌, true, false, Option, none, some, List, ◌==◌, Bool-cases, inl,
  inr, arith,
}
use mynuduo.TcpServer.{Conn, same_name, find, assign, erase}
use mynuduo.TcpServer.Map.{
  same_name_lem, same_name_refl, find-assign_same, find-assign_other, find-erase_same,
  find-erase_other,
}
use mynuduo.TcpServer.Site.{Stage, absent, adopted, live, closed, removed, gone, set_stage}

module _ (L : Type 0) where
  -- The connection that the server is to hold for an object, by its stage.
  abbrev pub held : Stage L → Option (Conn L)
  held absent = none
  held (adopted c) = some c
  held (live c) = some c
  held (closed c) = some c
  held (removed c) = none
  held (gone c) = none

  pub record Stored (stage : ℕ → Stage L) (m : List (List ℕ × Conn L)) : Type 0 where
    pub sound :
        (n : List ℕ) (d : Conn L)
        → find n m ≡ some d
        → (d.name ≡ n) × (held (stage d.self) ≡ some d)
    pub complete :
        (a : ℕ) (d : Conn L) → held (stage a) ≡ some d → (d.self ≡ a) × (find d.name m ≡ some d)

  same_self : (a b : ℕ) → (a == b) ≡ true → a ≡ b
  same_self a b h = ground arith

  set_same :
      (c : Conn L) (v : Stage L) (stage : ℕ → Stage L) (a : ℕ)
      → (c.self == a) ≡ true
      → set_stage L c.self v stage a ≡ v
  set_same c v stage a h = rw h refl

  set_other :
      (c : Conn L) (v : Stage L) (stage : ℕ → Stage L) (a : ℕ)
      → (c.self == a) ≡ false
      → set_stage L c.self v stage a ≡ stage a
  set_other c v stage a h = rw h refl

  held-set :
      (c : Conn L) (v : Stage L) (stage : ℕ → Stage L)
      → held v ≡ held (stage c.self)
      → (a : ℕ) → held (set_stage L c.self v stage a) ≡ held (stage a)
  held-set c v stage h a = elim (Bool-cases (c.self == a)) [
    | inl same ↦
        ap held (set_same c v stage a same) ∙ h ∙ ap (λ b. held (stage b)) (same_self c.self a same)
    | inr other ↦ ap held (set_other c v stage a other)
  ]

  -- A step in the life of `c` that the server takes no notice of.
  pub set-Stored :
      (c : Conn L) (v : Stage L) (stage : ℕ → Stage L) (m : List (List ℕ × Conn L))
      → held v ≡ held (stage c.self)
      → Stored stage m
      → Stored (set_stage L c.self v stage) m
  set-Stored c v stage m h s = record {
    sound = λ n d e. let (p, q) = s.sound n d e in (p, held-set c v stage h d.self ∙ q);
    complete = λ a d e. s.complete a d (sym (held-set c v stage h a) ∙ e);
  }

  -- A new connection is stored, under a name that is not in use.
  pub assign-Stored :
      (c : Conn L) (stage : ℕ → Stage L) (m : List (List ℕ × Conn L))
      → stage c.self ≡ absent
      → find c.name m ≡ none
      → Stored stage m
      → Stored (set_stage L c.self (adopted c) stage) (assign c.name c m)
  assign-Stored c stage m out unused s = record {
    sound = λ n d e. elim (Bool-cases (same_name c.name n)) [
      | inl same ↦
          (let name = same_name_lem c.name n same in
            let found : some c ≡ some d =
              sym (find-assign_same c.name c m) ∙ ap (λ k. find k (assign c.name c m)) name ∙ e in
            subst
              (λ x. (x.name ≡ n) × (held (set_stage L c.self (adopted c) stage x.self) ≡ some x))
              (cc) (name, ap held (set_same c (adopted c) stage c.self (ground arith))))
      | inr other ↦
          (let (p, q) = s.sound n d (sym (find-assign_other c.name n c m other) ∙ e) in
            (
              p,
              elim (Bool-cases (c.self == d.self)) [
                | inl same ↦
                    (let clash : none ≡ some d =
                        sym (ap held out)
                        ∙ ap (λ b. held (stage b)) (same_self c.self d.self same)
                        ∙ q in
                      absurd (cc))
                | inr apart ↦ ap held (set_other c _ stage d.self apart) ∙ q
              ],
            ))
    ];
    complete = λ a d e. elim (Bool-cases (c.self == a)) [
      | inl same ↦
          (let found : some c ≡ some d = sym (ap held (set_same c (adopted c) stage a same)) ∙ e in
            subst (λ x. (x.self ≡ a) × (find x.name (assign c.name c m) ≡ some x)) (cc)
              (same_self c.self a same, find-assign_same c.name c m))
      | inr apart ↦
          (let (p, q) =
              s.complete a d (sym (ap held (set_other c (adopted c) stage a apart)) ∙ e) in
            (
              p,
              elim (Bool-cases (same_name c.name d.name)) [
                | inl same ↦
                    (let clash : none ≡ some d =
                        sym unused ∙ ap (λ k. find k m) (same_name_lem c.name d.name same) ∙ q in
                      absurd (cc))
                | inr other ↦ find-assign_other c.name d.name c m other ∙ q
              ],
            ))
    ];
  }

  -- A connection that is closed is no longer stored.
  pub erase-Stored :
      (c : Conn L) (stage : ℕ → Stage L) (m : List (List ℕ × Conn L))
      → stage c.self ≡ closed c
      → Stored stage m
      → Stored (set_stage L c.self (removed c) stage) (erase c.name m)
  erase-Stored c stage m shut s = record {
    sound = λ n d e. elim (Bool-cases (same_name c.name n)) [
      | inl same ↦
          (let clash : none ≡ some d =
              sym (find-erase_same c.name m)
              ∙ ap (λ k. find k (erase c.name m)) (same_name_lem c.name n same)
              ∙ e in
            absurd (cc))
      | inr other ↦
          (let (p, q) = s.sound n d (sym (find-erase_other c.name n m other) ∙ e) in
            (
              p,
              elim (Bool-cases (c.self == d.self)) [
                | inl same ↦
                    (let found : some c ≡ some d =
                        sym (ap held shut)
                        ∙ ap (λ b. held (stage b)) (same_self c.self d.self same)
                        ∙ q in
                      let one : c ≡ d = cc in
                      let name : c.name ≡ n = ap (λ x. x.name) one ∙ p in
                      let clash : true ≡ false =
                        sym (same_name_refl c.name) ∙ ap (same_name c.name) name ∙ other in
                      absurd (cc))
                | inr apart ↦ ap held (set_other c _ stage d.self apart) ∙ q
              ],
            ))
    ];
    complete = λ a d e. elim (Bool-cases (c.self == a)) [
      | inl same ↦
          (let clash : none ≡ some d = sym (ap held (set_same c (removed c) stage a same)) ∙ e in
            absurd (cc))
      | inr apart ↦
          (let (p, q) =
              s.complete a d (sym (ap held (set_other c (removed c) stage a apart)) ∙ e) in
            (
              p,
              elim (Bool-cases (same_name c.name d.name)) [
                | inl same ↦
                    (let found : some c ≡ some d =
                        sym ((s.complete c.self c (ap held shut)).1)
                        ∙ ap (λ k. find k m) (same_name_lem c.name d.name same)
                        ∙ q in
                      let one : c ≡ d = cc in
                      let self : c.self ≡ a = ap (λ x. x.self) one ∙ p in absurd (ground arith))
                | inr other ↦ find-erase_other c.name d.name m other ∙ q
              ],
            ))
    ];
  }
