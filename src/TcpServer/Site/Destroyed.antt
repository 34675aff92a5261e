-- ===== src/TcpServer/Site/Destroyed.antt =====
-- TcpServer/Site: what the destructor of the server leaves to its loops.
use mynuduo.Base.{
  ℕ, ◌≡◌, ◌≤◌, refl, sym, ap, ap₂, ◌∙◌, true, false, Option, none, some, List, [], ◌∷◌, ◌++◌, ◌==◌,
  length, Bool-cases, inl, inr, arith,
}
use mynuduo.TcpServer.{Printf, Conn, Task, same_name, find, destroy_task, destroy_all, destruct}
use mynuduo.TcpServer.Map.{Apart, same_name_lem, same_name_refl, find-first, find-behind, find-next}
use mynuduo.TcpServer.Site.{Site, Stage, Reach, bare}
use mynuduo.TcpServer.Site.Tasks.{tasks_of, tasks_of-append, due}
use mynuduo.TcpServer.Site.Entries.{Stored, held}
use mynuduo.TcpServer.Site.Kept.{Reach-Inv, bare-Inv}

module _ (L : Type 0) where
  -- What the destructor adds for an object that the server holds.
  abbrev pub ending : Option (Conn L) → List (Task L)
  ending none = []
  ending (some c) = destroy_task c ∷ []

  -- Every connection found in `m` is held by its stage, under its name.
  abbrev Sound : (ℕ → Stage L) → List (List ℕ × Conn L) → Type 0
  Sound stage m =
      (n : List ℕ) (d : Conn L)
      → find n m ≡ some d
      → (d.name ≡ n) × (held L (stage d.self) ≡ some d)

  tail-Sound :
      (stage : ℕ → Stage L) (j : List ℕ) (w : Conn L) (m : List (List ℕ × Conn L))
      → find j m ≡ none
      → Sound stage ((j, w) ∷ m)
      → Sound stage m
  tail-Sound stage j w m out s n d e = s n d (find-behind n j w d m out e)

  -- No connection found in `m` stands at `a`.
  abbrev Without : ℕ → List (List ℕ × Conn L) → Type 0
  Without a m = (n : List ℕ) (d : Conn L) → find n m ≡ some d → (d.self == a) ≡ false

  destroy_all-Without :
      (a : ℕ) (m : List (List ℕ × Conn L))
      → Apart m
      → Without a m
      → tasks_of L a (destroy_all L m) ≡ []
  unfolding destroy_all tasks_of
  destroy_all-Without a [] v h = refl
  destroy_all-Without a ((j, w) ∷ m) v h =
      rw (h j w (find-first j w m))
        (destroy_all-Without a m v.1 λ n d e. h n d (find-behind n j w d m v.0 e))

  same_conn :
      (stage : ℕ → Stage L) (a : ℕ) (c d : Conn L)
      → held L (stage a) ≡ some c
      → held L (stage d.self) ≡ some d
      → (d.self == a) ≡ true
      → d ≡ c
  same_conn stage a c d h e same =
      let at : d.self ≡ a = ground arith in
      let both : some d ≡ some c = sym e ∙ ap (λ b. held L (stage b)) at ∙ h in cc

  destroy_all-held :
      (stage : ℕ → Stage L) (a : ℕ) (c : Conn L) (m : List (List ℕ × Conn L))
      → Apart m
      → Sound stage m
      → held L (stage a) ≡ some c
      → c.self ≡ a
      → find c.name m ≡ some c
      → tasks_of L a (destroy_all L m) ≡ destroy_task c ∷ []
  unfolding destroy_all tasks_of find
  destroy_all-held stage a c [] v s h at e = absurd (cc)
  destroy_all-held stage a c ((j, w) ∷ m) v s h at e = elim (Bool-cases (same_name j c.name)) [
    | inl same ↦
        (let found : some w ≡ some c =
            sym (find-first j w m)
            ∙ ap (λ k. find k ((j, w) ∷ m)) (same_name_lem j c.name same)
            ∙ e in
          let one : w ≡ c = cc in
          let mine : (w.self == a) ≡ true = ground (arith, ap (λ x. x.self) one) in
          let named = same_name_lem j c.name same in
          rw mine (
            ap₂ (λ x l. destroy_task x ∷ l) one
              (destroy_all-Without a m v.1 λ n d f. elim (Bool-cases (d.self == a)) [
                | inl again ↦
                    (let (name, held_d) = tail-Sound stage j w m v.0 s n d f in
                      let twin = same_conn stage a c d h held_d again in
                      let clash : none ≡ some d =
                        sym v.0
                        ∙ ap (λ k. find k m) (named ∙ ap (λ x. x.name) (sym twin) ∙ name)
                        ∙ f in
                      absurd (cc))
                | inr away ↦ away
              ])))
    | inr other ↦ elim (Bool-cases (w.self == a)) [
      | inl mine ↦
          (let (name, held_w) = s j w (find-first j w m) in
            let one = same_conn stage a c w h held_w mine in
            let clash : true ≡ false =
              sym (same_name_refl j) ∙ ap (same_name j) (sym name ∙ ap (λ x. x.name) one) ∙ other in
            absurd (cc))
      | inr apart ↦ rw apart (
          destroy_all-held stage a c m v.1 (tail-Sound stage j w m v.0 s) h at
            (sym (find-next j c.name w m other) ∙ e))
    ]
  ]

  destroy_all-ending :
      (stage : ℕ → Stage L) (a : ℕ) (m : List (List ℕ × Conn L))
      → Apart m
      → Stored L stage m
      → (o : Option (Conn L)) → held L (stage a) ≡ o
      → tasks_of L a (destroy_all L m) ≡ ending o
  destroy_all-ending stage a m p s none h = destroy_all-Without a m p λ n d f.
      elim (Bool-cases (d.self == a)) [
        | inl mine ↦
            (let at : d.self ≡ a = ground arith in
              let clash : some d ≡ none =
                sym ((s.sound n d f).1) ∙ ap (λ b. held L (stage b)) at ∙ h in
              absurd (cc))
        | inr away ↦ away
      ]
  destroy_all-ending stage a m p s (some c) h =
      let (at, found) = s.complete a c h in destroy_all-held stage a c m p s.sound h at found

  -- In every state that a new server can reach, whose address is no longer than an IPv4 address with its
  -- port: the destructor leaves for each connection object the tasks that were waiting for it and, behind
  -- them, `connectDestroyed` once where `connections_` still holds it, and nothing more for any other
  -- object. For one that is
  -- closed and not yet taken out, `removeConnectionInLoop` so still waits, of a server that is gone.
  pub destruct-tasks_of :
      (f : Printf) (loop : L) (ip_port name : List ℕ) {s : Site L}
      → length ip_port ≤ 21
      → Reach L f (bare L loop ip_port name) s
      → (a : ℕ)
      → tasks_of L a (destruct L s.server) ≡ due L (s.stage a) ++ ending (held L (s.stage a))
  unfolding destruct
  destruct-tasks_of f loop ip_port name {s} h r a =
      let v = Reach-Inv L f (bare-Inv L f loop ip_port name h) r in
      tasks_of-append L a s.server.handed (destroy_all L s.server.connections)
      ∙ ap₂ ◌++◌ (v.tasked a) (
          destroy_all-ending s.stage a s.server.connections v.apart v.stored (held L (s.stage a))
            refl)
