-- ===== src/TcpServer/Map.antt =====
-- TcpServer: the map `connections_` by name.
use mynuduo.Base.{
  if_rule, Bool-cases, inl, inr, ℕ, ◌≡◌, refl, sym, ◌∙◌, ap, ap₂, true, false, none, some, List, [],
  ◌∷◌, ◌++◌, arith,
}
use mynuduo.TcpServer.{same_name, find, assign, erase}

pub same_name_lem : (xs ys : List ℕ) → same_name xs ys ≡ true → xs ≡ ys
unfolding same_name
same_name_lem [] [] h = refl
same_name_lem [] (y ∷ ys) h = cc
same_name_lem (x ∷ xs) [] h = cc
same_name_lem (x ∷ xs) (y ∷ ys) h = ap₂ ◌∷◌ (ground arith) (same_name_lem xs ys (ground arith))

pub same_name_refl : (xs : List ℕ) → same_name xs xs ≡ true
unfolding same_name
same_name_refl [] = refl
same_name_refl (x ∷ xs) = ground (arith, same_name_refl xs)

other_name : (j k : List ℕ) → same_name j k ≡ false → same_name k j ≡ false
other_name j k h = elim (Bool-cases (same_name k j)) [
  | inl same ↦
      (let clash : true ≡ false =
          sym (same_name_refl j) ∙ ap (same_name j) (sym (same_name_lem k j same)) ∙ h in
        absurd (cc))
  | inr other ↦ other
]

pub cancel_left : (xs : List ℕ) {ys zs : List ℕ} → xs ++ ys ≡ xs ++ zs → ys ≡ zs
cancel_left [] h = h
cancel_left (x ∷ xs) h = cancel_left xs cc

module _ {V : Type 0} where
  pub find-assign_same :
      (k : List ℕ) (v : V) (m : List (List ℕ × V)) → find k (assign k v m) ≡ some v
  unfolding find assign
  find-assign_same k v [] = rw (same_name_refl k)
  find-assign_same k v ((j, w) ∷ m) = elim (Bool-cases (same_name j k)) [
    | inl same ↦ rw (same, same)
    | inr other ↦ rw (other, other, find-assign_same k v m)
  ]

  pub find-assign_other :
      (k j : List ℕ) (v : V) (m : List (List ℕ × V))
      → same_name k j ≡ false
      → find j (assign k v m) ≡ find j m
  unfolding find assign
  find-assign_other k j v [] h = rw h
  find-assign_other k j v ((i, w) ∷ m) h = elim (Bool-cases (same_name i k)) [
    | inl same ↦
        (let e = same_name_lem i k same in
          let apart : same_name i j ≡ false = ap (λ n. same_name n j) e ∙ h in rw (same, apart))
    | inr other ↦ rw (other, find-assign_other k j v m h)
  ]

  pub find-erase_same : (k : List ℕ) (m : List (List ℕ × V)) → find k (erase k m) ≡ none
  unfolding find erase
  find-erase_same k [] = refl
  find-erase_same k ((j, w) ∷ m) = elim (Bool-cases (same_name j k)) [
    | inl same ↦ rw (same, find-erase_same k m)
    | inr other ↦ rw (other, other, find-erase_same k m)
  ]

  pub find-erase_other :
      (k j : List ℕ) (m : List (List ℕ × V)) → same_name k j ≡ false → find j (erase k m) ≡ find j m
  unfolding find erase
  find-erase_other k j [] h = refl
  find-erase_other k j ((i, w) ∷ m) h = elim (Bool-cases (same_name i k)) [
    | inl same ↦
        (let e = same_name_lem i k same in
          let apart : same_name i j ≡ false = ap (λ n. same_name n j) e ∙ h in
          rw (same, apart, find-erase_other k j m h))
    | inr other ↦ rw (other, find-erase_other k j m h)
  ]

  -- Every key of a map.
  abbrev pub EachKey : (List ℕ → Type 0) → List (List ℕ × V) → Type 0
  EachKey P [] = Unit {0}
  EachKey P ((k, v) ∷ m) = P k × EachKey P m

  pub EachKey-mono :
      (P Q : List ℕ → Type 0) (m : List (List ℕ × V))
      → ((k : List ℕ) → P k → Q k)
      → EachKey P m
      → EachKey Q m
  EachKey-mono P Q [] g h = tt
  EachKey-mono P Q ((k, v) ∷ m) g h = (g k h.0, EachKey-mono P Q m g h.1)

  pub assign-EachKey :
      (P : List ℕ → Type 0) (k : List ℕ) (v : V) (m : List (List ℕ × V))
      → P k
      → EachKey P m
      → EachKey P (assign k v m)
  unfolding assign
  assign-EachKey P k v [] p h = (p, tt)
  assign-EachKey P k v ((j, w) ∷ m) p h =
      if_rule (EachKey P) (same_name j k) (λ _. h) λ _. (h.0, assign-EachKey P k v m p h.1)

  pub erase-EachKey :
      (P : List ℕ → Type 0) (k : List ℕ) (m : List (List ℕ × V))
      → EachKey P m
      → EachKey P (erase k m)
  unfolding erase
  erase-EachKey P k [] h = tt
  erase-EachKey P k ((j, w) ∷ m) h =
      if_rule (EachKey P) (same_name j k) (λ _. erase-EachKey P k m h.1)
        λ _. (h.0, erase-EachKey P k m h.1)

  pub find-none :
      (k : List ℕ) (m : List (List ℕ × V))
      → EachKey (λ j. same_name j k ≡ false) m
      → find k m ≡ none
  unfolding find
  find-none k [] h = refl
  find-none k ((j, w) ∷ m) h = rw (h.0, find-none k m h.1)

  -- No key stands twice.
  abbrev pub Apart : List (List ℕ × V) → Type 0
  Apart [] = Unit {0}
  Apart ((k, v) ∷ m) = (find k m ≡ none) × Apart m

  pub assign-Apart : (k : List ℕ) (v : V) (m : List (List ℕ × V)) → Apart m → Apart (assign k v m)
  unfolding find assign
  assign-Apart k v [] h = (refl, tt)
  assign-Apart k v ((j, w) ∷ m) h = elim (Bool-cases (same_name j k)) [
    | inl same ↦ rw same h
    | inr other ↦
        rw other (find-assign_other k j v m (other_name j k other) ∙ h.0, assign-Apart k v m h.1)
  ]

  pub erase-Apart : (k : List ℕ) (m : List (List ℕ × V)) → Apart m → Apart (erase k m)
  unfolding erase
  erase-Apart k [] h = tt
  erase-Apart k ((j, w) ∷ m) h = elim (Bool-cases (same_name j k)) [
    | inl same ↦ rw same (erase-Apart k m h.1)
    | inr other ↦
        rw other (find-erase_other k j m (other_name j k other) ∙ h.0, erase-Apart k m h.1)
  ]

  pub find-first : (j : List ℕ) (w : V) (m : List (List ℕ × V)) → find j ((j, w) ∷ m) ≡ some w
  unfolding find
  find-first j w m = rw (same_name_refl j) refl

  -- What stands behind another entry is found.
  pub find-behind :
      (n j : List ℕ) (w v : V) (m : List (List ℕ × V))
      → find j m ≡ none
      → find n m ≡ some v
      → find n ((j, w) ∷ m) ≡ some v
  unfolding find
  find-behind n j w v m out h = elim (Bool-cases (same_name j n)) [
    | inl same ↦
        (let clash : none ≡ some v = sym out ∙ ap (λ k. find k m) (same_name_lem j n same) ∙ h in
          absurd (cc))
    | inr other ↦ rw other h
  ]

  pub find-next :
      (j n : List ℕ) (w : V) (m : List (List ℕ × V))
      → same_name j n ≡ false
      → find n ((j, w) ∷ m) ≡ find n m
  unfolding find
  find-next j n w m other = rw other refl
