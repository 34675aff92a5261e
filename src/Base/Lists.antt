-- ===== src/Base/Lists.antt =====
-- Sequences measured and indexed by native numbers: the parts of std::vector<char> and
-- std::vector<T> that the program uses.
use Prim.Native.Nat.{ℕ, zero, suc, ◌+◌, ◌-◌, ◌≤◌, min}
use mathlib.Core.Path.{◌≡◌, refl, ap, ◌∙◌}
use mathlib.Core.List.{List, [], ◌∷◌, ◌++◌}
use mathlib.Core.Option.{Option, none, some}
use native.Mathlib.Omega.{arith}

module _ {ℓ} {A : Type ℓ} where
  abbrev pub length : List A → ℕ
  length [] = 0
  length (x ∷ xs) = suc (length xs)

  abbrev pub get_elem? : List A → ℕ → Option A
  get_elem? [] i = none
  get_elem? (x ∷ xs) zero = some x
  get_elem? (x ∷ xs) (suc i) = get_elem? xs i

  abbrev pub take : ℕ → List A → List A
  take zero xs = []
  take (suc n) [] = []
  take (suc n) (x ∷ xs) = x ∷ take n xs

  abbrev pub drop : ℕ → List A → List A
  drop zero xs = xs
  drop (suc n) [] = []
  drop (suc n) (x ∷ xs) = drop n xs

  abbrev pub replicate : ℕ → A → List A
  replicate zero a = []
  replicate (suc n) a = a ∷ replicate n a

  -- `std::copy` of a whole range onto the positions from `i` on.
  abbrev pub write_at : List A → ℕ → List A → List A
  write_at [] i ys = []
  write_at (x ∷ xs) zero [] = x ∷ xs
  write_at (x ∷ xs) zero (y ∷ ys) = y ∷ write_at xs zero ys
  write_at (x ∷ xs) (suc i) ys = x ∷ write_at xs i ys

module _ {ℓ} {A : Type ℓ} where
  -- `vector::resize`: cut to `n`, or filled up with `a`.
  abbrev pub resize : List A → ℕ → A → List A
  resize xs n a = take n xs ++ replicate (n - length xs) a

  pub length-append : (xs ys : List A) → length (xs ++ ys) ≡ length xs + length ys
  length-append [] ys = omega arith
  length-append (x ∷ xs) ys = omega (arith, length-append xs ys)

  pub length-take : (n : ℕ) (xs : List A) → length (take n xs) ≡ min n (length xs)
  length-take zero xs = omega arith
  length-take (suc n) [] = omega arith
  length-take (suc n) (x ∷ xs) = omega (arith, length-take n xs)

  pub length-drop : (n : ℕ) (xs : List A) → length (drop n xs) ≡ length xs - n
  length-drop zero xs = omega arith
  length-drop (suc n) [] = omega arith
  length-drop (suc n) (x ∷ xs) = omega (arith, length-drop n xs)

  pub length-replicate : (n : ℕ) (a : A) → length (replicate n a) ≡ n
  length-replicate zero a = refl
  length-replicate (suc n) a = ap suc (length-replicate n a)

  pub length-write_at : (xs : List A) (i : ℕ) (ys : List A) → length (write_at xs i ys) ≡ length xs
  length-write_at [] i ys = refl
  length-write_at (x ∷ xs) zero [] = refl
  length-write_at (x ∷ xs) zero (y ∷ ys) = ap suc (length-write_at xs zero ys)
  length-write_at (x ∷ xs) (suc i) ys = ap suc (length-write_at xs i ys)

  pub length-nil : (xs : List A) → length xs ≡ 0 → xs ≡ []
  length-nil [] h = refl
  length-nil (x ∷ xs) h = absurd (omega arith)

  pub take-append-drop : (n : ℕ) (xs : List A) → take n xs ++ drop n xs ≡ xs
  take-append-drop zero xs = refl
  take-append-drop (suc n) [] = refl
  take-append-drop (suc n) (x ∷ xs) = rw (take-append-drop n xs)

  pub take_all : (n : ℕ) (xs : List A) → length xs ≤ n → take n xs ≡ xs
  take_all zero [] h = refl
  take_all zero (x ∷ xs) h = absurd (omega arith)
  take_all (suc n) [] h = refl
  take_all (suc n) (x ∷ xs) h = ap (◌∷◌ x) (take_all n xs (omega arith))

  pub drop_all : (n : ℕ) (xs : List A) → length xs ≤ n → drop n xs ≡ []
  drop_all zero [] h = refl
  drop_all zero (x ∷ xs) h = absurd (omega arith)
  drop_all (suc n) [] h = refl
  drop_all (suc n) (x ∷ xs) h = drop_all n xs (omega arith)

  drop-nil : (n : ℕ) → drop {A = A} n [] ≡ []
  drop-nil zero = refl
  drop-nil (suc n) = refl

  -- The sum is a variable, so that it can be matched.
  pub drop-drop : (n m k : ℕ) (xs : List A) → k ≡ n + m → drop m (drop n xs) ≡ drop k xs
  drop-drop zero m k xs e = ap (λ i. drop i xs) (omega arith)
  drop-drop (suc n) m k [] e = rw (drop-nil m, drop-nil k)
  drop-drop (suc n) m zero (x ∷ xs) e = absurd (omega arith)
  drop-drop (suc n) m (suc k) (x ∷ xs) e = drop-drop n m k xs (omega arith)

  drop-take : (n m k : ℕ) (xs : List A) → m ≡ n + k → drop n (take m xs) ≡ take k (drop n xs)
  drop-take zero m k xs e = ap (λ i. take i xs) (omega arith)
  drop-take (suc n) m zero [] e = drop-nil-take m
    where
      drop-nil-take : (m : ℕ) → drop (suc n) (take {A = A} m []) ≡ []
      drop-nil-take zero = refl
      drop-nil-take (suc m) = refl
  drop-take (suc n) zero (suc k) [] e = refl
  drop-take (suc n) (suc m) (suc k) [] e = refl
  drop-take (suc n) zero k (x ∷ xs) e = absurd (omega arith)
  drop-take (suc n) (suc m) k (x ∷ xs) e = drop-take n m k xs (omega arith)

  -- What a write at the end of the first `n` elements leaves in front.
  take-write_at :
      (n m : ℕ) (xs ys : List A)
      → m ≡ n + length ys
      → m ≤ length xs
      → take m (write_at xs n ys) ≡ take n xs ++ ys
  take-write_at zero zero [] [] e h = refl
  take-write_at zero zero (x ∷ xs) [] e h = refl
  take-write_at zero zero xs (y ∷ ys) e h = absurd (omega arith)
  take-write_at zero (suc m) xs [] e h = absurd (omega arith)
  take-write_at zero (suc m) [] (y ∷ ys) e h = absurd (omega arith)
  take-write_at zero (suc m) (x ∷ xs) (y ∷ ys) e h =
      ap (◌∷◌ y) (take-write_at zero m xs ys (omega arith) (omega arith))
  take-write_at (suc n) zero xs ys e h = absurd (omega arith)
  take-write_at (suc n) (suc m) [] ys e h = absurd (omega arith)
  take-write_at (suc n) (suc m) (x ∷ xs) ys e h =
      ap (◌∷◌ x) (take-write_at n m xs ys (omega arith) (omega arith))

  drop-write_at :
      (r n w : ℕ) (xs ys : List A)
      → w ≡ r + n
      → drop r (write_at xs w ys) ≡ write_at (drop r xs) n ys
  drop-write_at zero n w xs ys e = ap (λ i. write_at xs i ys) (omega arith)
  drop-write_at (suc r) n w [] ys e = refl
  drop-write_at (suc r) n zero (x ∷ xs) ys e = absurd (omega arith)
  drop-write_at (suc r) n (suc w) (x ∷ xs) ys e = drop-write_at r n w xs ys (omega arith)

  -- The elements from position `r` up to position `w`.
  abbrev pub slice : ℕ → ℕ → List A → List A
  slice r w xs = take (w - r) (drop r xs)

  pub length-slice : (r w : ℕ) (xs : List A) → w ≤ length xs → length (slice r w xs) ≡ w - r
  length-slice r w xs h = omega (arith, length-take (w - r) (drop r xs), length-drop r xs)

  -- A write at the end of a slice extends it.
  pub slice-write_at :
      (r w : ℕ) (xs ys : List A)
      → r ≤ w
      → w + length ys ≤ length xs
      → slice r (w + length ys) (write_at xs w ys) ≡ slice r w xs ++ ys
  slice-write_at r w xs ys h k = rw (drop-write_at r (w - r) w xs ys (omega arith)) (
      take-write_at (w - r) (w + length ys - r) (drop r xs) ys (omega arith)
        (omega (arith, length-drop r xs)))

  -- Taking elements off the front of a slice.
  pub drop-slice :
      (n r w : ℕ) (xs : List A) → r + n ≤ w → drop n (slice r w xs) ≡ slice (r + n) w xs
  drop-slice n r w xs h =
      drop-take n (w - r) (w - (r + n)) (drop r xs) (omega arith)
      ∙ ap (take (w - (r + n))) (drop-drop r n (r + n) xs refl)

  take-take : (n m : ℕ) (xs : List A) → n ≤ m → take n (take m xs) ≡ take n xs
  take-take zero m xs h = refl
  take-take (suc n) zero xs h = absurd (omega arith)
  take-take (suc n) (suc m) [] h = refl
  take-take (suc n) (suc m) (x ∷ xs) h = ap (◌∷◌ x) (take-take n m xs (omega arith))

  pub take-slice :
      (n r w : ℕ) (xs : List A) → n ≤ w - r → take n (slice r w xs) ≡ take n (drop r xs)
  take-slice n r w xs h = take-take n (w - r) (drop r xs) h

  take_append : (n : ℕ) (xs ys : List A) → n ≤ length xs → take n (xs ++ ys) ≡ take n xs
  take_append zero xs ys h = refl
  take_append (suc n) [] ys h = absurd (omega arith)
  take_append (suc n) (x ∷ xs) ys h = ap (◌∷◌ x) (take_append n xs ys (omega arith))

  drop_append : (n : ℕ) (xs ys : List A) → n ≤ length xs → drop n (xs ++ ys) ≡ drop n xs ++ ys
  drop_append zero xs ys h = refl
  drop_append (suc n) [] ys h = absurd (omega arith)
  drop_append (suc n) (x ∷ xs) ys h = drop_append n xs ys (omega arith)

  -- Growing the vector leaves a slice alone.
  pub slice-append :
      (r w : ℕ) (xs ys : List A) → r ≤ w → w ≤ length xs → slice r w (xs ++ ys) ≡ slice r w xs
  slice-append r w xs ys h k =
      rw (drop_append r xs ys (omega arith))
        (take_append (w - r) (drop r xs) ys (omega (arith, length-drop r xs)))
