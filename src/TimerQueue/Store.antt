-- ===== src/TimerQueue/Store.antt =====
-- TimerQueue: who is in `timers_`, in `activeTimers_` and in memory after an insertion or a removal.
use mynuduo.Base.{
  if_rule, ℕ, ◌≡◌, refl, Bool, true, false, not, ◌&&◌, ◌||◌, List, [], ◌∷◌, ◌++◌, ◌==◌, arith,
}
use mynuduo.TimerQueue.{
  Entry, TimerId, entry_lt, same_entry, same_id, insert_entry, erase_entry, has_id, insert_id,
  erase_id, remove_addr,
}
use mynuduo.TimerQueue.Order.{Each}

-- Whether the timer at the address `a` is in `timers_`.
unfoldable pub has_addr : ℕ → List Entry → Bool
has_addr a [] = false
has_addr a (x ∷ xs) = x.addr == a || has_addr a xs

-- Whether the address `a` is one of a list.
unfoldable pub is_in : ℕ → List ℕ → Bool
is_in a [] = false
is_in a (x ∷ xs) = x == a || is_in a xs

-- No timer stands in `timers_` twice.
abbrev pub Distinct : List Entry → Type 0
Distinct [] = Unit {0}
Distinct (x ∷ xs) = (has_addr x.addr xs ≡ false) × Distinct xs

pub has_addr-append :
    (a : ℕ) (xs ys : List Entry) → has_addr a (xs ++ ys) ≡ (has_addr a xs || has_addr a ys)
unfolding has_addr
has_addr-append a [] ys = refl
has_addr-append a (x ∷ xs) ys = ground (arith, has_addr-append a xs ys)

pub has_addr-insert_entry :
    (a : ℕ) (e : Entry) (xs : List Entry)
    → has_addr e.addr xs ≡ false
    → has_addr a (insert_entry e xs) ≡ (e.addr == a || has_addr a xs)
unfolding has_addr insert_entry
has_addr-insert_entry a e [] h = refl
has_addr-insert_entry a e (x ∷ xs) h = ground (arith, has_addr-insert_entry a e xs)

pub insert_entry-Distinct :
    (e : Entry) (xs : List Entry)
    → has_addr e.addr xs ≡ false
    → Distinct xs
    → Distinct (insert_entry e xs)
unfolding has_addr insert_entry
insert_entry-Distinct e [] h d = (refl, tt)
insert_entry-Distinct e (x ∷ xs) h d =
    if_rule Distinct (entry_lt e x) (λ _. (h, d))
      λ _.
        if_rule Distinct (entry_lt x e)
          (λ _. (
            ground (arith, has_addr-insert_entry x.addr e xs),
            insert_entry-Distinct e xs (ground arith) d.1,
          ))
          λ _. d

-- The entry of a timer whose entry, if any, bears the time of `e`.
abbrev pub Bears : Entry → Entry → Type 0
Bears e x = (x.addr == e.addr) ≡ true → x.when ≡ e.when

pub has_addr-erase_entry :
    (a : ℕ) (e : Entry) (xs : List Entry)
    → Each (Bears e) xs
    → Distinct xs
    → has_addr a (erase_entry e xs) ≡ (has_addr a xs && not (e.addr == a))
unfolding has_addr erase_entry
has_addr-erase_entry a e [] h d = refl
has_addr-erase_entry a e (x ∷ xs) h d = ground (arith, has_addr-erase_entry a e xs h.1 d.1, h.0)

pub erase_entry-Distinct :
    (e : Entry) (xs : List Entry) → Each (Bears e) xs → Distinct xs → Distinct (erase_entry e xs)
unfolding erase_entry has_addr
erase_entry-Distinct e [] h d = tt
erase_entry-Distinct e (x ∷ xs) h d =
    if_rule Distinct (same_entry x e) (λ _. d.1)
      λ _. (
        ground (arith, has_addr-erase_entry x.addr e xs h.1 d.1, d.0),
        erase_entry-Distinct e xs h.1 d.1,
      )

pub is_in-remove_addr :
    (a b : ℕ) (xs : List ℕ) → is_in a (remove_addr b xs) ≡ (is_in a xs && not (b == a))
unfolding is_in remove_addr
is_in-remove_addr a b [] = refl
is_in-remove_addr a b (x ∷ xs) = ground (arith, is_in-remove_addr a b xs)

has_id-same : (i j : TimerId) (xs : List TimerId) → same_id i j ≡ true → has_id i xs ≡ has_id j xs
unfolding has_id
has_id-same i j [] h = refl
has_id-same i j (x ∷ xs) h = ground (arith, has_id-same i j xs)

pub has_id-insert_id :
    (i j : TimerId) (xs : List TimerId) → has_id j (insert_id i xs) ≡ (same_id i j || has_id j xs)
unfolding has_id insert_id
has_id-insert_id i j xs = ground (arith, has_id-same i j xs)

pub has_id-erase_id :
    (i j : TimerId) (xs : List TimerId)
    → has_id j (erase_id i xs) ≡ (has_id j xs && not (same_id i j))
unfolding has_id erase_id
has_id-erase_id i j [] = refl
has_id-erase_id i j (x ∷ xs) = ground (arith, has_id-erase_id i j xs)
