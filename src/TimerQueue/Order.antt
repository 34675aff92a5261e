-- ===== src/TimerQueue/Order.antt =====
-- TimerQueue: `timers_` stays in order, and `getExpired` cuts it at the right place.
use mynuduo.Base.{if_rule, ℕ, ◌≤◌, ◌<◌, ◌≡◌, refl, ap, true, false, List, [], ◌∷◌, ◌++◌, arith}
use mynuduo.TimerQueue.{
  Entry, entry_lt, insert_entry, erase_entry, same_entry, split_before, sentry, addr_max,
}

-- Every element of a list.
abbrev pub Each : (Entry → Type 0) → List Entry → Type 0
Each P [] = Unit {0}
Each P (x ∷ xs) = P x × Each P xs

-- Strictly rising, as a `std::set` keeps its elements.
abbrev pub IsSorted : List Entry → Type 0
IsSorted [] = Unit {0}
IsSorted (x ∷ xs) = Each (λ y. entry_lt x y ≡ true) xs × IsSorted xs

pub Each-mono :
    (P Q : Entry → Type 0) (xs : List Entry) → ((y : Entry) → P y → Q y) → Each P xs → Each Q xs
Each-mono P Q [] f h = tt
Each-mono P Q (x ∷ xs) f h = (f x h.0, Each-mono P Q xs f h.1)

entry_lt_trans : (a b c : Entry) → entry_lt a b ≡ true → entry_lt b c ≡ true → entry_lt a c ≡ true
entry_lt_trans a b c p q = ground arith

pub insert_entry-Each :
    (P : Entry → Type 0) (e : Entry) (xs : List Entry)
    → P e
    → Each P xs
    → Each P (insert_entry e xs)
unfolding insert_entry
insert_entry-Each P e [] p h = (p, tt)
insert_entry-Each P e (x ∷ xs) p h =
    if_rule (Each P) (entry_lt e x) (λ _. (p, h))
      λ _. if_rule (Each P) (entry_lt x e) (λ _. (h.0, insert_entry-Each P e xs p h.1)) λ _. h

pub insert_entry-IsSorted :
    (e : Entry) (xs : List Entry) → IsSorted xs → IsSorted (insert_entry e xs)
unfolding insert_entry
insert_entry-IsSorted e [] h = (tt, tt)
insert_entry-IsSorted e (x ∷ xs) h =
    if_rule IsSorted (entry_lt e x)
      (λ lt. (
        (
          lt,
          Each-mono (λ y. entry_lt x y ≡ true) (λ y. entry_lt e y ≡ true) xs
              (λ y. entry_lt_trans e x y lt) h.0,
        ),
        h,
      ))
      λ _.
        if_rule IsSorted (entry_lt x e)
          (λ gt. (
            insert_entry-Each (λ y. entry_lt x y ≡ true) e xs gt h.0,
            insert_entry-IsSorted e xs h.1,
          ))
          λ _. h

-- An address of the machine is below UINTPTR_MAX.
abbrev pub IsAddr : Entry → Type 0
IsAddr e = e.addr < addr_max

before_sentry : (now : ℕ) (e : Entry) → IsAddr e → entry_lt e (sentry now) ≡ true → e.when ≤ now
before_sentry now e h lt = ground arith

past_sentry : (now : ℕ) (e : Entry) → IsAddr e → entry_lt e (sentry now) ≡ false → now < e.when
past_sentry now e h ge = ground arith

later_than : (now : ℕ) (x y : Entry) → now < x.when → entry_lt x y ≡ true → now < y.when
later_than now x y h lt = ground arith

-- A cut of `xs` at the time `now`: nothing is lost, what is before is due, what is after is not.
pub record CutAt (now : ℕ) (xs before rest : List Entry) : Type 0 where
  pub whole : before ++ rest ≡ xs
  pub due : Each (λ e. e.when ≤ now) before
  pub later : Each (λ e. now < e.when) rest
  pub sorted : IsSorted rest

pub split_before-CutAt :
    (now : ℕ) (xs : List Entry)
    → IsSorted xs
    → Each IsAddr xs
    → CutAt now xs (split_before (sentry now) xs).0 (split_before (sentry now) xs).1
unfolding split_before
split_before-CutAt now [] h a = record { whole = refl; due = tt; later = tt; sorted = tt }
split_before-CutAt now (x ∷ xs) h a =
    if_rule (λ (p : List Entry × List Entry). CutAt now (x ∷ xs) p.0 p.1) (entry_lt x (sentry now))
      (λ lt.
        let c = split_before-CutAt now xs h.1 a.1 in
        record {
          whole = ap (◌∷◌ x) c.whole;
          due = (before_sentry now x a.0 lt, c.due);
          later = c.later;
          sorted = c.sorted;
        })
      λ ge. record {
        whole = refl;
        due = tt;
        later = (
          past_sentry now x a.0 ge,
          Each-mono (λ y. entry_lt x y ≡ true) (λ y. now < y.when) xs
              (λ y lt. later_than now x y (past_sentry now x a.0 ge) lt) h.0,
        );
        sorted = h;
      }

pub erase_entry-Each :
    (P : Entry → Type 0) (e : Entry) (xs : List Entry) → Each P xs → Each P (erase_entry e xs)
unfolding erase_entry
erase_entry-Each P e [] h = tt
erase_entry-Each P e (x ∷ xs) h =
    if_rule (Each P) (same_entry x e) (λ _. h.1) λ _. (h.0, erase_entry-Each P e xs h.1)

pub erase_entry-IsSorted : (e : Entry) (xs : List Entry) → IsSorted xs → IsSorted (erase_entry e xs)
unfolding erase_entry
erase_entry-IsSorted e [] h = tt
erase_entry-IsSorted e (x ∷ xs) h =
    if_rule IsSorted (same_entry x e) (λ _. h.1)
      λ _. (erase_entry-Each (λ y. entry_lt x y ≡ true) e xs h.0, erase_entry-IsSorted e xs h.1)
