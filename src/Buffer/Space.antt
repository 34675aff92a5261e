-- ===== src/Buffer/Space.antt =====
-- Buffer: its sizes, and making room (`ensureWriteableBytes`, `makeSpace`).
use mynuduo.Base.{
  refl, ℕ, ◌+◌, ◌-◌, ◌≤◌, ◌≡◌, ◌∙◌, ◌⊎◌, List, length, inl, inr, arith, replicate, take, resize,
  write_at, length-append, length-replicate, length-take, length-write_at, length-slice,
  slice-append, slice-write_at, take_all, Bool-cases, ltb, add_size, max_size,
}
use mynuduo.Buffer.{
  Buffer, IsValid, contents, cheap_prepend, readable_bytes, writable_bytes, make_space,
  ensure_writeable_bytes, new, initial_size,
}

pub readable_lem : {b : Buffer} → IsValid b → readable_bytes b ≡ b.writer - b.reader
unfolding readable_bytes
readable_lem v = omega arith

pub writable_lem : {b : Buffer} → IsValid b → writable_bytes b ≡ length b.bytes - b.writer
unfolding writable_bytes
writable_lem v = omega arith

pub length-contents : {b : Buffer} → IsValid b → length (contents b) ≡ readable_bytes b
length-contents {b} v = length-slice b.reader b.writer b.bytes v.fits ∙ sym-readable
  where
    sym-readable : b.writer - b.reader ≡ readable_bytes b
    sym-readable = omega (arith, readable_lem v)

-- What `make_space` and `ensure_writeable_bytes` promise: the same bytes, and room for `len` more.
pub record MadeRoom (b c : Buffer) (len : ℕ) : Type 0 where
  pub valid : IsValid c
  pub room : c.writer + len ≤ length c.bytes
  pub same : contents c ≡ contents b
  pub no_later : c.writer ≤ b.writer

length-resize : (xs : List ℕ) (n : ℕ) → length xs ≤ n → length (resize xs n 0) ≡ n
length-resize xs n h = omega (
  arith,
  length-append (take n xs) (replicate (n - length xs) 0),
  length-take n xs,
  length-replicate {A = ℕ} (n - length xs) 0,
)

grow-MadeRoom :
    {b : Buffer} (len : ℕ)
    → IsValid b
    → length b.bytes ≤ len + b.writer
    → len + b.writer ≤ max_size
    → MadeRoom b (record b { bytes = resize b.bytes (len + b.writer) 0 }) len
grow-MadeRoom {b} len v g h = record {
  valid = record {
    prepend = v.prepend;
    ordered = v.ordered;
    fits = omega (arith, length-resize b.bytes (len + b.writer) g);
    bounded = omega (arith, length-resize b.bytes (len + b.writer) g);
  };
  room = omega (arith, length-resize b.bytes (len + b.writer) g);
  same = rw (take_all (len + b.writer) b.bytes g) (
      slice-append b.reader b.writer b.bytes (replicate (len + b.writer - length b.bytes) 0)
        v.ordered v.fits);
  no_later = omega arith;
}

move_down : Buffer → Buffer
move_down b = record {
  bytes = write_at b.bytes cheap_prepend (contents b);
  reader = cheap_prepend;
  writer = cheap_prepend + length (contents b);
}

move_down-MadeRoom :
    {b : Buffer} (len : ℕ)
    → IsValid b
    → cheap_prepend + (b.writer - b.reader) + len ≤ length b.bytes
    → MadeRoom b (move_down b) len
unfolding move_down
move_down-MadeRoom {b} len v h = record {
  valid = record {
    prepend = omega arith;
    ordered = omega arith;
    fits = omega (arith, size, moved);
    bounded = omega (arith, moved, v.bounded);
  };
  room = omega (arith, size, moved);
  same =
      slice-write_at cheap_prepend cheap_prepend b.bytes (contents b) (omega arith)
        (omega (arith, size));
  no_later = omega (arith, size, v.prepend, v.ordered);
}
  where
    size : length (contents b) ≡ b.writer - b.reader
    size = length-slice b.reader b.writer b.bytes v.fits

    moved : length (write_at b.bytes cheap_prepend (contents b)) ≡ length b.bytes
    moved = length-write_at b.bytes cheap_prepend (contents b)

-- The two branches of `make_space`, once no `size_t` sum wraps.
make_space-cases :
    {b : Buffer} (len : ℕ)
    → IsValid b
    → len + b.writer ≤ max_size
    → ((length b.bytes ≤ len + b.writer)
        × (make_space b len ≡ record b { bytes = resize b.bytes (len + b.writer) 0 }))
      ⊎ ((cheap_prepend + (b.writer - b.reader) + len ≤ length b.bytes)
          × (make_space b len ≡ move_down b))
unfolding make_space move_down
make_space-cases {b} len v h =
    elim (Bool-cases (ltb (add_size (writable_bytes b) b.reader) (add_size len 8))) [
      | inl small ↦ inl (ground (arith), ground (arith))
      | inr large ↦
          inr (ground (arith), ground (arith, length-slice b.reader b.writer b.bytes v.fits))
    ]

-- Making room keeps the buffer valid and its bytes the same, and gives the room asked for.
pub ensure-MadeRoom :
    {b : Buffer} (len : ℕ)
    → IsValid b
    → len + b.writer ≤ max_size
    → MadeRoom b (ensure_writeable_bytes b len) len
unfolding ensure_writeable_bytes
ensure-MadeRoom {b} len v h =
    ground (
      arith,
      make_space-cases len v h,
      grow-MadeRoom len v,
      move_down-MadeRoom len v,
      writable_lem v,
    )

-- A new buffer is valid, and has no unread byte.
pub new-IsValid : IsValid (new initial_size)
unfolding new
new-IsValid =
    let size = length-replicate {A = ℕ} (add_size cheap_prepend initial_size) 0 in
    record {
      prepend = omega arith;
      ordered = omega arith;
      fits = omega (arith, size);
      bounded = omega (arith, size);
    }

pub readable-new : readable_bytes (new initial_size) ≡ 0
unfolding new readable_bytes
readable-new = refl
