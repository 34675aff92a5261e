-- ===== src/Buffer/Append.antt =====
-- Buffer: bytes going in, by `append` and by `readFd`.
use mynuduo.Base.{
  ℕ, ◌+◌, ◌-◌, ◌≤◌, ◌≡◌, refl, ap, ◌++◌, List, length, take, drop, inl, inr, arith, leb, Bool-cases,
  write_at, length-write_at, length-take, length-drop, slice, slice-write_at, subst,
  take-append-drop, append_assoc, add_size, max_size,
}
use mynuduo.Base.Errno.{Errno}
use mynuduo.Buffer.{
  Buffer, IsValid, contents, writable_bytes, store, append, ReadResult, read_fd, read_limit,
  received, read_failed, extra_size,
}
use mynuduo.Buffer.Space.{ensure-MadeRoom, writable_lem}

-- What an operation that puts the bytes `d` at the end of `b` promises of its result.
pub record Appended (b c : Buffer) (d : List ℕ) : Type 0 where
  pub valid : IsValid c
  pub bytes : contents c ≡ contents b ++ d
  pub writer_le : c.writer ≤ b.writer + length d

store-Appended :
    {b : Buffer} (d : List ℕ)
    → IsValid b
    → b.writer + length d ≤ length b.bytes
    → Appended b (store b d) d
unfolding store
store-Appended {b} d v h =
    let no_wrap : add_size b.writer (length d) ≡ b.writer + length d = omega arith in
    rw no_wrap (record {
      valid = record {
        prepend = v.prepend;
        ordered = omega arith;
        fits = omega (arith, length-write_at b.bytes b.writer d);
        bounded = omega (arith, length-write_at b.bytes b.writer d);
      };
      bytes = slice-write_at b.reader b.writer b.bytes d v.ordered h;
      writer_le = omega arith;
    })

-- `append` keeps the buffer valid and puts the bytes behind the unread ones, for every state of a
-- valid buffer whose vector may grow to the size needed.
pub append-Appended :
    {b : Buffer} (d : List ℕ)
    → IsValid b
    → length d + b.writer ≤ max_size
    → Appended b (append b d) d
unfolding append
append-Appended {b} d v h =
    let made = ensure-MadeRoom (length d) v h in
    let stored = store-Appended d made.valid made.room in
    record {
      valid = stored.valid;
      bytes = rw (stored.bytes, made.same);
      writer_le = omega (arith, stored.writer_le, made.no_later);
    }

-- The buffer when `readv` has filled it to the end of the vector.
filled : Buffer → List ℕ → Buffer
filled b d = record b {
  bytes = write_at b.bytes b.writer (take (writable_bytes b) d);
  writer = length b.bytes;
}

filled-Appended :
    {b : Buffer} (d : List ℕ)
    → IsValid b
    → length b.bytes - b.writer ≤ length d
    → Appended b (filled b d) (take (writable_bytes b) d)
unfolding filled
filled-Appended {b} d v h = record {
  valid = record {
    prepend = v.prepend;
    ordered = omega arith;
    fits = omega (arith, size);
    bounded = omega (arith, size);
  };
  bytes =
      subst (λ n. slice b.reader n (write_at b.bytes b.writer part) ≡ contents b ++ part)
        (omega (arith, taken))
        (slice-write_at b.reader b.writer b.bytes part v.ordered (omega (arith, taken)));
  writer_le = omega (arith, taken);
}
  where
    part : List ℕ
    part = take (writable_bytes b) d

    taken : length part ≡ length b.bytes - b.writer
    taken = omega (arith, length-take (writable_bytes b) d, writable_lem v)

    size : length (write_at b.bytes b.writer part) ≡ length b.bytes
    size = length-write_at b.bytes b.writer part

writer-filled : (b : Buffer) (d : List ℕ) → (filled b d).writer ≡ length b.bytes
unfolding filled
writer-filled b d = refl

left_over :
    {b : Buffer} (d : List ℕ)
    → IsValid b
    → length (drop (writable_bytes b) d) ≡ length d - (length b.bytes - b.writer)
left_over {b} d v = omega (arith, length-drop (writable_bytes b) d, writable_lem v)

overflow-Appended :
    {b : Buffer} (d : List ℕ)
    → IsValid b
    → length b.bytes - b.writer ≤ length d
    → length d + b.writer ≤ max_size
    → Appended b (append (filled b d) (drop (writable_bytes b) d)) d
overflow-Appended {b} d v h k =
    let first = filled-Appended d v h in
    let rest = drop (writable_bytes b) d in
    let size = left_over d v in
    let at_end = writer-filled b d in
    let second = append-Appended rest first.valid (omega (arith, size, at_end)) in
    record {
      valid = second.valid;
      bytes =
          rw (second.bytes, first.bytes, append_assoc)
            (ap (◌++◌ (contents b)) (take-append-drop (writable_bytes b) d));
      writer_le = omega (arith, size, at_end, second.writer_le);
    }

-- `readFd`, where `readv` returns the bytes `d` and no more of them than it was offered room for,
-- keeps the buffer valid and puts exactly these bytes behind the unread ones, also where they
-- overflow into `extrabuf`.
pub read_fd-Appended :
    {b : Buffer} (readv : ℕ → ReadResult) (d : List ℕ)
    → IsValid b
    → readv (read_limit b) ≡ received d
    → length d ≤ read_limit b
    → length b.bytes + extra_size ≤ max_size
    → Appended b (read_fd b readv).1 d
unfolding read_fd filled
read_fd-Appended {b} readv d v e k h = elim (Bool-cases (leb (length d) (writable_bytes b))) [
  | inl fits ↦ rw (e, fits) (store-Appended d v (ground (arith, writable_lem v)))
  | inr over ↦
      rw (e, over)
        (overflow-Appended d v (ground (arith, writable_lem v)) (ground (arith, writable_lem v)))
]

unfold_failed :
    {b : Buffer} (readv : ℕ → ReadResult) (err : Errno)
    → IsValid b
    → readv (read_limit b) ≡ read_failed err
    → IsValid (read_fd b readv).1
unfolding read_fd
unfold_failed readv err v e = rw e v

-- `readFd` keeps a valid buffer valid also when `readv` fails.
pub read_fd-IsValid :
    {b : Buffer} (readv : ℕ → ReadResult)
    → IsValid b
    → ((d : List ℕ) → readv (read_limit b) ≡ received d → length d ≤ read_limit b)
    → length b.bytes + extra_size ≤ max_size
    → IsValid (read_fd b readv).1
read_fd-IsValid {b} readv v part h = by_result (readv (read_limit b)) refl
  where
    by_result : (r : ReadResult) → readv (read_limit b) ≡ r → IsValid (read_fd b readv).1
    by_result (received d) e = (read_fd-Appended readv d v e (part d e) h).valid
    by_result (read_failed err) e = unfold_failed readv err v e

-- `readv` is always offered the room of `extrabuf`.
pub extra-read_limit : (b : Buffer) → extra_size ≤ read_limit b
unfolding read_limit
extra-read_limit b = ground arith
