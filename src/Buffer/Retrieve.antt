-- ===== src/Buffer/Retrieve.antt =====
-- Buffer: bytes going out, by `retrieve`, `reteieveAsString` and `retrieveAllAsString`.
use mynuduo.Base.{
  ℕ, ◌+◌, ◌≤◌, ◌≡◌, ◌∙◌, ap, List, sym, [], take, drop, inl, inr, arith, ltb, Bool-cases,
  drop-slice, take-slice, drop_all, take_all, add_size, refl,
}
use mynuduo.Buffer.{
  WriteResult, write_fd, Buffer, IsValid, contents, readable_bytes, peek, retrieve_all, retrieve,
  reteieve_as_string, retrieve_all_as_string,
}
use mynuduo.Buffer.Space.{readable_lem, length-contents}

-- What taking `n` bytes off `b` promises of its result.
pub record Retrieved (b c : Buffer) (n : ℕ) : Type 0 where
  pub valid : IsValid c
  pub bytes : contents c ≡ drop n (contents b)
  pub writer_le : c.writer ≤ b.writer

-- `retrieve` keeps a valid buffer valid and takes the `n` oldest bytes off it, or all of them
-- where there are fewer.
pub retrieve-Retrieved : {b : Buffer} (n : ℕ) → IsValid b → Retrieved b (retrieve b n) n
unfolding retrieve retrieve_all
retrieve-Retrieved {b} n v = elim (Bool-cases (ltb n (readable_bytes b))) [
  | inl fewer ↦
      let no_wrap : add_size b.reader n ≡ b.reader + n = ground (arith, readable_lem v) in
      rw (fewer, no_wrap)
        (record {
          valid = ground (arith, v.bounded, readable_lem v);
          bytes = sym (drop-slice n b.reader b.writer b.bytes (ground (arith, readable_lem v)));
          writer_le = omega arith;
        })
  | inr all ↦ rw all (record {
    valid = ground (arith, v.bounded);
    bytes = sym (drop_all n (contents b) (ground (arith, length-contents v)));
    writer_le = omega arith;
  })
]

-- The text taken out is the oldest `n` bytes, or as many as there are.
peek-take : {b : Buffer} (n : ℕ) → IsValid b → n ≤ readable_bytes b → peek b n ≡ take n (contents b)
unfolding peek
peek-take {b} n v h = sym (take-slice n b.reader b.writer b.bytes (ground (arith, readable_lem v)))

-- What `writeFd` offers to the kernel is all that is unread.
pub peek_all : {b : Buffer} → IsValid b → peek b (readable_bytes b) ≡ contents b
peek_all {b} v =
    peek-take (readable_bytes b) v (omega arith)
    ∙ take_all (readable_bytes b) (contents b) (omega (arith, length-contents v))

-- `write` is offered all unread bytes.
pub write_fd_lem :
    {b : Buffer} (sys_write : List ℕ → WriteResult)
    → IsValid b
    → write_fd b sys_write ≡ sys_write (contents b)
unfolding write_fd
write_fd_lem sys_write v = ap sys_write (peek_all v)

-- `reteieveAsString` of no more bytes than there are returns exactly the `n` oldest bytes, and
-- takes them off the buffer, which stays valid.
pub reteieve_as_string_lem :
    {b : Buffer} (n : ℕ)
    → IsValid b
    → n ≤ readable_bytes b
    → ((reteieve_as_string b n).0 ≡ take n (contents b)) × Retrieved b (reteieve_as_string b n).1 n
unfolding reteieve_as_string
reteieve_as_string_lem n v h = (peek-take n v h, retrieve-Retrieved n v)

-- `retrieveAllAsString` returns all unread bytes and leaves a valid buffer with none.
pub retrieve_all_as_string_lem :
    {b : Buffer}
    → IsValid b
    → ((retrieve_all_as_string b).0 ≡ contents b)
      × Retrieved b (retrieve_all_as_string b).1 (readable_bytes b)
      × (contents (retrieve_all_as_string b).1 ≡ [])
unfolding retrieve_all_as_string
retrieve_all_as_string_lem {b} v =
    let out = reteieve_as_string_lem (readable_bytes b) v (omega arith) in
    let size = length-contents v in
    (
      out.0 ∙ take_all (readable_bytes b) (contents b) (omega (arith, size)),
      out.1,
      out.1.bytes ∙ drop_all (readable_bytes b) (contents b) (omega (arith, size)),
    )

-- `retrieveAll` leaves a valid buffer with nothing to read.
pub retrieve_all_lem :
    {b : Buffer} → IsValid b → IsValid (retrieve_all b) × (contents (retrieve_all b) ≡ [])
unfolding retrieve_all
retrieve_all_lem {b} v = (ground (arith, v.bounded), refl)
