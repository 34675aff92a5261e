-- ===== src/Buffer.antt =====
-- Buffer.h and Buffer.cc: the byte buffer of a connection. `buffer_` is the list `bytes`, and the
-- two indices are `size_t` numbers with their wrap-around. The system calls `readv` and `write`
-- are not part of the program: what they return is an argument of the call.
pub mod Space
pub mod Append
pub mod Retrieve
pub mod Run
mod Tests
use mynuduo.Base.{
  ℕ, ◌+◌, ◌≤◌, ◌≡◌, List, [], ◌∷◌, Bool, length, take, drop, replicate, write_at, resize, slice,
  ltb, leb, if◌then◌else◌, add_size, sub_size, max_size,
}
use mynuduo.Base.Errno.{Errno}

abbrev pub cheap_prepend : ℕ
cheap_prepend = 8

abbrev pub initial_size : ℕ
initial_size = 1024

-- `sizeof extrabuf`
abbrev pub extra_size : ℕ
extra_size = 65536

pub record Buffer : Type 0 where
  pub bytes : List ℕ
  pub reader : ℕ
  pub writer : ℕ

pub new : ℕ → Buffer
new size = record {
  bytes = replicate (add_size cheap_prepend size) 0;
  reader = cheap_prepend;
  writer = cheap_prepend;
}

pub readable_bytes : Buffer → ℕ
readable_bytes b = sub_size b.writer b.reader

pub writable_bytes : Buffer → ℕ
writable_bytes b = sub_size (length b.bytes) b.writer

pub prependable_bytes : Buffer → ℕ
prependable_bytes b = b.reader

-- The `n` bytes that stand from `peek()` on.
pub peek : Buffer → ℕ → List ℕ
peek b n = take n (drop b.reader b.bytes)

pub retrieve_all : Buffer → Buffer
retrieve_all b = record b { reader = cheap_prepend; writer = cheap_prepend }

pub retrieve : Buffer → ℕ → Buffer
unfolding readable_bytes retrieve_all
retrieve b len =
    if ltb len (readable_bytes b)
    then record b { reader = add_size b.reader len }
    else retrieve_all b

pub reteieve_as_string : Buffer → ℕ → List ℕ × Buffer
unfolding peek retrieve
reteieve_as_string b len = (peek b len, retrieve b len)

pub retrieve_all_as_string : Buffer → List ℕ × Buffer
unfolding reteieve_as_string readable_bytes
retrieve_all_as_string b = reteieve_as_string b (readable_bytes b)

pub make_space : Buffer → ℕ → Buffer
unfolding readable_bytes writable_bytes prependable_bytes
make_space b len =
    if ltb (add_size (writable_bytes b) (prependable_bytes b)) (add_size len cheap_prepend)
    then record b { bytes = resize b.bytes (add_size len b.writer) 0 }
    else record b {
      bytes = write_at b.bytes cheap_prepend (slice b.reader b.writer b.bytes);
      reader = cheap_prepend;
      writer = add_size cheap_prepend (readable_bytes b);
    }

pub ensure_writeable_bytes : Buffer → ℕ → Buffer
unfolding writable_bytes make_space
ensure_writeable_bytes b len = if ltb (writable_bytes b) len then make_space b len else b

-- The copy to `beginWrite()` and the move of `writerIndex_`.
store : Buffer → List ℕ → Buffer
store b d = record b { bytes = write_at b.bytes b.writer d; writer = add_size b.writer (length d) }

pub append : Buffer → List ℕ → Buffer
unfolding ensure_writeable_bytes store
append b d = store (ensure_writeable_bytes b (length d)) d

-- What a system call on a descriptor returns: a count or bytes, or -1 with `errno`.
pub data ReadResult : Type 0 where
  received : List ℕ → ReadResult
  read_failed : Errno → ReadResult

pub data WriteResult : Type 0 where
  wrote : ℕ → WriteResult
  write_failed : Errno → WriteResult

-- How many bytes `readv` is offered room for: two blocks if the buffer is the smaller one.
pub read_limit : Buffer → ℕ
unfolding writable_bytes
read_limit b =
    if ltb (writable_bytes b) extra_size then writable_bytes b + extra_size else writable_bytes b

-- `readv` fills the rest of the buffer first, and `extrabuf` with what is left.
take_in : Buffer → ReadResult → Buffer
unfolding store append writable_bytes
take_in b (read_failed e) = b
take_in b (received d) =
    if leb (length d) (writable_bytes b)
    then store b d
    else append
        (record b {
          bytes = write_at b.bytes b.writer (take (writable_bytes b) d);
          writer = length b.bytes;
        })
        (drop (writable_bytes b) d)

-- `readv` is the system call on the descriptor, which is told how much room there is.
unfoldable pub read_fd : Buffer → (ℕ → ReadResult) → ReadResult × Buffer
unfolding read_limit take_in
read_fd b readv = let result = readv (read_limit b) in (result, take_in b result)

-- `write` is offered the readable bytes, and the buffer stays as it is.
pub write_fd : Buffer → (List ℕ → WriteResult) → WriteResult
unfolding peek readable_bytes
write_fd b sys_write = sys_write (peek b (readable_bytes b))

-- The indices are ordered and inside the vector, whose size its allocator can give.
pub record IsValid (b : Buffer) : Type 0 where
  pub prepend : cheap_prepend ≤ b.reader
  pub ordered : b.reader ≤ b.writer
  pub fits : b.writer ≤ length b.bytes
  pub bounded : length b.bytes ≤ max_size

-- The unread bytes, oldest first.
abbrev pub contents : Buffer → List ℕ
contents b = slice b.reader b.writer b.bytes
