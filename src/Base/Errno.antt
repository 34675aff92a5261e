-- ===== src/Base/Errno.antt =====
-- The values of `errno` that the program tells apart. EAGAIN and EWOULDBLOCK are one value.
use Prim.Native.Nat.{ℕ}

pub data Errno : Type 0 where
  eagain epipe econnreset : Errno
  einprogress eintr eisconn : Errno
  eaddrinuse eaddrnotavail econnrefused enetunreach : Errno
  eacces eperm eafnosupport ealready ebadf efault enotsock : Errno
  emfile : Errno
  other : ℕ → Errno
