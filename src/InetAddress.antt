-- ===== src/InetAddress.antt =====
-- InetAddress.h and InetAddress.cc: an IPv4 address with a port. The functions of the C library that
-- it calls are the parameter `Net`, with what their manual pages say of them; texts are lists of
-- characters, without the zero at the end.
pub mod Text
use mynuduo.Base.{ℕ, ◌≤◌, ◌<◌, ◌≡◌, List, ◌∷◌, ◌++◌, length}

-- `htons` and `ntohs` on 16 bits, `inet_addr`, `inet_ntop` for AF_INET, and `%u` of `sprintf`.
pub record Net : Type 0 where
  pub htons : ℕ → ℕ
  pub ntohs : ℕ → ℕ
  pub inet_addr : List ℕ → ℕ
  pub inet_ntop : ℕ → List ℕ
  pub digits : ℕ → List ℕ
  pub ntohs-htons : (p : ℕ) → p < 65536 → ntohs (htons p) ≡ p
  pub ntohs_small : (n : ℕ) → ntohs n < 65536
  -- INET_ADDRSTRLEN is 16, with the zero.
  pub ntop_short : (a : ℕ) → length (inet_ntop a) ≤ 15
  pub digits_short : (p : ℕ) → p < 65536 → length (digits p) ≤ 5

-- `addr_`
pub record InetAddress : Type 0 where
  pub family : ℕ
  pub port : ℕ
  pub addr : ℕ

module _ (n : Net) where
  -- AF_INET is 2.
  pub new : ℕ → List ℕ → InetAddress
  new port ip = record { family = 2; port = n.htons port; addr = n.inet_addr ip }

  pub to_ip : InetAddress → List ℕ
  to_ip a = n.inet_ntop a.addr

  pub to_port : InetAddress → ℕ
  to_port a = n.ntohs a.port

  -- 58 is the colon.
  pub to_ip_port : InetAddress → List ℕ
  to_ip_port a = n.inet_ntop a.addr ++ 58 ∷ n.digits (n.ntohs a.port)
