-- ===== src/InetAddress/Text.antt =====
-- InetAddress: the text of an address, and what a server makes of it.
use mynuduo.Base.{
  Returns, ℕ, ◌+◌, ◌≤◌, ◌<◌, ◌≡◌, ap, ap₂, arith, some, List, ◌∷◌, ◌++◌, length, length-append,
}
use mynuduo.ThreadPool.{get_next_loop}
use mynuduo.TcpServer.{Printf, TcpServer, new_connection}
use mynuduo.TcpServer.Names.{IsNumbered, Added, new_connection-Added}
use mynuduo.InetAddress.{Net, InetAddress, new, to_ip, to_port, to_ip_port}

module _ (n : Net) where
  to_ip_port-short : (a : InetAddress) → length (to_ip_port n a) ≤ 21
  unfolding to_ip_port
  to_ip_port-short a = omega (
    arith,
    length-append (n.inet_ntop a.addr) (58 ∷ n.digits (n.ntohs a.port)),
    n.ntop_short a.addr,
    n.digits_short (n.ntohs a.port) (n.ntohs_small a.port),
  )

  -- An address made of a port of 16 bits and of a text that `inet_ntop` prints again: `toPort` and
  -- `toIp` give these back, and `toIpPort` gives both with a colon between them, in less than its 64
  -- bytes with the zero at the end.
  pub new-to_ip_port :
      (port : ℕ) (ip : List ℕ)
      → port < 65536
      → n.inet_ntop (n.inet_addr ip) ≡ ip
      → let a = new n port ip in
        (to_port n a ≡ port)
        × (to_ip n a ≡ ip)
        × (to_ip_port n a ≡ ip ++ 58 ∷ n.digits port)
        × (length (to_ip_port n a) + 1 ≤ 64)
  unfolding new to_port to_ip to_ip_port
  new-to_ip_port port ip small same =
      let back = n.ntohs-htons port small in
      (
        back,
        same,
        ap₂ (λ t p. t ++ 58 ∷ n.digits p) same back,
        omega (arith, to_ip_port-short (new n port ip)),
      )

  -- `newConnection` of a server that listens at any address, where the pool gives a loop and the
  -- count of connections is an `int`: as where its text is known to be short.
  pub new_connection-address :
      (L : Type 0) (f : Printf) (self fd : ℕ) (io_loop : L) (a : InetAddress) (s : TcpServer L)
      → s.ip_port ≡ to_ip_port n a
      → (get_next_loop L s.pool).0 ≡ some io_loop
      → s.next_conn_id < 2147483648
      → IsNumbered L f s
      → Returns (Added L f self fd io_loop s) (new_connection L f self fd s)
  new_connection-address L f self fd io_loop a s at given room v =
      new_connection-Added L f self fd io_loop s given
        (omega (arith, ap length at, to_ip_port-short a)) room v
