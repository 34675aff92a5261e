-- ===== src/Connector/SelfConnect.antt =====
-- Connector.cc: `isSelfConnect`, which tells a socket that has met itself. A `sockaddr_in6` is read as
-- the fields that the code compares: `low` is the word where `sin_addr` stands.
use mynuduo.Base.{
  ℕ, ◌≡◌, Bool, true, false, ◌&&◌, ◌↔◌, Option, none, some, List, ◌==◌, if◌then◌else◌, arith,
  if_rule, subst,
}
use mynuduo.TcpServer.{same_name}
use mynuduo.TcpServer.Map.{same_name_lem, same_name_refl}

pub record SockAddr : Type 0 where
  pub family : ℕ
  pub port : ℕ
  pub low : ℕ
  pub addr6 : List ℕ

abbrev pub af_inet : ℕ
af_inet = 2

abbrev pub af_inet6 : ℕ
af_inet6 = 10

-- `getLocalAddr` and `getPeerAddr`: where the kernel gives none, the memory set to 0; `zeros` are the
-- 16 bytes of `sin6_addr` then.
pub address_of : List ℕ → Option SockAddr → SockAddr
address_of zeros none = record { family = 0; port = 0; low = 0; addr6 = zeros }
address_of zeros (some a) = a

-- The peer's address is read in the family of the local one.
pub is_self_connect : SockAddr → SockAddr → Bool
is_self_connect l r =
    if l.family == af_inet
    then l.port == r.port && l.low == r.low
    else if l.family == af_inet6
    then l.port == r.port && same_name l.addr6 r.addr6
    else false

-- The two ends of the socket are one, by the family of the local one.
pub data Meets (l r : SockAddr) : Type 0 where
  over_inet : l.family ≡ af_inet → l.port ≡ r.port → l.low ≡ r.low → Meets l r
  over_inet6 : l.family ≡ af_inet6 → l.port ≡ r.port → l.addr6 ≡ r.addr6 → Meets l r

meets : (l r : SockAddr) → is_self_connect l r ≡ true → Meets l r
unfolding is_self_connect
meets l r =
    if_rule (λ b. b ≡ true → Meets l r) (l.family == af_inet)
      (λ i h. over_inet (ground arith) (ground arith) (ground arith))
      λ _.
        if_rule (λ b. b ≡ true → Meets l r) (l.family == af_inet6)
          (λ i h.
            over_inet6 (ground (arith, i)) (ground (arith, h))
              (same_name_lem l.addr6 r.addr6 (ground (arith, h))))
          λ _ h. absurd cc

met : (l r : SockAddr) → Meets l r → is_self_connect l r ≡ true
unfolding is_self_connect
met l r (over_inet f p a) = ground (arith, f, p, a)
met l r (over_inet6 f p a) =
    let n = subst (λ x. same_name l.addr6 x ≡ true) a (same_name_refl l.addr6) in
    ground (arith, f, p, n)

-- `isSelfConnect` says yes exactly where the two addresses have one port and one address, compared as
-- IPv4 or IPv6 by the family of the local one; for every other family it says no.
pub is_self_connect_lem : (l r : SockAddr) → (is_self_connect l r ≡ true) ↔ Meets l r
is_self_connect_lem l r = (meets l r, met l r)
