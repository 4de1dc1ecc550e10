-- ===== src/Util/Address.antt =====
-- Socket addresses: `ip_addr` and `sock_addr` of src/uvw/util.ipp.
-- A structure of the system's headers is its bytes. Their layout, and what libuv makes of them, is a
-- parameter.
use uvw.Prelude.{
  ℕ, ◌<◌, ◌%◌, ◌^◌, ◌≡◌, refl, List, [], ◌∷◌, ◌++◌, ℤ, pos, negsuc, ◌≢◌, ap, ◌∙◌, ==_iff, All,
  take-length, is_zero, ◌==◌, signed32, if◌then◌else◌, length, take, take-append, replicate, arith,
}
use uvw.Event.{SocketAddress}
use uvw.Util.Text.{c_string, c_string-text}

-- `size` is `sizeof(sockaddr)`. `family` reads `sa_family`; `port4` and `port6` are `ntohs` of the
-- port; the functions of libuv give their return value and what they write.
pub record Inet : Type 0 where
  pub size : ℕ
  pub af_inet : ℕ
  pub af_inet6 : ℕ
  pub family : List ℕ → ℕ
  pub port4 : List ℕ → ℕ
  pub port6 : List ℕ → ℕ
  pub uv_ip4_addr : List ℕ → ℤ → ℤ × List ℕ
  pub uv_ip6_addr : List ℕ → ℤ → ℤ × List ℕ
  pub uv_ip4_name : List ℕ → ℤ × List ℕ
  pub uv_ip6_name : List ℕ → ℤ × List ℕ

module _ (inet : Inet) where
  open inet use {
    size, af_inet, af_inet6, family, port4, port6, uv_ip4_addr, uv_ip6_addr, uv_ip4_name,
    uv_ip6_name,
  }

  abbrev no_address : SocketAddress
  no_address = record { ip = []; port = 0 }

  -- `return reinterpret_cast<const sockaddr &>(...)`, by value: the bytes of a `sockaddr`.
  unfoldable pub as_sockaddr : List ℕ → List ℕ
  as_sockaddr bytes = take size bytes

  unfoldable pub ip_addr : List ℕ → ℕ → List ℕ
  unfolding as_sockaddr
  ip_addr addr port =
      let signed_port = signed32 (port % 2 ^ 32) in
      let (rc4, addr_in) = uv_ip4_addr addr signed_port in
      let (rc6, addr_in6) = uv_ip6_addr addr signed_port in
      if is_zero rc4
      then as_sockaddr addr_in
      else (if is_zero rc6 then as_sockaddr addr_in6 else replicate size 0)

  -- `sock_addr(const sockaddr_in &)` and `sock_addr(const sockaddr_in6 &)`.
  unfoldable pub sock_addr4 : List ℕ → SocketAddress
  sock_addr4 addr =
      let (rc, name) = uv_ip4_name addr in
      if is_zero rc then record { ip = c_string name; port = port4 addr } else no_address

  unfoldable pub sock_addr6 : List ℕ → SocketAddress
  sock_addr6 addr =
      let (rc, name) = uv_ip6_name addr in
      if is_zero rc then record { ip = c_string name; port = port6 addr } else no_address

  -- `sock_addr(const sockaddr &)` and `sock_addr(const sockaddr_storage &)`.
  unfoldable pub sock_addr : List ℕ → SocketAddress
  unfolding sock_addr4 sock_addr6
  sock_addr addr =
      if family addr == af_inet
      then sock_addr4 addr
      else (if family addr == af_inet6 then sock_addr6 addr else no_address)

-- What the system and libuv document of an IPv4 address `ip` at a port: `uv_ip4_addr` reads it into
-- a structure of the size of a `sockaddr`, from which the family, the text and the port come back.
pub record IsIp4 (inet : Inet) (ip : List ℕ) (port : ℕ) (bytes : List ℕ) : Type 0 where
  pub parsed : inet.uv_ip4_addr ip (pos port) ≡ (pos 0, bytes)
  pub sized : length bytes ≡ inet.size
  pub tagged : inet.family bytes ≡ inet.af_inet
  pub printed : (rest : List ℕ) × (inet.uv_ip4_name bytes ≡ (pos 0, ip ++ 0 ∷ rest))
  pub ported : inet.port4 bytes ≡ port

module _ (inet : Inet) where
  as_sockaddr-whole : (bytes : List ℕ) → length bytes ≡ inet.size → as_sockaddr inet bytes ≡ bytes
  unfolding as_sockaddr
  as_sockaddr-whole bytes e = rw (← e) (take-length bytes)

  signed-port : (port : ℕ) → port < 65536 → signed32 (port % 2 ^ 32) ≡ pos port
  signed-port port h = ground arith

  ip_addr4 :
      (ip : List ℕ) (port : ℕ) (bytes : List ℕ)
      → IsIp4 inet ip port bytes
      → port < 65536
      → ip_addr inet ip port ≡ bytes
  unfolding ip_addr
  ip_addr4 ip port bytes w h = rw (signed-port port h, w.parsed) (as_sockaddr-whole bytes w.sized)

  sock_addr_ip4 :
      (ip : List ℕ) (port : ℕ) (bytes : List ℕ)
      → IsIp4 inet ip port bytes
      → All (λ c. c ≢ 0) ip
      → sock_addr inet bytes ≡ record { ip = ip; port = port }
  unfolding sock_addr
  sock_addr_ip4 ip port bytes w text = rw (
    w.tagged,
    (==_iff inet.af_inet inet.af_inet).1 refl,
    w.printed.1,
    c_string-text ip w.printed.0 text,
    w.ported,
  )

  -- An IPv4 address and its port survive `ip_addr` and `sock_addr`.
  pub sock_addr-ip_addr :
      (ip : List ℕ) (port : ℕ) (bytes : List ℕ)
      → IsIp4 inet ip port bytes
      → port < 65536
      → All (λ c. c ≢ 0) ip
      → sock_addr inet (ip_addr inet ip port) ≡ record { ip = ip; port = port }
  sock_addr-ip_addr ip port bytes w h text =
      ap (sock_addr inet) (ip_addr4 ip port bytes w h) ∙ sock_addr_ip4 ip port bytes w text

  -- The result of `ip_addr` is a `sockaddr`, so of an IPv6 address, which needs more bytes, only the
  -- first are in it, the same of two addresses that agree in these.
  pub ip_addr_truncates :
      (a b : List ℕ) (port : ℕ) (n m : ℕ) (x y : List ℕ)
      → inet.uv_ip4_addr a (signed32 (port % 2 ^ 32)) ≡ (negsuc n, x)
      → inet.uv_ip4_addr b (signed32 (port % 2 ^ 32)) ≡ (negsuc m, y)
      → (u v w : List ℕ) → length u ≡ inet.size
      → inet.uv_ip6_addr a (signed32 (port % 2 ^ 32)) ≡ (pos 0, u ++ v)
      → inet.uv_ip6_addr b (signed32 (port % 2 ^ 32)) ≡ (pos 0, u ++ w)
      → (ip_addr inet a port ≡ u) × (ip_addr inet b port ≡ u)
  unfolding ip_addr as_sockaddr
  ip_addr_truncates a b port n m x y ea eb u v w l e6 f6 =
      (rw (ea, e6, ← l) (take-append u v), rw (eb, f6, ← l) (take-append u w))
