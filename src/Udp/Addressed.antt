-- ===== src/Udp/Addressed.antt =====
-- The members of src/uvw/udp.ipp, tcp.ipp and dns.ipp that take an address, each with its overloads by
-- text and port and by `socket_address`. A buffer is named by its address.
use uvw.Prelude.{ℕ, Bool, true, false, Option, none, some, List}
use uvw.Event.{SocketAddress}
use uvw.Util.Address.{Inet, ip_addr}

-- The calls of libuv, with the address that each gets; `uv_udp_connect` gets a null one to disconnect,
-- and `uv_getnameinfo` a null callback to answer at once.
pub data SocketCall : Type 0 where
  uv_udp_connect : Option (List ℕ) → SocketCall
  uv_udp_bind uv_tcp_bind : (addr : List ℕ) → (opts : ℕ) → SocketCall
  uv_udp_send uv_udp_try_send : (buf len : ℕ) → (addr : List ℕ) → SocketCall
  uv_tcp_connect : (addr : List ℕ) → SocketCall
  uv_getnameinfo : (addr : List ℕ) → (flags : ℕ) → (calls_back : Bool) → SocketCall

unfoldable pub udp_connect : List ℕ → SocketCall
udp_connect addr = uv_udp_connect (some addr)

unfoldable pub udp_disconnect : SocketCall
udp_disconnect = uv_udp_connect none

unfoldable pub udp_bind : (opts : ℕ) → List ℕ → SocketCall
udp_bind opts addr = uv_udp_bind addr opts

unfoldable pub udp_send : (data_ len : ℕ) → List ℕ → SocketCall
udp_send data_ len addr = uv_udp_send data_ len addr

unfoldable pub udp_send_lent : (data_ len : ℕ) → List ℕ → SocketCall
udp_send_lent data_ len addr = uv_udp_send data_ len addr

unfoldable pub udp_try_send : (data_ len : ℕ) → List ℕ → SocketCall
udp_try_send data_ len addr = uv_udp_try_send data_ len addr

unfoldable pub udp_try_send_lent : (data_ len : ℕ) → List ℕ → SocketCall
udp_try_send_lent data_ len addr = uv_udp_try_send data_ len addr

unfoldable pub tcp_bind : (opts : ℕ) → List ℕ → SocketCall
tcp_bind opts addr = uv_tcp_bind addr opts

unfoldable pub tcp_connect : List ℕ → SocketCall
tcp_connect addr = uv_tcp_connect addr

unfoldable pub name_info : (flags : ℕ) → List ℕ → SocketCall
name_info flags addr = uv_getnameinfo addr flags true

unfoldable pub name_info_sync : (flags : ℕ) → List ℕ → SocketCall
name_info_sync flags addr = uv_getnameinfo addr flags false

module _ (inet : Inet) where
  unfoldable pub udp_connect_ip : (ip : List ℕ) → (port : ℕ) → SocketCall
  unfolding udp_connect
  udp_connect_ip ip port = udp_connect (ip_addr inet ip port)

  unfoldable pub udp_connect_address : SocketAddress → SocketCall
  unfolding udp_connect_ip
  udp_connect_address addr = udp_connect_ip addr.ip addr.port

  unfoldable pub udp_bind_ip : (opts : ℕ) → (ip : List ℕ) → (port : ℕ) → SocketCall
  unfolding udp_bind
  udp_bind_ip opts ip port = udp_bind opts (ip_addr inet ip port)

  unfoldable pub udp_bind_address : (opts : ℕ) → SocketAddress → SocketCall
  unfolding udp_bind_ip
  udp_bind_address opts addr = udp_bind_ip opts addr.ip addr.port

  unfoldable pub udp_send_ip : (data_ len : ℕ) → (ip : List ℕ) → (port : ℕ) → SocketCall
  unfolding udp_send
  udp_send_ip data_ len ip port = udp_send data_ len (ip_addr inet ip port)

  unfoldable pub udp_send_address : (data_ len : ℕ) → SocketAddress → SocketCall
  unfolding udp_send_ip
  udp_send_address data_ len addr = udp_send_ip data_ len addr.ip addr.port

  unfoldable pub udp_send_lent_ip : (data_ len : ℕ) → (ip : List ℕ) → (port : ℕ) → SocketCall
  unfolding udp_send_lent
  udp_send_lent_ip data_ len ip port = udp_send_lent data_ len (ip_addr inet ip port)

  unfoldable pub udp_send_lent_address : (data_ len : ℕ) → SocketAddress → SocketCall
  unfolding udp_send_lent_ip
  udp_send_lent_address data_ len addr = udp_send_lent_ip data_ len addr.ip addr.port

  unfoldable pub udp_try_send_ip : (data_ len : ℕ) → (ip : List ℕ) → (port : ℕ) → SocketCall
  unfolding udp_try_send
  udp_try_send_ip data_ len ip port = udp_try_send data_ len (ip_addr inet ip port)

  unfoldable pub udp_try_send_address : (data_ len : ℕ) → SocketAddress → SocketCall
  unfolding udp_try_send_ip
  udp_try_send_address data_ len addr = udp_try_send_ip data_ len addr.ip addr.port

  unfoldable pub udp_try_send_lent_ip : (data_ len : ℕ) → (ip : List ℕ) → (port : ℕ) → SocketCall
  unfolding udp_try_send_lent
  udp_try_send_lent_ip data_ len ip port = udp_try_send_lent data_ len (ip_addr inet ip port)

  unfoldable pub udp_try_send_lent_address : (data_ len : ℕ) → SocketAddress → SocketCall
  unfolding udp_try_send_lent_ip
  udp_try_send_lent_address data_ len addr = udp_try_send_lent_ip data_ len addr.ip addr.port

  unfoldable pub tcp_bind_ip : (opts : ℕ) → (ip : List ℕ) → (port : ℕ) → SocketCall
  unfolding tcp_bind
  tcp_bind_ip opts ip port = tcp_bind opts (ip_addr inet ip port)

  unfoldable pub tcp_bind_address : (opts : ℕ) → SocketAddress → SocketCall
  unfolding tcp_bind_ip
  tcp_bind_address opts addr = tcp_bind_ip opts addr.ip addr.port

  unfoldable pub tcp_connect_ip : (ip : List ℕ) → (port : ℕ) → SocketCall
  unfolding tcp_connect
  tcp_connect_ip ip port = tcp_connect (ip_addr inet ip port)

  unfoldable pub tcp_connect_address : SocketAddress → SocketCall
  unfolding tcp_connect_ip
  tcp_connect_address addr = tcp_connect_ip addr.ip addr.port

  unfoldable pub name_info_ip : (flags : ℕ) → (ip : List ℕ) → (port : ℕ) → SocketCall
  unfolding name_info
  name_info_ip flags ip port = name_info flags (ip_addr inet ip port)

  unfoldable pub name_info_address : (flags : ℕ) → SocketAddress → SocketCall
  unfolding name_info_ip
  name_info_address flags addr = name_info_ip flags addr.ip addr.port

  unfoldable pub name_info_sync_ip : (flags : ℕ) → (ip : List ℕ) → (port : ℕ) → SocketCall
  unfolding name_info_sync
  name_info_sync_ip flags ip port = name_info_sync flags (ip_addr inet ip port)

  unfoldable pub name_info_sync_address : (flags : ℕ) → SocketAddress → SocketCall
  unfolding name_info_sync_ip
  name_info_sync_address flags addr = name_info_sync_ip flags addr.ip addr.port
