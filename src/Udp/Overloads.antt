-- ===== src/Udp/Overloads.antt =====
-- What the overloads of each member that takes an address give libuv.
use uvw.Prelude.{
  ℕ, ◌%◌, ◌^◌, ◌≡◌, refl, sym, ◌∙◌, ap, Option, some, List, ◌++◌, pos, negsuc, signed32, length,
}
use uvw.Event.{SocketAddress}
use uvw.Util.Address.{Inet, ip_addr, sock_addr, ip_addr_truncates}
use uvw.Udp.Addressed.{
  SocketCall, uv_udp_connect, uv_udp_bind, uv_tcp_bind, uv_udp_send, uv_udp_try_send,
  uv_tcp_connect, uv_getnameinfo, udp_connect, udp_connect_ip, udp_connect_address, tcp_connect,
  tcp_connect_ip, tcp_connect_address, udp_bind, udp_bind_ip, udp_bind_address, tcp_bind,
  tcp_bind_ip, tcp_bind_address, udp_send, udp_send_ip, udp_send_address, udp_send_lent,
  udp_send_lent_ip, udp_send_lent_address, udp_try_send, udp_try_send_ip, udp_try_send_address,
  udp_try_send_lent, udp_try_send_lent_ip, udp_try_send_lent_address, name_info, name_info_ip,
  name_info_address, name_info_sync, name_info_sync_ip, name_info_sync_address,
}

-- A member, with its other arguments; some take data to own, or data that is lent.
pub data AddressedMethod : Type 0 where
  udp_connects tcp_connects : AddressedMethod
  udp_binds tcp_binds : (opts : ℕ) → AddressedMethod
  udp_sends udp_sends_lent udp_tries udp_tries_lent : (data_ len : ℕ) → AddressedMethod
  name_infos name_infos_sync : (flags : ℕ) → AddressedMethod

-- How the caller gives the address.
pub data Target : Type 0 where
  by_sockaddr : List ℕ → Target
  by_ip : (ip : List ℕ) → (port : ℕ) → Target
  by_address : SocketAddress → Target

-- The address in a call.
unfoldable pub address_in : SocketCall → Option (List ℕ)
address_in (uv_udp_connect a) = a
address_in (uv_udp_bind a opts) = some a
address_in (uv_tcp_bind a opts) = some a
address_in (uv_udp_send b len a) = some a
address_in (uv_udp_try_send b len a) = some a
address_in (uv_tcp_connect a) = some a
address_in (uv_getnameinfo a flags calls_back) = some a

module _ (inet : Inet) where
  unfoldable pub call_at : AddressedMethod → Target → SocketCall
  unfolding udp_connect udp_connect_ip udp_connect_address tcp_connect tcp_connect_ip
      tcp_connect_address udp_bind udp_bind_ip udp_bind_address tcp_bind tcp_bind_ip
      tcp_bind_address udp_send udp_send_ip udp_send_address udp_send_lent udp_send_lent_ip
      udp_send_lent_address udp_try_send udp_try_send_ip udp_try_send_address udp_try_send_lent
      udp_try_send_lent_ip udp_try_send_lent_address name_info name_info_ip name_info_address
      name_info_sync name_info_sync_ip name_info_sync_address
  call_at udp_connects (by_sockaddr a) = udp_connect a
  call_at udp_connects (by_ip ip port) = udp_connect_ip inet ip port
  call_at udp_connects (by_address a) = udp_connect_address inet a
  call_at tcp_connects (by_sockaddr a) = tcp_connect a
  call_at tcp_connects (by_ip ip port) = tcp_connect_ip inet ip port
  call_at tcp_connects (by_address a) = tcp_connect_address inet a
  call_at (udp_binds opts) (by_sockaddr a) = udp_bind opts a
  call_at (udp_binds opts) (by_ip ip port) = udp_bind_ip inet opts ip port
  call_at (udp_binds opts) (by_address a) = udp_bind_address inet opts a
  call_at (tcp_binds opts) (by_sockaddr a) = tcp_bind opts a
  call_at (tcp_binds opts) (by_ip ip port) = tcp_bind_ip inet opts ip port
  call_at (tcp_binds opts) (by_address a) = tcp_bind_address inet opts a
  call_at (udp_sends d len) (by_sockaddr a) = udp_send d len a
  call_at (udp_sends d len) (by_ip ip port) = udp_send_ip inet d len ip port
  call_at (udp_sends d len) (by_address a) = udp_send_address inet d len a
  call_at (udp_sends_lent d len) (by_sockaddr a) = udp_send_lent d len a
  call_at (udp_sends_lent d len) (by_ip ip port) = udp_send_lent_ip inet d len ip port
  call_at (udp_sends_lent d len) (by_address a) = udp_send_lent_address inet d len a
  call_at (udp_tries d len) (by_sockaddr a) = udp_try_send d len a
  call_at (udp_tries d len) (by_ip ip port) = udp_try_send_ip inet d len ip port
  call_at (udp_tries d len) (by_address a) = udp_try_send_address inet d len a
  call_at (udp_tries_lent d len) (by_sockaddr a) = udp_try_send_lent d len a
  call_at (udp_tries_lent d len) (by_ip ip port) = udp_try_send_lent_ip inet d len ip port
  call_at (udp_tries_lent d len) (by_address a) = udp_try_send_lent_address inet d len a
  call_at (name_infos flags) (by_sockaddr a) = name_info flags a
  call_at (name_infos flags) (by_ip ip port) = name_info_ip inet flags ip port
  call_at (name_infos flags) (by_address a) = name_info_address inet flags a
  call_at (name_infos_sync flags) (by_sockaddr a) = name_info_sync flags a
  call_at (name_infos_sync flags) (by_ip ip port) = name_info_sync_ip inet flags ip port
  call_at (name_infos_sync flags) (by_address a) = name_info_sync_address inet flags a

  -- Each overload gives libuv the address that it is for.
  call_at-address :
      (m : AddressedMethod) (a : List ℕ) (ip : List ℕ) (port : ℕ)
      → (address_in (call_at m (by_sockaddr a)) ≡ some a)
        × (call_at m (by_ip ip port) ≡ call_at m (by_sockaddr (ip_addr inet ip port)))
        × (call_at m (by_address (record { ip = ip; port = port })) ≡ call_at m (by_ip ip port))
  unfolding address_in call_at udp_connect udp_connect_ip udp_connect_address tcp_connect
      tcp_connect_ip tcp_connect_address udp_bind udp_bind_ip udp_bind_address tcp_bind tcp_bind_ip
      tcp_bind_address udp_send udp_send_ip udp_send_address udp_send_lent udp_send_lent_ip
      udp_send_lent_address udp_try_send udp_try_send_ip udp_try_send_address udp_try_send_lent
      udp_try_send_lent_ip udp_try_send_lent_address name_info name_info_ip name_info_address
      name_info_sync name_info_sync_ip name_info_sync_address
  call_at-address udp_connects a ip port = (refl, refl, refl)
  call_at-address tcp_connects a ip port = (refl, refl, refl)
  call_at-address (udp_binds opts) a ip port = (refl, refl, refl)
  call_at-address (tcp_binds opts) a ip port = (refl, refl, refl)
  call_at-address (udp_sends d len) a ip port = (refl, refl, refl)
  call_at-address (udp_sends_lent d len) a ip port = (refl, refl, refl)
  call_at-address (udp_tries d len) a ip port = (refl, refl, refl)
  call_at-address (udp_tries_lent d len) a ip port = (refl, refl, refl)
  call_at-address (name_infos flags) a ip port = (refl, refl, refl)
  call_at-address (name_infos_sync flags) a ip port = (refl, refl, refl)

  -- `peer` of both handles, with the storage that libuv fills.
  unfoldable pub peer : (storage : List ℕ) → SocketAddress
  peer storage = sock_addr inet storage

  -- Where `uv_ip4_addr` refuses two texts, and `uv_ip6_addr` makes addresses of them that agree in as
  -- many bytes as a `sockaddr` has: every member that takes an address, connect, bind, send, try_send
  -- and name_info, gives libuv these bytes only and makes the same call for both texts, by text and
  -- port as by `socket_address`, whatever the bytes behind.
  pub ip6_truncated :
      (m : AddressedMethod) (a b : List ℕ) (port : ℕ) (n k : ℕ) (x y : List ℕ) (u v w : List ℕ)
      → inet.uv_ip4_addr a (signed32 (port % 2 ^ 32)) ≡ (negsuc n, x)
      → inet.uv_ip4_addr b (signed32 (port % 2 ^ 32)) ≡ (negsuc k, y)
      → length u ≡ inet.size
      → inet.uv_ip6_addr a (signed32 (port % 2 ^ 32)) ≡ (pos 0, u ++ v)
      → inet.uv_ip6_addr b (signed32 (port % 2 ^ 32)) ≡ (pos 0, u ++ w)
      → (address_in (call_at m (by_ip a port)) ≡ some u)
        × (call_at m (by_ip a port) ≡ call_at m (by_ip b port))
        × (call_at m (by_address (record { ip = a; port = port }))
            ≡ call_at m (by_address (record { ip = b; port = port })))
  ip6_truncated m a b port n k x y u v w ea eb l e6 f6 =
      let (cut_a, cut_b) = ip_addr_truncates inet a b port n k x y ea eb u v w l e6 f6 in
      let (given, raw_a, same_a) = call_at-address m (ip_addr inet a port) a port in
      let (_, raw_b, same_b) = call_at-address m (ip_addr inet b port) b port in
      let same_call = raw_a ∙ ap (λ c. call_at m (by_sockaddr c)) (cut_a ∙ sym cut_b) ∙ sym raw_b in
      (ap address_in raw_a ∙ given ∙ ap some cut_a, same_call, same_a ∙ same_call ∙ sym same_b)
