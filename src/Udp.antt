-- ===== src/Udp.antt =====
-- src/uvw/udp.ipp and tcp.ipp: what a udp handle publishes, how both handles are initialised, and
-- the values that go to libuv. Addresses are those of Util/Address.
pub mod Packets
pub mod Addressed
pub mod Overloads
pub mod Traffic
use uvw.Prelude.{
  ℕ, Bool, true, false, not, Option, none, some, List, [], ◌∷◌, ℤ, pos, is_zero, is_pos, pos_part,
  ltb, ◌==◌, eqb_ℤ, if◌then◌else◌,
}
use Prim.Native.Nat.{bit_and}
use uvw.Emitter.{to_error_event}
use uvw.Event.{Event, error_event, udp_data_event, SocketAddress}
use uvw.Util.Address.{Inet, sock_addr, ip_addr}

-- `udp_handle::recv_callback`. The outer `none` is a read through a null address.
unfoldable pub recv_callback :
    (inet : Inet)
    → (uv_udp_partial : ℕ) → (nread : ℤ) → (buf : List ℕ) → (addr : Option (List ℕ)) → (flags : ℕ)
    → Option (List Event)
unfolding to_error_event
recv_callback inet uv_udp_partial nread buf addr flags =
    if is_pos nread
    then elim addr [
      | none ↦ none
      | some a ↦ some (
          udp_data_event (sock_addr inet a) buf (pos_part nread)
            (not (bit_and flags uv_udp_partial == 0))
          ∷ [])
    ]
    else (if is_zero nread
        then elim addr [
          | none ↦ some []
          | some a ↦ some (udp_data_event (sock_addr inet a) buf (pos_part nread) false ∷ [])
        ]
        else some (error_event (to_error_event nread) ∷ []))

-- `tag` and `init` of both handles: the call of libuv that `leak_if` gets the result of.
pub data SocketInit : Type 0 where
  uv_udp_init_ex : (flags : ℕ) → SocketInit
  uv_tcp_init_ex : (flags : ℕ) → SocketInit
  uv_tcp_init : SocketInit

-- `udp_handle`'s only constructor sets `tag` to `FLAGS`.
unfoldable pub udp_init : (flags : ℕ) → SocketInit
udp_init flags = uv_udp_init_ex flags

unfoldable pub tcp_init : (flags : ℕ) → SocketInit
tcp_init flags = if flags == 0 then uv_tcp_init else uv_tcp_init_ex flags

-- `ttl` and `multicast_ttl`: the value that libuv gets, and the result by what it returns.
unfoldable pub ttl_value : (val : ℤ) → ℤ
ttl_value val = if ltb 255 (pos_part val) then pos 255 else val

unfoldable pub ttl : (uv_udp_set_ttl : ℤ → ℤ) → (val : ℤ) → Bool
unfolding ttl_value
ttl uv_udp_set_ttl val = is_zero (uv_udp_set_ttl (ttl_value val))

unfoldable pub multicast_ttl : (uv_udp_set_multicast_ttl : ℤ → ℤ) → (val : ℤ) → Bool
unfolding ttl_value
multicast_ttl uv_udp_set_multicast_ttl val = is_zero (uv_udp_set_multicast_ttl (ttl_value val))

module _ (inet : Inet) where
  -- The overloads of `bind` and `connect` by text and port, and by `socket_address`, in both
  -- handles.
  unfoldable pub bind_ip {κ} : {R : Type κ} → (bind : List ℕ → R) → List ℕ → ℕ → R
  bind_ip bind ip port = bind (ip_addr inet ip port)

  unfoldable pub bind_address {κ} : {R : Type κ} → (bind : List ℕ → R) → SocketAddress → R
  unfolding bind_ip
  bind_address bind addr = bind_ip bind addr.ip addr.port

  -- `sock` and `peer`, with the storage that libuv fills.
  unfoldable pub sock : (storage : List ℕ) → SocketAddress
  sock storage = sock_addr inet storage
