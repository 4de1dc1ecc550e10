-- ===== src/Udp/Packets.antt =====
-- Which events the packets of a udp handle become, and which addresses come back.
use uvw.Prelude.{
  ℕ, ◌<◌, ◌≤◌, ◌≡◌, ◌≢◌, false, not, Option, none, some, List, [], ◌∷◌, ℤ, pos, negsuc, pos_part,
  leb, ◌==◌, if◌then◌else◌, arith, All,
}
use Prim.Native.Nat.{bit_and}
use uvw.Emitter.{to_error_event}
use uvw.Event.{error_event, udp_data_event}
use uvw.Util.Address.{Inet, IsIp4, sock_addr, sock_addr-ip_addr}
use uvw.Udp.{recv_callback, ttl_value, bind_ip, bind_address, sock}

-- A packet from the address `a`, be it empty, becomes one data event of its length, marked as partial
-- only where it has bytes; the end of what there is to read is no event; an error becomes the error
-- event with its code, also without an address.
pub recv_callback-event :
    (inet : Inet) (uv_udp_partial n flags : ℕ) (buf a : List ℕ) (addr : Option (List ℕ))
    → (recv_callback inet uv_udp_partial (pos n) buf (some a) flags
        ≡ some (
            udp_data_event
              (sock_addr inet a)
              buf
              n
              (if n == 0 then false else not (bit_and flags uv_udp_partial == 0))
            ∷ []))
      × (recv_callback inet uv_udp_partial (pos 0) buf none flags ≡ some [])
      × (recv_callback inet uv_udp_partial (negsuc n) buf addr flags
          ≡ some (error_event (to_error_event (negsuc n)) ∷ []))
unfolding recv_callback
recv_callback-event inet uv_udp_partial n flags buf a addr = ground arith

-- libuv never gets more than 255 for a time to live, and up to 255 what the caller gives.
pub ttl_value-le :
    (val : ℤ)
    → (pos_part (ttl_value val) ≤ 255)
      × (ttl_value val ≡ (if leb (pos_part val) 255 then val else pos 255))
unfolding ttl_value
ttl_value-le val = ground arith

-- Where libuv remembers what a handle was bound to, `sock` returns the IPv4 address that `bind` got,
-- by either overload.
pub sock-bind :
    (inet : Inet) (ip : List ℕ) (port : ℕ) (bytes : List ℕ)
    → IsIp4 inet ip port bytes
    → port < 65536
    → All (λ c. c ≢ 0) ip
    → (bind_ip inet (sock inet) ip port ≡ record { ip = ip; port = port })
      × (bind_address inet (sock inet) (record { ip = ip; port = port })
          ≡ record { ip = ip; port = port })
unfolding bind_ip bind_address sock
sock-bind inet ip port bytes w h text =
    let e = sock_addr-ip_addr inet ip port bytes w h text in (e, e)
