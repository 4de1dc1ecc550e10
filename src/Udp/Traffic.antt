-- ===== src/Udp/Traffic.antt =====
-- What the listeners of a udp handle get, over all that libuv receives.
use uvw.Prelude.{
  ℕ, ◌+◌, ◌≡◌, refl, ap, false, Option, none, some, List, [], ◌∷◌, ◌++◌, ℤ, pos, negsuc, to_int,
  take, length, ◌>>=◌, arith, ◌==◌, if◌then◌else◌, not, Bool,
}
use Prim.Native.Nat.{bit_and}
use uvw.Emitter.{to_error_event}
use uvw.Event.{Event, SocketAddress, error_event, udp_data_event}
use uvw.Stream.Reads.{codes_in}
use uvw.Util.Address.{Inet, sock_addr}
use uvw.Udp.{recv_callback}
use uvw.Udp.Packets.{recv_callback-event}

-- What libuv may report: a packet of `n` bytes from `addr`, that there is nothing more to read, or an
-- error, with or without an address.
pub data Receipt : Type 0 where
  packet : (n : ℕ) → (buf addr : List ℕ) → (flags : ℕ) → Receipt
  no_more : (buf : List ℕ) → (flags : ℕ) → Receipt
  failed : (n : ℕ) → (buf : List ℕ) → (addr : Option (List ℕ)) → (flags : ℕ) → Receipt

-- The packets in a list of events, and in what libuv reports.
unfoldable pub packets_in : List Event → List (SocketAddress × List ℕ × Bool)
packets_in [] = []
packets_in (udp_data_event a d n p ∷ es) = (a, take n d, p) ∷ packets_in es
packets_in (_ ∷ es) = packets_in es

unfoldable pub failures : List Receipt → List ℤ
failures [] = []
failures (packet n buf a flags ∷ rs) = failures rs
failures (no_more buf flags ∷ rs) = failures rs
failures (failed n buf addr flags ∷ rs) = to_int (negsuc n) ∷ failures rs

module _ (inet : Inet) (uv_udp_partial : ℕ) where
  unfoldable pub receive_one : Receipt → Option (List Event)
  receive_one (packet n buf a flags) = recv_callback inet uv_udp_partial (pos n) buf (some a) flags
  receive_one (no_more buf flags) = recv_callback inet uv_udp_partial (pos 0) buf none flags
  receive_one (failed n buf addr flags) =
      recv_callback inet uv_udp_partial (negsuc n) buf addr flags

  unfoldable pub receive_all : List Receipt → Option (List Event)
  unfolding receive_one
  receive_all [] = some []
  receive_all (r ∷ rs) = do es ← receive_one r; fs ← receive_all rs; some (es ++ fs)

  -- A packet with bytes that libuv marks as partial.
  abbrev pub is_partial : (n flags : ℕ) → Bool
  is_partial n flags = if n == 0 then false else not (bit_and flags uv_udp_partial == 0)

  unfoldable pub packets : List Receipt → List (SocketAddress × List ℕ × Bool)
  packets [] = []
  packets (packet n buf a flags ∷ rs) =
      (sock_addr inet a, take n buf, is_partial n flags) ∷ packets rs
  packets (no_more buf flags ∷ rs) = packets rs
  packets (failed n buf addr flags ∷ rs) = packets rs

  -- Over all that libuv receives, no null address is read, and the listeners get every packet, an
  -- empty one too, once and in order, with its sender, its bytes and whether it is partial, the
  -- code of every error in order, and no other event.
  pub traffic_delivered :
      (rs : List Receipt)
      → (es : List Event) × (receive_all rs ≡ some es)
        × (packets_in es ≡ packets rs)
        × (codes_in es ≡ failures rs)
        × (length es ≡ length (packets rs) + length (failures rs))
  unfolding receive_all receive_one packets packets_in failures codes_in to_error_event
  traffic_delivered [] = ([], refl, refl, refl, refl)
  traffic_delivered (packet n buf a flags ∷ rs) =
      let (es, e, p, c, l) = traffic_delivered rs in
      let (one, _, _) = recv_callback-event inet uv_udp_partial n flags buf a none in
      let v =
        udp_data_event (sock_addr inet a) buf n
          (if n == 0 then false else not (bit_and flags uv_udp_partial == 0)) in
      (
        v ∷ es,
        rw (receive_all, receive_one, one, e) refl,
        ap (λ ps. (sock_addr inet a, take n buf, is_partial n flags) ∷ ps) p,
        c,
        omega (arith, l),
      )
  traffic_delivered (no_more buf flags ∷ rs) =
      let (es, e, p, c, l) = traffic_delivered rs in
      let (_, one, _) = recv_callback-event inet uv_udp_partial 0 flags buf [] none in
      (es, rw (receive_all, receive_one, one, e) refl, p, c, l)
  traffic_delivered (failed n buf addr flags ∷ rs) =
      let (es, e, p, c, l) = traffic_delivered rs in
      let (_, _, one) = recv_callback-event inet uv_udp_partial n flags buf [] addr in
      (
        error_event (to_error_event (negsuc n)) ∷ es,
        rw (receive_all, receive_one, one, e) refl,
        p,
        ap (λ k. to_int (negsuc n) ∷ k) c,
        omega (arith, l),
      )
