-- ===== src/Stream/Calls.antt =====
-- The members of stream.h, pipe.ipp, tcp.ipp and udp.ipp (src/uvw/) that call libuv for the
-- handle and judge no more than what it returns. Those that make a request are in Lifetime, and those
-- that take an address in Udp/Overloads.
use uvw.Prelude.{ℕ, ◌*◌, Bool, List, ℤ, is_zero, to_nat, length}
use uvw.Util.HandleType.{HandleType, guess_handle}

-- Which callbacks `read` gives libuv: uvw's own allocation, or one with the caller's function.
pub data Alloc : Type 0 where
  common_alloc_callback : Alloc
  common_alloc_callback_with : (alloc : ℕ) → Alloc

pub data StreamCall : Type 0 where
  uv_listen : (backlog : ℤ) → StreamCall
  uv_accept : (client : ℕ) → StreamCall
  uv_read_start : Alloc → StreamCall
  uv_read_stop : StreamCall
  uv_try_write : (buf len : ℕ) → StreamCall
  uv_try_write2 : (buf len : ℕ) → (send : ℕ) → StreamCall
  uv_pipe_open uv_tcp_open uv_udp_open : ℕ → StreamCall
  uv_pipe_bind2 : (name : List ℕ) → (namelen : ℕ) → (flags : ℕ) → StreamCall
  uv_pipe_pending_instances : ℤ → StreamCall
  uv_pipe_chmod : ℕ → StreamCall
  uv_tcp_nodelay uv_tcp_simultaneous_accepts : Bool → StreamCall
  uv_tcp_keepalive : Bool → (delay : ℕ) → StreamCall
  uv_udp_set_membership : (multicast iface : List ℕ) → (ms : ℕ) → StreamCall
  uv_udp_set_multicast_loop uv_udp_set_broadcast : Bool → StreamCall
  uv_udp_set_multicast_interface : List ℕ → StreamCall
  uv_udp_recv_start : Alloc → StreamCall
  uv_udp_recv_stop : StreamCall

-- `stream_handle`.
unfoldable pub listen : (backlog : ℤ) → StreamCall
listen backlog = uv_listen backlog

unfoldable pub accept : (client : ℕ) → StreamCall
accept client = uv_accept client

unfoldable pub read : StreamCall
read = uv_read_start common_alloc_callback

unfoldable pub read_with : (alloc : ℕ) → StreamCall
read_with alloc = uv_read_start (common_alloc_callback_with alloc)

unfoldable pub stop : StreamCall
stop = uv_read_stop

unfoldable pub try_write_call : (data_ len : ℕ) → StreamCall
try_write_call data_ len = uv_try_write data_ len

unfoldable pub try_write_with : (data_ len : ℕ) → (send : ℕ) → StreamCall
try_write_with data_ len send = uv_try_write2 data_ len send

-- `pipe_handle`; `uv_pipe_no_truncate` is `UV_PIPE_NO_TRUNCATE`.
unfoldable pub pipe_open : (file : ℕ) → StreamCall
pipe_open file = uv_pipe_open file

unfoldable pub pipe_bind :
    (uv_pipe_no_truncate : ℕ) → (name : List ℕ) → (no_truncate : Bool) → StreamCall
pipe_bind uv_pipe_no_truncate name no_truncate =
    uv_pipe_bind2 name (length name) (to_nat no_truncate * uv_pipe_no_truncate)

unfoldable pub pending_instances : (count : ℤ) → StreamCall
pending_instances count = uv_pipe_pending_instances count

unfoldable pub receive : (value : HandleType → ℕ) → (uv_pipe_pending_type : ℕ) → HandleType
unfolding guess_handle
receive value uv_pipe_pending_type = guess_handle value uv_pipe_pending_type

unfoldable pub pipe_chmod : (flags : ℕ) → StreamCall
pipe_chmod flags = uv_pipe_chmod flags

-- `tcp_handle` and `udp_handle`: where the result is a `bool`, it is `0 ==` what libuv
-- returns.
unfoldable pub tcp_open : (socket : ℕ) → StreamCall
tcp_open socket = uv_tcp_open socket

unfoldable pub udp_open : (socket : ℕ) → StreamCall
udp_open socket = uv_udp_open socket

unfoldable pub udp_recv : StreamCall
udp_recv = uv_udp_recv_start common_alloc_callback

unfoldable pub udp_stop : StreamCall
udp_stop = uv_udp_recv_stop

module _ (libuv : StreamCall → ℤ) where
  unfoldable pub no_delay : (value : Bool) → Bool
  no_delay value = is_zero (libuv (uv_tcp_nodelay value))

  unfoldable pub keep_alive : (enable : Bool) → (val : ℕ) → Bool
  keep_alive enable val = is_zero (libuv (uv_tcp_keepalive enable val))

  unfoldable pub simultaneous_accepts : (enable : Bool) → Bool
  simultaneous_accepts enable = is_zero (libuv (uv_tcp_simultaneous_accepts enable))

  unfoldable pub multicast_membership : (multicast iface : List ℕ) → (ms : ℕ) → Bool
  multicast_membership multicast iface ms =
      is_zero (libuv (uv_udp_set_membership multicast iface ms))

  unfoldable pub multicast_loop : (enable : Bool) → Bool
  multicast_loop enable = is_zero (libuv (uv_udp_set_multicast_loop enable))

  unfoldable pub multicast_interface : (iface : List ℕ) → Bool
  multicast_interface iface = is_zero (libuv (uv_udp_set_multicast_interface iface))

  unfoldable pub broadcast : (enable : Bool) → Bool
  broadcast enable = is_zero (libuv (uv_udp_set_broadcast enable))
