-- ===== src/Handle.antt =====
-- src/uvw/handle.hpp and stream.h: the members that interpret what a function of libuv returns, which
-- is an argument here.
use uvw.Util.HandleType.{HandleType, guess_handle}
use uvw.Prelude.{
  ℕ, ◌≡◌, Bool, false, not, ℤ, pos, is_zero, is_neg, is_pos, eqb_ℤ, if◌then◌else◌, arith,
}

-- `!!` of what libuv returns.
unfoldable pub active : (uv_is_active : ℤ) → Bool
active uv_is_active = not (is_zero uv_is_active)

unfoldable pub is_closing : (uv_is_closing : ℤ) → Bool
is_closing uv_is_closing = not (is_zero uv_is_closing)

unfoldable pub referenced : (uv_has_ref : ℤ) → Bool
referenced uv_has_ref = not (is_zero uv_has_ref)

-- `value` is what libuv writes.
unfoldable pub send_buffer_size : (err value : ℤ) → ℤ
send_buffer_size err value = if is_zero err then value else err

unfoldable pub recv_buffer_size : (err value : ℤ) → ℤ
recv_buffer_size err value = if is_zero err then value else err

unfoldable pub readable : (uv_is_readable : ℤ) → Bool
readable uv_is_readable = eqb_ℤ uv_is_readable (pos 1)

unfoldable pub writable : (uv_is_writable : ℤ) → Bool
writable uv_is_writable = eqb_ℤ uv_is_writable (pos 1)

unfoldable pub blocking : (uv_stream_set_blocking : ℤ) → Bool
blocking uv_stream_set_blocking = is_zero uv_stream_set_blocking

-- `category` and `type`, with the number that libuv keeps in the handle.
unfoldable pub category : (uv_type : ℕ) → ℕ
category uv_type = uv_type

unfoldable pub handle_type_of : (value : HandleType → ℕ) → (uv_type : ℕ) → HandleType
unfolding category guess_handle
handle_type_of value uv_type = guess_handle value (category uv_type)

-- The calls of libuv for the handle. `uv_send_buffer_size` and `uv_recv_buffer_size` get the address
-- of the value.
pub data HandleCall : Type 0 where
  uv_ref uv_unref : HandleCall
  uv_handle_size : (uv_type : ℕ) → HandleCall
  uv_send_buffer_size uv_recv_buffer_size : (value : ℤ) → HandleCall

unfoldable pub reference : HandleCall
reference = uv_ref

unfoldable pub unreference : HandleCall
unreference = uv_unref

unfoldable pub size : (uv_type : ℕ) → HandleCall
size uv_type = uv_handle_size uv_type

unfoldable pub set_send_buffer_size : (value : ℤ) → HandleCall
set_send_buffer_size value = uv_send_buffer_size value

unfoldable pub set_recv_buffer_size : (value : ℤ) → HandleCall
set_recv_buffer_size value = uv_recv_buffer_size value

-- Where the errors of libuv are negative and sizes are not, both sizes are negative exactly where
-- libuv fails, and then they are its error.
pub buffer_size_sign :
    (err value : ℤ)
    → is_pos err ≡ false
    → is_neg value ≡ false
    → (is_neg (send_buffer_size err value) ≡ is_neg err)
      × (send_buffer_size err value ≡ (if is_neg err then err else value))
      × (recv_buffer_size err value ≡ send_buffer_size err value)
unfolding send_buffer_size recv_buffer_size
buffer_size_sign err value h k = ground arith
