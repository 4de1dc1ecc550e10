-- ===== src/Buffers.antt =====
-- Who owns the bytes that are written: `write_req` and the overloads of `write` and `try_write` in
-- src/uvw/stream.h, `send_req` and the overloads of `send` and `try_send` in udp.ipp, and the buffer
-- of stream.h's `read_callback`, which `common_alloc_callback` of util.ipp allocates.
-- A buffer is named by its address. `freed` holds the addresses that a deleter has deleted, in order,
-- and `taken` those that a listener moved out of its event. The handle's own life is that of
-- Lifetime; here it is only what the requests' listeners forward to.
pub mod Balance
use uvw.Prelude.{
  ℕ, zero, suc, ◌%◌, ◌^◌, ◌≤◌, ◌<◌, ◌≡◌, arith, Bool, true, false, Option, none, some, List, [],
  ◌∷◌, ◌++◌, ℤ, is_pos, eqb_ℤ, if◌then◌else◌, ◌>>=◌,
}
use uvw.Resource.{Resource, make_shared, share, release, leak_if, self_reset}
use uvw.Lifetime.{Forward, ReqKind, write_req, send_req, new_request}

-- A `std::unique_ptr<char[], Deleter>`: `deletes` is false for the deleter `[](char *) {}`.
pub record Data : Type 0 where
  pub base : ℕ
  pub deletes : Bool

-- The buffer at `fresh` that libuv gets to read into, with its length: a `std::size_t` cast to
-- `unsigned int`.
unfoldable pub common_alloc_callback : (fresh suggested : ℕ) → ℕ × ℕ
common_alloc_callback fresh suggested = (fresh, suggested % 2 ^ 32)

-- It is no longer than libuv suggested, and as long where that fits.
common_alloc_callback-length :
    (fresh suggested : ℕ)
    → ((common_alloc_callback fresh suggested).1 ≤ suggested)
      × (suggested < 2 ^ 32 → (common_alloc_callback fresh suggested).1 ≡ suggested)
unfolding common_alloc_callback
common_alloc_callback-length fresh suggested = (omega arith, λ h. omega arith)

-- `write_req<Deleter>` and `send_req`, with the buffer that libuv gets.
pub record WriteReq : Type 0 where
  pub object : Resource Forward
  pub data_ : Data
  pub buf : ℕ × ℕ

pub record Buffers : Type 0 where
  pub pending : List WriteReq
  pub freed : List ℕ
  pub taken : List ℕ

unfoldable pub no_buffers : Buffers
no_buffers = record { pending = []; freed = []; taken = [] }

-- The end of a `std::unique_ptr`'s life.
unfoldable pub end_data : Data → Buffers → Buffers
end_data d s = if d.deletes then record s { freed = s.freed ++ d.base ∷ [] } else s

-- The constructor, and the two listeners that every overload registers.
unfoldable pub new_write_req : ReqKind → Data → (len : ℕ) → WriteReq
unfolding new_request
new_write_req k dt len = record { object = new_request k; data_ = dt; buf = (dt.base, len) }

-- The end of a pointer to a request: where it is the last, the request's data ends with it.
unfoldable pub release_write : WriteReq → Buffers → Buffers
unfolding release end_data
release_write r s = elim (release r.object) [
  | none ↦ end_data r.data_ s
  | some o ↦ record s { pending = s.pending ++ record r { object = o } ∷ [] }
]

-- `uv_write`, `uv_write2` or `uv_udp_send` returns `rc`.
unfoldable pub submit_write : ReqKind → Data → (len : ℕ) → (rc : ℤ) → Buffers → Buffers
unfolding new_write_req leak_if release_write
submit_write k dt len rc s =
    let req = new_write_req k dt len in
    release_write (record req { object = (leak_if rc req.object).1 }) s

-- `write(std::unique_ptr<char[], Deleter>, ...)`, to a stream or with a handle to send.
unfoldable pub write_owned : (data_ len : ℕ) → (rc : ℤ) → Buffers → Buffers
unfolding submit_write
write_owned data_ len rc s =
    submit_write write_req (record { base = data_; deletes = true }) len rc s

-- `write(char *, ...)`, to a stream or with a handle to send.
unfoldable pub write_borrowed : (data_ len : ℕ) → (rc : ℤ) → Buffers → Buffers
unfolding submit_write
write_borrowed data_ len rc s =
    submit_write write_req (record { base = data_; deletes = false }) len rc s

-- `udp_handle::send` of a `std::unique_ptr`: it is released into one whose deleter is a function.
unfoldable pub send_owned : (data_ len : ℕ) → (rc : ℤ) → Buffers → Buffers
unfolding submit_write
send_owned data_ len rc s = submit_write send_req (record { base = data_; deletes = true }) len rc s

unfoldable pub send_borrowed : (data_ len : ℕ) → (rc : ℤ) → Buffers → Buffers
unfolding submit_write
send_borrowed data_ len rc s =
    submit_write send_req (record { base = data_; deletes = false }) len rc s

-- `try_write` and `try_send` of a `std::unique_ptr`: libuv writes at once, or not at all.
unfoldable pub try_write : (data_ : ℕ) → Buffers → Buffers
unfolding end_data
try_write data_ s = end_data (record { base = data_; deletes = true }) s

-- `try_send(char *, ...)`.
unfoldable pub try_send_borrowed : (data_ : ℕ) → Buffers → Buffers
try_send_borrowed data_ s = s

-- `write_callback` and `udp_send_callback`: `reserve`, and the end of `ptr`. `none` is a request that
-- was destroyed before.
unfoldable pub write_done : WriteReq → Buffers → Option Buffers
unfolding share self_reset release_write
write_done r s = do
  o ← self_reset (share r.object)
  some (release_write (record r { object = o }) s)

-- `read_callback`: the data event owns the buffer, and its listener may take it; every other branch
-- frees it.
unfoldable pub read_buffer : (uv_eof nread : ℤ) → (base : ℕ) → (takes : Bool) → Buffers → Buffers
unfolding end_data
read_buffer uv_eof nread base takes s =
    let data_ : Data = record { base = base; deletes = true } in
    if eqb_ℤ nread uv_eof
    then end_data data_ s
    else (if is_pos nread
        then (if takes then record s { taken = s.taken ++ base ∷ [] } else end_data data_ s)
        else end_data data_ s)

pub data Op : Type 0 where
  writes_owned writes_borrowed sends_owned sends_borrowed : (data_ len : ℕ) → (rc : ℤ) → Op
  tries tries_borrowed : (data_ : ℕ) → Op
  answered : (i : ℕ) → Op
  reads : (nread : ℤ) → (base : ℕ) → (takes : Bool) → Op

unfoldable pub take_pending : ℕ → List WriteReq → Option (WriteReq × List WriteReq)
take_pending i [] = none
take_pending zero (q ∷ qs) = some (q, qs)
take_pending (suc i) (q ∷ qs) = do (p, rest) ← take_pending i qs; some (p, q ∷ rest)

module _ (uv_eof : ℤ) where
  -- libuv answers only a request that it holds.
  unfoldable pub step : Op → Buffers → Option Buffers
  unfolding write_owned write_borrowed send_owned send_borrowed try_write try_send_borrowed
      write_done read_buffer take_pending
  step (writes_owned d len rc) s = some (write_owned d len rc s)
  step (writes_borrowed d len rc) s = some (write_borrowed d len rc s)
  step (sends_owned d len rc) s = some (send_owned d len rc s)
  step (sends_borrowed d len rc) s = some (send_borrowed d len rc s)
  step (tries d) s = some (try_write d s)
  step (tries_borrowed d) s = some (try_send_borrowed d s)
  step (answered i) s = elim (take_pending i s.pending) [
    | none ↦ some s
    | some (q, rest) ↦ write_done q (record s { pending = rest })
  ]
  step (reads nread base takes) s = some (read_buffer uv_eof nread base takes s)

  unfoldable pub steps : List Op → Buffers → Option Buffers
  unfolding step
  steps [] s = some s
  steps (o ∷ os) s = step o s >>= steps os
