-- ===== src/Stream/Reads.antt =====
-- What the listeners of a stream get, over all that libuv reads from it.
use uvw.Prelude.{
  ℕ, ◌+◌, ◌≡◌, refl, List, [], ◌∷◌, ◌++◌, ℤ, pos, negsuc, is_zero, to_int, eqb_ℤ, if◌then◌else◌,
  take, arith,
}
use uvw.Emitter.{to_error_event}
use uvw.Event.{
  Event, error_event, end_event, data_event, listen_event, poll_event, fs_event_event,
  fs_poll_event,
}
use uvw.Stream.{read_callback, listen_callback, poll_callback, fs_event_callback, fs_poll_callback}

-- A read as libuv reports it: a count, or an error, and the buffer.
abbrev pub Read : Type 0
Read = ℤ × List ℕ

unfoldable pub read_all : (uv_eof : ℤ) → List Read → List Event
read_all uv_eof [] = []
read_all uv_eof (r ∷ rs) = read_callback uv_eof r.0 r.1 ++ read_all uv_eof rs

-- The bytes that the data events carry, the number of end events, and the codes of the errors.
unfoldable pub received : List Event → List ℕ
received [] = []
received (data_event d n ∷ es) = take n d ++ received es
received (_ ∷ es) = received es

unfoldable pub ends_in : List Event → ℕ
ends_in [] = 0
ends_in (end_event ∷ es) = 1 + ends_in es
ends_in (_ ∷ es) = ends_in es

unfoldable pub codes_in : List Event → List ℤ
codes_in [] = []
codes_in (error_event e ∷ es) = e.ec ∷ codes_in es
codes_in (_ ∷ es) = codes_in es

-- What libuv delivered.
unfoldable pub delivered : List Read → List ℕ
delivered [] = []
delivered ((pos n, buf) ∷ rs) = take n buf ++ delivered rs
delivered ((negsuc n, buf) ∷ rs) = delivered rs

unfoldable pub eofs : (uv_eof : ℤ) → List Read → ℕ
eofs uv_eof [] = 0
eofs uv_eof ((n, buf) ∷ rs) = (if eqb_ℤ n uv_eof then 1 else 0) + eofs uv_eof rs

unfoldable pub errors : (uv_eof : ℤ) → List Read → List ℤ
errors uv_eof [] = []
errors uv_eof ((pos n, buf) ∷ rs) = errors uv_eof rs
errors uv_eof ((negsuc n, buf) ∷ rs) =
    if eqb_ℤ (negsuc n) uv_eof then errors uv_eof rs else to_int (negsuc n) ∷ errors uv_eof rs

-- Over any number of reads the listeners get every byte that libuv read, once and in order, one end
-- event for each end of the stream, and the code of every other error, in order; a read of nothing
-- is no event.
pub reads_delivered :
    (e : ℕ) (rs : List Read)
    → (received (read_all (negsuc e) rs) ≡ delivered rs)
      × (ends_in (read_all (negsuc e) rs) ≡ eofs (negsuc e) rs)
      × (codes_in (read_all (negsuc e) rs) ≡ errors (negsuc e) rs)
unfolding read_all received ends_in codes_in delivered eofs errors read_callback to_error_event
reads_delivered e [] = (refl, refl, refl)
reads_delivered e ((pos n, buf) ∷ rs) =
    let (a, b, c) = reads_delivered e rs in ground (arith, a, b, c)
reads_delivered e ((negsuc n, buf) ∷ rs) =
    let (a, b, c) = reads_delivered e rs in ground (arith, a, b, c)

-- Every callback that gets a status publishes one event: its own where the status is 0, and
-- otherwise the error event with the status.
pub published_status :
    (status : ℤ) (events prev curr : ℕ) (name : List ℕ)
    → let told : Event → List Event =
        λ v. (if is_zero status then v else error_event (to_error_event status)) ∷ [] in
      (listen_callback status ≡ told listen_event)
      × (poll_callback status events ≡ told (poll_event events))
      × (fs_event_callback name events status ≡ told (fs_event_event name events))
      × (fs_poll_callback status prev curr ≡ told (fs_poll_event prev curr))
unfolding listen_callback poll_callback fs_event_callback fs_poll_callback
published_status status events prev curr name = ground arith
