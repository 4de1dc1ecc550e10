-- ===== src/Event.antt =====
-- The event types that the handles and requests of src/uvw publish, as one type, since a listener
-- table is indexed by the event's C++ type.
use uvw.Emitter.{ErrorEvent}
use uvw.Prelude.{ℕ, ℤ, Bool, List}

pub data EventType : Type 0 where
  error close listen end connect shutdown write stream_data : EventType
  timer async idle check prepare signal poll fs_change fs_poll exit : EventType
  work send udp_data addr_info name_info fs : EventType

unfoldable pub EventType-discrete : Discrete EventType
EventType-discrete = hlevel

-- `socket_address` of util.h. A host is its text's bytes.
pub record SocketAddress : Type 0 where
  pub ip : List ℕ
  pub port : ℕ

-- An event's value. A buffer is the bytes that it holds, and `length` how many of them count.
pub data Event : Type 0 where
  error_event : ErrorEvent → Event
  close_event listen_event end_event connect_event shutdown_event write_event : Event
  data_event : List ℕ → (length : ℕ) → Event
  timer_event async_event idle_event check_event prepare_event : Event
  signal_event : (signum : ℤ) → Event
  poll_event : (flags : ℕ) → Event
  fs_event_event : (filename : List ℕ) → (flags : ℕ) → Event
  fs_poll_event : (prev curr : ℕ) → Event
  exit_event : (status signal : ℤ) → Event
  work_event send_event : Event
  udp_data_event : SocketAddress → List ℕ → (length : ℕ) → (partial : Bool) → Event
  addr_info_event : (data_ : ℕ) → Event
  name_info_event : (hostname service : List ℕ) → Event
  fs_event : (result : ℕ) → Event

-- The template argument that `publish` deduces from the value.
unfoldable pub type_of : Event → EventType
type_of (error_event e) = error
type_of close_event = close
type_of listen_event = listen
type_of end_event = end
type_of connect_event = connect
type_of shutdown_event = shutdown
type_of write_event = write
type_of (data_event d n) = stream_data
type_of timer_event = timer
type_of async_event = async
type_of idle_event = idle
type_of check_event = check
type_of prepare_event = prepare
type_of (signal_event n) = signal
type_of (poll_event f) = poll
type_of (fs_event_event n f) = fs_change
type_of (fs_poll_event p c) = fs_poll
type_of (exit_event s n) = exit
type_of work_event = work
type_of send_event = send
type_of (udp_data_event a d n p) = udp_data
type_of (addr_info_event d) = addr_info
type_of (name_info_event h s) = name_info
type_of (fs_event r) = fs
