-- ===== src/Dns.antt =====
-- src/uvw/dns.ipp: what the resolver's callbacks publish, and what its synchronous functions return,
-- by what libuv returns and finds. The result of `uv_getaddrinfo` is named by its address.
use uvw.Prelude.{ℕ, ◌≡◌, refl, Bool, Option, none, some, List, ℤ, is_zero, if◌then◌else◌}
use uvw.Emitter.{to_error_event}
use uvw.Event.{Event, error_event, addr_info_event, name_info_event}
use uvw.Util.Text.{c_string}

unfoldable pub addr_info_callback : (status : ℤ) → (res : ℕ) → Event
unfolding to_error_event
addr_info_callback status res =
    if is_zero status then addr_info_event res else error_event (to_error_event status)

unfoldable pub node_addr_info_sync : (err : ℤ) → (addrinfo : ℕ) → Bool × ℕ
node_addr_info_sync err addrinfo = (is_zero err, addrinfo)

unfoldable pub name_info_callback : (status : ℤ) → (hostname service : List ℕ) → Event
unfolding to_error_event c_string
name_info_callback status hostname service =
    if is_zero status
    then name_info_event (c_string hostname) (c_string service)
    else error_event (to_error_event status)

unfoldable pub name_info_sync : (err : ℤ) → (host service : List ℕ) → Bool × (List ℕ × List ℕ)
name_info_sync err host service = (is_zero err, (host, service))

-- The node and the service that `uv_getaddrinfo` gets, null where they are `none`, from the functions
-- that ask for a node, for a service, and for both.
unfoldable pub node_query : (node : List ℕ) → Option (List ℕ) × Option (List ℕ)
node_query node = (some node, none)

unfoldable pub service_query : (service : List ℕ) → Option (List ℕ) × Option (List ℕ)
service_query service = (none, some service)

unfoldable pub addr_query : (node service : List ℕ) → Option (List ℕ) × Option (List ℕ)
addr_query node service = (some node, some service)

-- The same of the synchronous functions.
unfoldable pub node_query_sync : (node : List ℕ) → Option (List ℕ) × Option (List ℕ)
node_query_sync node = (some node, none)

unfoldable pub service_query_sync : (service : List ℕ) → Option (List ℕ) × Option (List ℕ)
service_query_sync service = (none, some service)

unfoldable pub addr_query_sync : (node service : List ℕ) → Option (List ℕ) × Option (List ℕ)
addr_query_sync node service = (some node, some service)

-- The asynchronous and the synchronous functions agree: they ask for the same, and where libuv
-- answers both alike, the callback
-- publishes the addresses, or the names, that the synchronous function returns where that returns
-- `true`, and the error otherwise.
pub dns_agree :
    (err : ℤ) (res : ℕ) (host service node : List ℕ)
    → (addr_info_callback err res ≡ (
        if (node_addr_info_sync err res).0
        then addr_info_event (node_addr_info_sync err res).1
        else error_event (to_error_event err)))
      × (name_info_callback err host service ≡ (
          if (name_info_sync err host service).0
          then name_info_event
              (c_string (name_info_sync err host service).1.0)
              (c_string (name_info_sync err host service).1.1)
          else error_event (to_error_event err)))
      × (node_query_sync node ≡ node_query node)
      × (service_query_sync service ≡ service_query service)
      × (addr_query_sync node service ≡ addr_query node service)
unfolding addr_info_callback node_addr_info_sync name_info_callback name_info_sync node_query
    service_query addr_query node_query_sync service_query_sync addr_query_sync
dns_agree err res host service node = (refl, refl, refl, refl, refl)
