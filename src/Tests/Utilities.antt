-- ===== src/Tests/Utilities.antt =====
-- The helpers of util.h, the hashes of type_info.hpp and the flags of enum.hpp at concrete inputs.
use uvw.Prelude.{
  ℕ, ◌+◌, ◌≡◌, ◌≢◌, refl, sym, ◌∙◌, true, none, some, List, [], ◌∷◌, ◌++◌, map, ℤ, pos, negsuc, ◌⊎◌,
  arith, pos_part, if◌then◌else◌, ltb, take, replicate, drop, get_elem?, ◌==◌,
}
use uvw.Util.Text.{Reads, ReadsText, try_read, c_string, try_read_succeeded}
use uvw.Util.Getters.{TextCall, get_text, envs, get_text_whole}
use uvw.Util.HandleType.{HandleType, labels}
use uvw.Util.Arrays.{RawInterface, CpuInfo, interface_addresses, cpu, to_interface, to_cpu_info}
use uvw.Util.Address.{Inet, IsIp4, ip_addr, sock_addr, sock_addr-ip_addr}
use uvw.Udp.Overloads.{call_at, address_in, udp_binds, by_ip, by_address, ip6_truncated}
use uvw.TypeInfo.{fnv1a, fnv1a-one-character}
use uvw.Enum.{op_or, op_and, op_xor, op_not, is_none, flag_operators}

-- A function of libuv that reads the text of the bytes 104 and 105.
abbrev enobufs : ℤ
enobufs = negsuc 104

abbrev hi : Reads
hi cap = if ltb 2 cap then (pos 0, 104 ∷ 105 ∷ 0 ∷ [], 2) else (enobufs, [], 3)

hi-ReadsText : ReadsText enobufs hi (104 ∷ 105 ∷ [])
hi-ReadsText = record {
  fits = λ cap h. ([], ground (arith, h));
  asks = λ cap h. ([], ground (arith, h));
  is_error = λ e. cc;
}

abbrev saying_hi : TextCall → Reads
saying_hi call = hi

get_text_whole_example : get_text enobufs saying_hi (envs (72 ∷ [])) ≡ 104 ∷ 105 ∷ []
get_text_whole_example =
    get_text_whole enobufs saying_hi (envs (72 ∷ [])) (104 ∷ 105 ∷ []) hi-ReadsText
      ((λ e. cc), ((λ e. cc), tt))

-- A text that does not fit the first buffer.
abbrev long : Reads
long cap = if ltb 128 cap then (pos 0, 104 ∷ 105 ∷ 0 ∷ [], 2) else (enobufs, [], 200)

try_read-long : try_read enobufs long ≡ 104 ∷ 105 ∷ []
unfolding try_read
try_read-long = refl

try_read_succeeded_example :
    (((long 128).0 ≡ pos 0) × (try_read enobufs long ≡ take (long 128).2 (long 128).1))
    ⊎ (((long 128).0 ≡ enobufs)
        × ((long (long 128).2).0 ≡ pos 0)
        × (try_read enobufs long ≡ c_string (long (long 128).2).1))
try_read_succeeded_example = try_read_succeeded enobufs long (λ e. cc (sym try_read-long ∙ e))

-- Categories by the position of the label.
abbrev category_of : HandleType → ℕ
category_of HandleType.unknown = 17
category_of HandleType.async = 0
category_of HandleType.check = 1
category_of HandleType.fs_event = 2
category_of HandleType.fs_poll = 3
category_of HandleType.handle = 4
category_of HandleType.idle = 5
category_of HandleType.pipe = 6
category_of HandleType.poll = 7
category_of HandleType.prepare = 8
category_of HandleType.process = 9
category_of HandleType.stream = 10
category_of HandleType.tcp = 11
category_of HandleType.timer = 12
category_of HandleType.tty = 13
category_of HandleType.udp = 14
category_of HandleType.signal = 15
category_of HandleType.file = 16

abbrev type_at : ℕ → HandleType
type_at n = elim (get_elem? labels n) [ none ↦ HandleType.unknown | some t ↦ t ]

-- Structures of four bytes: the family, the port, the first byte of the text, and a zero byte. A text
-- of the byte 58 first is an IPv6 address, of which two bytes more are kept.
abbrev small_inet : Inet
small_inet = record {
  size = 4;
  af_inet = 2;
  af_inet6 = 10;
  family = λ b. elim b [ [] ↦ 0 | c ∷ cs ↦ c ];
  port4 = λ b. elim b [ [] ↦ 0 | c ∷ cs ↦ elim cs [ [] ↦ 0 | d ∷ ds ↦ d ] ];
  port6 = λ b. elim b [ [] ↦ 0 | c ∷ cs ↦ elim cs [ [] ↦ 0 | d ∷ ds ↦ d ] ];
  uv_ip4_addr = λ t p. elim t [
    | [] ↦ (negsuc 21, [])
    | c ∷ cs ↦ if c == 58 then (negsuc 21, []) else (pos 0, 2 ∷ pos_part p ∷ c ∷ 0 ∷ [])
  ];
  uv_ip6_addr = λ t p. (pos 0, (10 ∷ pos_part p ∷ 0 ∷ 0 ∷ []) ++ t);
  uv_ip4_name = λ b. (pos 0, drop 2 b);
  uv_ip6_name = λ b. (pos 0, drop 4 b);
}

one-IsIp4 : IsIp4 small_inet (49 ∷ []) 80 (2 ∷ 80 ∷ 49 ∷ 0 ∷ [])
one-IsIp4 = record {
  parsed = refl;
  sized = refl;
  tagged = refl;
  printed = ([], refl);
  ported = refl;
}

sock_addr-ip_addr_example :
    sock_addr small_inet (ip_addr small_inet (49 ∷ []) 80) ≡ record { ip = 49 ∷ []; port = 80 }
sock_addr-ip_addr_example =
    sock_addr-ip_addr small_inet (49 ∷ []) 80 (2 ∷ 80 ∷ 49 ∷ 0 ∷ []) one-IsIp4 (ground arith)
      ((λ e. cc), tt)

ip6_truncated_example :
    (address_in (call_at small_inet (udp_binds 4) (by_ip (58 ∷ 49 ∷ []) 80))
      ≡ some (10 ∷ 80 ∷ 0 ∷ 0 ∷ []))
    × (call_at small_inet (udp_binds 4) (by_ip (58 ∷ 49 ∷ []) 80)
        ≡ call_at small_inet (udp_binds 4) (by_ip (58 ∷ 50 ∷ []) 80))
    × (call_at small_inet (udp_binds 4) (by_address (record { ip = 58 ∷ 49 ∷ []; port = 80 }))
        ≡ call_at small_inet (udp_binds 4) (by_address (record { ip = 58 ∷ 50 ∷ []; port = 80 })))
ip6_truncated_example =
    ip6_truncated small_inet (udp_binds 4) (58 ∷ 49 ∷ []) (58 ∷ 50 ∷ []) 80 21 21 [] []
      (10 ∷ 80 ∷ 0 ∷ 0 ∷ []) (58 ∷ 49 ∷ []) (58 ∷ 50 ∷ []) refl refl refl refl refl

abbrev interfaces : List RawInterface
interfaces =
    record {
      name = 108 ∷ 111 ∷ 0 ∷ [];
      phys_addr = replicate 6 0;
      is_internal = pos 1;
      address = 2 ∷ 0 ∷ 49 ∷ 0 ∷ [];
      netmask = 2 ∷ 0 ∷ 50 ∷ 0 ∷ [];
    }
    ∷ []

abbrev cpus : List CpuInfo
cpus = record { model = 65 ∷ 0 ∷ []; speed = pos 9; times = [] } ∷ []

listed_interfaces :
    interface_addresses small_inet (pos 0) interfaces 1
    ≡ some (map (to_interface small_inet) interfaces)
unfolding interface_addresses
listed_interfaces = refl

listed_cpus : cpu (pos 0) cpus 1 ≡ some (map to_cpu_info cpus)
unfolding cpu
listed_cpus = refl

fnv1a-one-character_example : fnv1a ((1 ∷ []) ++ 97 ∷ 2 ∷ []) ≢ fnv1a ((1 ∷ []) ++ 98 ∷ 2 ∷ [])
fnv1a-one-character_example =
    fnv1a-one-character (1 ∷ []) (2 ∷ []) 97 98 (ground arith, tt) (ground arith) (ground arith)
      (λ e. omega (arith, e))

flag_operators_example :
    (op_and (op_or 5 6) 6 ≡ 6)
    × (is_none (op_and (op_and 5 (op_not 3 6)) 6) ≡ true)
    × (op_and 5 (op_not 3 6) + op_and 5 6 ≡ 5)
    × (op_xor (op_xor 5 6) 6 ≡ 5)
flag_operators_example = flag_operators 3 5 6 (ground arith) (ground arith)
