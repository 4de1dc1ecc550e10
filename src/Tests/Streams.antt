-- ===== src/Tests/Streams.antt =====
-- Streams, packets and terminals at concrete inputs.
use uvw.Prelude.{
  not, ◌||◌, true, length, ◌+◌, ℕ, ◌≡◌, refl, none, some, List, [], ◌∷◌, pos, negsuc, pos_part,
  if◌then◌else◌, ◌==◌, drop,
}
use uvw.Event.{Event}
use uvw.Stream.Reads.{
  Read, read_all, received, ends_in, codes_in, delivered, eofs, errors, reads_delivered,
}
use uvw.Util.Address.{Inet, IsIp4}
use uvw.Udp.Traffic.{
  Receipt, packet, no_more, failed, receive_all, packets, packets_in, failures, traffic_delivered,
}
use uvw.Tty.{
  TtyUse, makes, ends, sets_mode, resets_mode, raw, uv_tty_set_mode, uv_tty_reset_mode, use_ttys,
  no_terminals, falls, is_reset, new_tty, end_tty, mode, reset_mode, release_memo,
  mode_memo_handler, use_ttys_resets,
}

abbrev reads : List Read
reads =
    (pos 2, 104 ∷ 105 ∷ 0 ∷ [])
    ∷ (pos 0, 0 ∷ [])
    ∷ (pos 1, 33 ∷ 0 ∷ [])
    ∷ (negsuc 103, [])
    ∷ (negsuc 4094, [])
    ∷ []

reads_delivered_example :
    (received (read_all (negsuc 4094) reads) ≡ delivered reads)
    × (ends_in (read_all (negsuc 4094) reads) ≡ eofs (negsuc 4094) reads)
    × (codes_in (read_all (negsuc 4094) reads) ≡ errors (negsuc 4094) reads)
reads_delivered_example = reads_delivered 4094 reads

delivered_hi : delivered reads ≡ 104 ∷ 105 ∷ 33 ∷ []
unfolding delivered
delivered_hi = refl

-- Structures of four bytes: the family, the port, the first byte of the text, and a zero byte.
abbrev pub tiny_inet : Inet
tiny_inet = record {
  size = 4;
  af_inet = 2;
  af_inet6 = 10;
  family = λ b. elim b [ [] ↦ 0 | c ∷ cs ↦ c ];
  port4 = λ b. elim b [ [] ↦ 0 | c ∷ cs ↦ elim cs [ [] ↦ 0 | d ∷ ds ↦ d ] ];
  port6 = λ b. 0;
  uv_ip4_addr =
      λ t p. elim t [ [] ↦ (negsuc 21, []) | c ∷ cs ↦ (pos 0, 2 ∷ pos_part p ∷ c ∷ 0 ∷ []) ];
  uv_ip6_addr = λ t p. (negsuc 21, []);
  uv_ip4_name = λ b. (pos 0, drop 2 b);
  uv_ip6_name = λ b. (negsuc 21, []);
}

abbrev pub from_one : List ℕ
from_one = 2 ∷ 80 ∷ 49 ∷ 0 ∷ []

pub from_one-IsIp4 : IsIp4 tiny_inet (49 ∷ []) 80 from_one
from_one-IsIp4 = record {
  parsed = refl;
  sized = refl;
  tagged = refl;
  printed = ([], refl);
  ported = refl;
}

abbrev receipts : List Receipt
receipts =
    packet 1 (65 ∷ 0 ∷ []) from_one 2
    ∷ packet 0 (0 ∷ []) from_one 0
    ∷ no_more (0 ∷ []) 0
    ∷ failed 3 [] none 0
    ∷ []

traffic_delivered_example :
    (es : List Event) × (receive_all tiny_inet 2 receipts ≡ some es)
    × (packets_in es ≡ packets tiny_inet 2 receipts)
    × (codes_in es ≡ failures receipts)
    × (length es ≡ length (packets tiny_inet 2 receipts) + length (failures receipts))
traffic_delivered_example = traffic_delivered tiny_inet 2 receipts

three_events : length (packets tiny_inet 2 receipts) + length (failures receipts) ≡ 3
unfolding packets failures
three_events = refl

abbrev tty_uses : List TtyUse
tty_uses =
    makes
    ∷ makes
    ∷ sets_mode (pos 0) raw
    ∷ ends
    ∷ resets_mode (pos 0)
    ∷ sets_mode (pos 0) raw
    ∷ ends
    ∷ []

mode_reset :
    (use_ttys tty_uses no_terminals).mode_calls
    ≡ uv_tty_reset_mode ∷ uv_tty_set_mode raw ∷ uv_tty_reset_mode ∷ uv_tty_set_mode raw ∷ []
unfolding use_ttys no_terminals new_tty end_tty mode reset_mode release_memo mode_memo_handler
mode_reset = refl

use_ttys_resets_example :
    ((use_ttys tty_uses no_terminals).reset_calls ≡ falls tty_uses 0)
    × ((use_ttys tty_uses no_terminals).weak ≡ (
        if (use_ttys tty_uses no_terminals).handles == 0
        then none
        else some (use_ttys tty_uses no_terminals).handles))
    × (not ((use_ttys tty_uses no_terminals).handles == 0)
          || is_reset (use_ttys tty_uses no_terminals).mode_calls
        ≡ true)
use_ttys_resets_example = use_ttys_resets tty_uses
