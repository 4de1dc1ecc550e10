-- ===== src/Enum.antt =====
-- src/uvw/enum.hpp: the operators of the enumerations that are used as sets of flags.
-- A value is its underlying number in `w` bits, 32 for every enumeration of uvw.
use Prim.Native.Nat.{bit_and, bit_or, bit_xor}
use uvw.Bits.{bit_and-bit_or, bit_and-complement, bit_xor-bit_xor, complement}
use uvw.Prelude.{ℕ, ◌+◌, ◌^◌, ◌<◌, ◌≡◌, Bool, true, ◌==◌}

-- `operator|`, `operator&`, `operator^`, and with them `|=`, `&=` and `^=`.
unfoldable pub op_or : ℕ → ℕ → ℕ
op_or lhs rhs = bit_or lhs rhs

unfoldable pub op_and : ℕ → ℕ → ℕ
op_and lhs rhs = bit_and lhs rhs

unfoldable pub op_xor : ℕ → ℕ → ℕ
op_xor lhs rhs = bit_xor lhs rhs

-- `operator~`, in `w` bits.
unfoldable pub op_not : (w : ℕ) → ℕ → ℕ
op_not w value = complement w value

-- `operator!`.
unfoldable pub is_none : ℕ → Bool
is_none value = value == 0

-- Flags that are set with `|` are found with `&`; `x & ~f` has none of the flags `f`, as `!` says,
-- and together with `x & f` makes up `x`; `^` twice with the same flags changes nothing.
pub flag_operators :
    (w x f : ℕ)
    → x < 2 ^ w
    → f < 2 ^ w
    → (op_and (op_or x f) f ≡ f)
      × (is_none (op_and (op_and x (op_not w f)) f) ≡ true)
      × (op_and x (op_not w f) + op_and x f ≡ x)
      × (op_xor (op_xor x f) f ≡ x)
unfolding op_or op_and op_xor op_not is_none
flag_operators w x f p q =
    let (gone, split, small) = bit_and-complement w x f p q in
    (bit_and-bit_or x f, rw gone, split, bit_xor-bit_xor x f)
