-- ===== src/TypeInfo.antt =====
-- src/uvw/type_info.hpp: the numbers that stand for types.
use Prim.Native.Nat.{bit_xor}
use uvw.Bits.{bit_xor-bit_xor, bit_xor_comm, bit_xor-lt}
use uvw.Prelude.{
  ℕ, ◌+◌, ◌*◌, ◌%◌, ◌^◌, ◌<◌, ◌≡◌, ◌≢◌, refl, sym, ap, ◌∙◌, List, [], ◌∷◌, ◌++◌, Option, none, some,
  arith, All,
}

abbrev offset : ℕ
offset = 2166136261

abbrev prime : ℕ
prime = 16777619

-- One round of the loop in `internal::fnv1a`, for a character as an unsigned one.
unfoldable pub round : ℕ → ℕ → ℕ
round value curr = bit_xor value curr * prime % 2 ^ 32

unfoldable pub fnv1a_from : ℕ → List ℕ → ℕ
fnv1a_from value [] = value
fnv1a_from value (curr ∷ view) = fnv1a_from (round value curr) view

unfoldable pub fnv1a : List ℕ → ℕ
unfolding fnv1a_from
fnv1a view = fnv1a_from offset view

-- `internal::counter` and `internal::fake`: the counter, and the static `local` of a type.
unfoldable pub counter : ℕ → ℕ × ℕ
counter cnt = (cnt, (cnt + 1) % 2 ^ 32)

unfoldable pub fake : Option ℕ → ℕ → ℕ × Option ℕ × ℕ
unfolding counter
fake (some local) cnt = (local, some local, cnt)
fake none cnt = let (local, cnt') = counter cnt in (local, some local, cnt')

-- The inverse of `prime` modulo 2 ^ 32.
unprime : (a : ℕ) → a < 2 ^ 32 → (a * prime % 2 ^ 32) * 899433627 % 2 ^ 32 ≡ a
unprime a h = omega arith

unmix : (x y : ℕ) → x < 2 ^ 32 → y < 2 ^ 32 → x * prime % 2 ^ 32 ≡ y * prime % 2 ^ 32 → x ≡ y
unmix x y p q e = sym (unprime x p) ∙ ap (λ z. z * 899433627 % 2 ^ 32) e ∙ unprime y q

-- A round loses nothing of the hash so far.
round-injective : (a b c : ℕ) → a < 2 ^ 32 → b < 2 ^ 32 → c < 2 ^ 32 → round a c ≡ round b c → a ≡ b
unfolding round
round-injective a b c p q r e =
    let same = unmix _ _ (bit_xor-lt 32 a c p r) (bit_xor-lt 32 b c q r) e in
    sym (bit_xor-bit_xor a c) ∙ ap (λ x. bit_xor x c) same ∙ bit_xor-bit_xor b c

-- Nor of the character.
round-character : (a c d : ℕ) → a < 2 ^ 32 → c < 2 ^ 32 → d < 2 ^ 32 → round a c ≡ round a d → c ≡ d
unfolding round
round-character a c d p q r e =
    let same = unmix _ _ (bit_xor-lt 32 a c p q) (bit_xor-lt 32 a d p r) e in
    sym (bit_xor-bit_xor c a)
    ∙ ap (λ x. bit_xor x a) (bit_xor_comm c a ∙ same ∙ bit_xor_comm a d)
    ∙ bit_xor-bit_xor d a

round-lt : (a c : ℕ) → round a c < 2 ^ 32
unfolding round
round-lt a c = omega arith

fnv1a_from-lt : (a : ℕ) (s : List ℕ) → a < 2 ^ 32 → fnv1a_from a s < 2 ^ 32
unfolding fnv1a_from
fnv1a_from-lt a [] h = h
fnv1a_from-lt a (c ∷ s) h = fnv1a_from-lt (round a c) s (round-lt a c)

fnv1a_from-injective :
    (s : List ℕ) (a b : ℕ)
    → All (λ c. c < 256) s
    → a < 2 ^ 32
    → b < 2 ^ 32
    → fnv1a_from a s ≡ fnv1a_from b s
    → a ≡ b
unfolding fnv1a_from
fnv1a_from-injective [] a b t p q e = e
fnv1a_from-injective (c ∷ s) a b t p q e =
    round-injective a b c p q (omega (arith, t.0))
      (fnv1a_from-injective s (round a c) (round b c) t.1 (round-lt a c) (round-lt b c) e)

fnv1a_from-append : (a : ℕ) (s t : List ℕ) → fnv1a_from a (s ++ t) ≡ fnv1a_from (fnv1a_from a s) t
unfolding fnv1a_from
fnv1a_from-append a [] t = refl
fnv1a_from-append a (c ∷ s) t = fnv1a_from-append (round a c) s t

fnv1a-same :
    (before after : List ℕ) (c d : ℕ)
    → All (λ x. x < 256) after
    → c < 256
    → d < 256
    → fnv1a (before ++ c ∷ after) ≡ fnv1a (before ++ d ∷ after)
    → c ≡ d
unfolding fnv1a
fnv1a-same before after c d t p q e =
    let v : ℕ = fnv1a_from offset before in
    let h : v < 2 ^ 32 = fnv1a_from-lt offset before (omega arith) in
    round-character v c d h (omega arith) (omega arith) (
      fnv1a_from-injective after (round v c) (round v d) t (round-lt v c) (round-lt v d) (
        sym (fnv1a_from-append offset before (c ∷ after))
        ∙ e
        ∙ fnv1a_from-append offset before (d ∷ after)))

-- Two names of the same length that differ in one character have different hashes, wherever it
-- stands: no two types whose signatures differ so get the same number.
pub fnv1a-one-character :
    (before after : List ℕ) (c d : ℕ)
    → All (λ x. x < 256) after
    → c < 256
    → d < 256
    → c ≢ d
    → fnv1a (before ++ c ∷ after) ≢ fnv1a (before ++ d ∷ after)
fnv1a-one-character before after c d t p q differ e = differ (fnv1a-same before after c d t p q e)
