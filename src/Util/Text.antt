-- ===== src/Util/Text.antt =====
-- `details::try_read` of src/uvw/util.h, which reads a text of unknown length, and what goes through
-- it. A text is its bytes; a call that fills a buffer takes the buffer's size and gives an error
-- code, what the buffer then holds, and the size that it writes back.
use uvw.Prelude.{
  ℕ, suc, ◌≤◌, ◌<◌, ◌≡◌, refl, ◌≢◌, true, false, List, [], ◌∷◌, ◌++◌, ℤ, pos, is_zero, eqb_ℤ,
  eqb_ℤ_iff, ◌==◌, if◌then◌else◌, length, take, take-append, arith, All, ◌⊎◌, sym, dec_lt,
  Bool-cases, inl, inr, ◌∙◌, ap, take-length, length-append,
}

-- `DEFAULT_SIZE`.
abbrev pub default_size : ℕ
default_size = 128

-- A `const char *` as a text: the bytes before the first that is 0.
unfoldable pub c_string : List ℕ → List ℕ
c_string [] = []
c_string (c ∷ cs) = if c == 0 then [] else c ∷ c_string cs

-- What a function of libuv returns when it was given a buffer of so many bytes.
abbrev pub Reads : Type 0
Reads = ℕ → ℤ × List ℕ × ℕ

-- The second attempt of `try_read`, in a buffer of the size that libuv asked for.
unfoldable pub read_again : ℤ × List ℕ × ℕ → List ℕ
unfolding c_string
read_again (err, data_, size) = if is_zero err then c_string data_ else []

unfoldable pub try_read : (uv_enobufs : ℤ) → Reads → List ℕ
unfolding read_again
try_read uv_enobufs f =
    let (err, buf, size) = f default_size in
    if eqb_ℤ uv_enobufs err
    then read_again (f size)
    else (if is_zero err then take size buf else [])

-- `utilities::process_title()`: a title that libuv read is assigned with the buffer's whole size.
unfoldable pub process_title : Reads → List ℕ
process_title uv_get_process_title =
    let (err, buf, size) = uv_get_process_title default_size in
    if is_zero err then take default_size buf else []

-- What libuv documents of most functions that read a text `s`: it writes the text, a zero byte and
-- the text's length if they fit the buffer, and asks for enough room otherwise.
pub record ReadsText (uv_enobufs : ℤ) (f : Reads) (s : List ℕ) : Type 0 where
  pub fits :
      (cap : ℕ) → length s < cap → (rest : List ℕ) × (f cap ≡ (pos 0, s ++ 0 ∷ rest, length s))
  pub asks :
      (cap : ℕ) → cap ≤ length s → (buf : List ℕ) × (f cap ≡ (uv_enobufs, buf, suc (length s)))
  pub is_error : uv_enobufs ≢ pos 0

-- What it documents of all: a text that fits the first buffer is written there, with its length; a zero
-- byte need not follow.
pub record FitsText (uv_enobufs : ℤ) (f : Reads) (s : List ℕ) : Type 0 where
  pub short : length s < default_size
  pub written : (rest : List ℕ) × (f default_size ≡ (pos 0, s ++ rest, length s))
  pub is_error : uv_enobufs ≢ pos 0

pub c_string-text : (s rest : List ℕ) → All (λ c. c ≢ 0) s → c_string (s ++ 0 ∷ rest) ≡ s
unfolding c_string
c_string-text [] rest h = refl
c_string-text (c ∷ s) rest h = ground (arith, c_string-text s rest h.1)

zero_of : (a : ℤ) → is_zero a ≡ true → a ≡ pos 0
zero_of a h = ground arith

eqb_ℤ-self : (a : ℤ) → eqb_ℤ a a ≡ true
eqb_ℤ-self a = (eqb_ℤ_iff a a).1 refl

eqb_ℤ-ne : (a b : ℤ) → a ≢ b → eqb_ℤ a b ≡ false
eqb_ℤ-ne a b ne = elim (Bool-cases (eqb_ℤ a b)) [
  | inl same ↦ absurd (ne ((eqb_ℤ_iff a b).0 same))
  | inr differ ↦ differ
]

-- What `try_read` makes of the first answer, and of the second.
read_first :
    (uv_enobufs : ℤ) (f : Reads) (buf : List ℕ) (n : ℕ)
    → f 128 ≡ (pos 0, buf, n)
    → uv_enobufs ≢ pos 0
    → try_read uv_enobufs f ≡ take n buf
unfolding try_read
read_first uv_enobufs f buf n e ne = rw (e, eqb_ℤ-ne uv_enobufs (pos 0) ne)

read_second :
    (uv_enobufs : ℤ) (f : Reads) (buf again : List ℕ) (n m : ℕ)
    → f 128 ≡ (uv_enobufs, buf, n)
    → f n ≡ (pos 0, again, m)
    → try_read uv_enobufs f ≡ c_string again
unfolding try_read
read_second uv_enobufs f buf again n m e e' = rw (e, eqb_ℤ-self uv_enobufs, e')

-- A text that fits the first buffer is read whole, zero bytes included.
pub try_read_short :
    (uv_enobufs : ℤ) (f : Reads) (s : List ℕ) → FitsText uv_enobufs f s → try_read uv_enobufs f ≡ s
try_read_short uv_enobufs f s r =
    let (rest, e) = r.written in read_first uv_enobufs f _ _ e r.is_error ∙ take-append s rest

-- A text without zero bytes is read whole, whatever its length, where libuv's function does what
-- its documentation says.
pub try_read_whole :
    (uv_enobufs : ℤ) (f : Reads) (s : List ℕ)
    → ReadsText uv_enobufs f s
    → All (λ c. c ≢ 0) s
    → try_read uv_enobufs f ≡ s
try_read_whole uv_enobufs f s r h = elim (dec_lt (length s) 128) [
  | yes short ↦
      let (rest, e) = r.fits 128 short in
      read_first uv_enobufs f _ _ e r.is_error ∙ take-append s (0 ∷ rest)
  | no long ↦
      let (buf, e) = r.asks 128 (omega arith) in
      let (rest, e') = r.fits (suc (length s)) (omega arith) in
      read_second uv_enobufs f buf _ _ _ e e' ∙ c_string-text s rest h
]

-- Whatever libuv's function does, a text that is not empty comes from a call that succeeded: it is
-- as much of the buffer as the first call says, or, where the first failed with `UV_ENOBUFS`, the
-- bytes before the first zero that the second wrote, which had a buffer of the size that the first
-- asked for. Where neither succeeds the text is empty.
pub try_read_succeeded :
    (uv_enobufs : ℤ) (f : Reads)
    → try_read uv_enobufs f ≢ []
    → (((f 128).0 ≡ pos 0) × (try_read uv_enobufs f ≡ take (f 128).2 (f 128).1))
      ⊎ (((f 128).0 ≡ uv_enobufs)
          × ((f (f 128).2).0 ≡ pos 0)
          × (try_read uv_enobufs f ≡ c_string (f (f 128).2).1))
unfolding try_read read_again
try_read_succeeded uv_enobufs f ne = elim (Bool-cases (eqb_ℤ uv_enobufs (f 128).0)) [
  | inl again ↦ elim (Bool-cases (is_zero (f (f 128).2).0)) [
    | inl ok ↦
        inr (sym ((eqb_ℤ_iff uv_enobufs (f 128).0).0 again), zero_of _ ok, rw (again, ok) refl)
    | inr fails ↦ absurd (ne (rw (again, fails) refl))
  ]
  | inr other ↦ elim (Bool-cases (is_zero (f 128).0)) [
    | inl ok ↦ inl (zero_of _ ok, rw (other, ok) refl)
    | inr fails ↦ absurd (ne (rw (other, fails) refl))
  ]
]

-- A title that was read is not the title's own text but the buffer's whole 128 bytes: behind the text
-- stand the zero byte and whatever the buffer held.
process_title_padded :
    (f : Reads) (s rest : List ℕ) (n : ℕ)
    → f 128 ≡ (pos 0, s ++ 0 ∷ rest, n)
    → length (s ++ 0 ∷ rest) ≡ 128
    → (process_title f ≡ s ++ 0 ∷ rest) × (process_title f ≢ s)
unfolding process_title
process_title_padded f s rest n e l =
    (whole, λ q. omega (arith, ap length (sym whole ∙ q), length-append s (0 ∷ rest)))
  where
    whole : process_title f ≡ s ++ 0 ∷ rest
    whole = rw e (ap (λ k. take k (s ++ 0 ∷ rest)) (sym l) ∙ take-length (s ++ 0 ∷ rest))
