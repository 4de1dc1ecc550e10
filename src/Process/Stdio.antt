-- ===== src/Process/Stdio.antt =====
-- Which descriptors and streams a child process gets, by the calls of `stdio` that were made.
use mathlib.Core.List.{append-nil, append_assoc}
use uvw.Prelude.{
  ℕ, ◌+◌, ◌≤◌, ◌≡◌, refl, sym, ap, ◌∙◌, Option, none, some, List, [], ◌∷◌, ◌++◌, ◌==◌,
  if◌then◌else◌, arith,
}
use uvw.Process.{
  cwd, flags, uid, gid, fd, stream, Container, Process, new, is_fd, set_fd, Setting, stdio_stream,
  stdio_fd, configure, configure_all, options,
}

-- The flags of the first container for the descriptor `n`, and how many containers it has.
unfoldable pub fd_flags : ℕ → List Container → Option ℕ
fd_flags n [] = none
fd_flags n (c ∷ cs) = if is_fd n c.data_ then some c.flags else fd_flags n cs

unfoldable pub fd_count : ℕ → List Container → ℕ
fd_count n [] = 0
fd_count n (c ∷ cs) = (if is_fd n c.data_ then 1 else 0) + fd_count n cs

fd_flags-set_fd :
    (n m f : ℕ) (cs : List Container)
    → fd_flags m (set_fd n f cs) ≡ (if n == m then some f else fd_flags m cs)
unfolding fd_flags set_fd
fd_flags-set_fd n m f [] = refl
fd_flags-set_fd n m f (c ∷ cs) = ground (arith, fd_flags-set_fd n m f cs)

fd_count-set_fd :
    (n m f : ℕ) (cs : List Container)
    → fd_count m (set_fd n f cs)
      ≡ (if n == m then (if fd_count m cs == 0 then 1 else fd_count m cs) else fd_count m cs)
unfolding fd_count set_fd
fd_count-set_fd n m f [] = ground arith
fd_count-set_fd n m f (c ∷ cs) = ground (arith, fd_count-set_fd n m f cs)

fd_count-set_fd-le :
    (n m f : ℕ) (cs : List Container) → fd_count m cs ≤ 1 → fd_count m (set_fd n f cs) ≤ 1
fd_count-set_fd-le n m f cs h = ground (arith, fd_count-set_fd n m f cs)

-- The containers that hold a stream, in order.
unfoldable pub streams_of : List Container → List Container
streams_of [] = []
streams_of (c ∷ cs) = elim c.data_ [ fd m ↦ streams_of cs | stream s ↦ c ∷ streams_of cs ]

streams_of-append :
    (xs ys : List Container) → streams_of (xs ++ ys) ≡ streams_of xs ++ streams_of ys
unfolding streams_of
streams_of-append [] ys = refl
streams_of-append (c ∷ xs) ys = ground (arith, streams_of-append xs ys)

fd_flags-append :
    (n : ℕ) (xs ys : List Container) → fd_flags n ys ≡ none → fd_flags n (xs ++ ys) ≡ fd_flags n xs
unfolding fd_flags
fd_flags-append n [] ys h = h
fd_flags-append n (c ∷ xs) ys h = ground (arith, fd_flags-append n xs ys h)

fd_count-append :
    (n : ℕ) (xs ys : List Container) → fd_count n (xs ++ ys) ≡ fd_count n xs + fd_count n ys
unfolding fd_count
fd_count-append n [] ys = omega arith
fd_count-append n (c ∷ xs) ys = ground (arith, fd_count-append n xs ys)

-- What the calls of `stdio` ask for: the flags of the last one for the descriptor `n`, and the
-- streams in the order of the calls.
unfoldable pub asked : ℕ → List Setting → Option ℕ → Option ℕ
asked n [] before = before
asked n (stdio_fd m f ∷ ss) before = asked n ss (if m == n then some f else before)
asked n (cwd path ∷ ss) before = asked n ss before
asked n (flags f ∷ ss) before = asked n ss before
asked n (stdio_stream s f ∷ ss) before = asked n ss before
asked n (uid id ∷ ss) before = asked n ss before
asked n (gid id ∷ ss) before = asked n ss before

unfoldable pub asked_streams : List Setting → List Container
asked_streams [] = []
asked_streams (stdio_stream s f ∷ ss) = record { flags = f; data_ = stream s } ∷ asked_streams ss
asked_streams (stdio_fd m f ∷ ss) = asked_streams ss
asked_streams (cwd path ∷ ss) = asked_streams ss
asked_streams (flags f ∷ ss) = asked_streams ss
asked_streams (uid id ∷ ss) = asked_streams ss
asked_streams (gid id ∷ ss) = asked_streams ss

-- Descriptors and streams that are kept apart, no descriptor twice.
record Apart (n : ℕ) (fds streams : List Container) : Type 0 where
  no_flags : fd_flags n streams ≡ none
  no_count : fd_count n streams ≡ 0
  once : fd_count n fds ≤ 1
  no_streams : streams_of fds ≡ []

streams_of-set_fd : (n f : ℕ) (cs : List Container) → streams_of (set_fd n f cs) ≡ streams_of cs
unfolding streams_of set_fd
streams_of-set_fd n f [] = refl
streams_of-set_fd n f (c ∷ cs) = ground (arith, streams_of-set_fd n f cs)

set_fd-Apart :
    (n m f : ℕ) (fds streams : List Container)
    → Apart n fds streams
    → Apart n (set_fd m f fds) streams
set_fd-Apart n m f fds streams a = record {
  no_flags = a.no_flags;
  no_count = a.no_count;
  once = fd_count-set_fd-le m n f fds a.once;
  no_streams = streams_of-set_fd m f fds ∙ a.no_streams;
}

push-Apart :
    (n f s : ℕ) (fds streams : List Container)
    → Apart n fds streams
    → Apart n fds (streams ++ record { flags = f; data_ = stream s } ∷ [])
unfolding fd_flags fd_count
push-Apart n f s fds streams a =
    let last = record { flags = f; data_ = stream s } ∷ [] in
    record {
      no_flags = fd_flags-append n streams last refl ∙ a.no_flags;
      no_count = fd_count-append n streams last ∙ ap (λ k. k + 0) a.no_count;
      once = a.once;
      no_streams = a.no_streams;
    }

configure_all-stdio :
    (n : ℕ) (ss : List Setting) (p : Process)
    → Apart n p.po_fd_stdio p.po_stream_stdio
    → Apart n (configure_all p ss).po_fd_stdio (configure_all p ss).po_stream_stdio
      × (fd_flags n (configure_all p ss).po_fd_stdio ≡ asked n ss (fd_flags n p.po_fd_stdio))
      × ((streams_of (configure_all p ss).po_stream_stdio)
          ≡ (streams_of p.po_stream_stdio) ++ asked_streams ss)
unfolding configure_all configure asked asked_streams streams_of
configure_all-stdio n [] p a = (a, refl, sym (append-nil _))
configure_all-stdio n (cwd path ∷ ss) p a = configure_all-stdio n ss (configure p (cwd path)) a
configure_all-stdio n (flags f ∷ ss) p a = configure_all-stdio n ss (configure p (flags f)) a
configure_all-stdio n (uid id ∷ ss) p a = configure_all-stdio n ss (configure p (uid id)) a
configure_all-stdio n (gid id ∷ ss) p a = configure_all-stdio n ss (configure p (gid id)) a
configure_all-stdio n (stdio_fd m f ∷ ss) p a =
    let (b, c, d) =
      configure_all-stdio n ss (configure p (stdio_fd m f)) (set_fd-Apart n m f _ _ a) in
    (b, c ∙ ap (asked n ss) (fd_flags-set_fd m n f p.po_fd_stdio), d)
configure_all-stdio n (stdio_stream s f ∷ ss) p a =
    let (b, c, d) =
      configure_all-stdio n ss (configure p (stdio_stream s f)) (push-Apart n f s _ _ a) in
    (
      b,
      c,
      d
          ∙ ap (λ l. l ++ asked_streams ss)
              (streams_of-append p.po_stream_stdio (record { flags = f; data_ = stream s } ∷ []))
          ∙ append_assoc (streams_of p.po_stream_stdio) _ (asked_streams ss),
    )

-- Whatever the calls of the setters and their order, `uv_spawn` gets for every descriptor the flags
-- of the last `stdio` call for it, and none where there was no such call; it gets no descriptor
-- twice; and it gets the streams in the order of their calls.
pub stdio-last :
    (n : ℕ) (ss : List Setting)
    → (fd_flags n (options (configure_all new ss)).stdio ≡ asked n ss none)
      × (fd_count n (options (configure_all new ss)).stdio ≤ 1)
      × (streams_of (options (configure_all new ss)).stdio ≡ asked_streams ss)
unfolding options new fd_flags fd_count streams_of
stdio-last n ss =
    let p = configure_all new ss in
    let start : Apart n [] [] = record {
      no_flags = refl;
      no_count = refl;
      once = ground arith;
      no_streams = refl;
    } in
    let (a, b, c) = configure_all-stdio n ss new start in
    (
      fd_flags-append n p.po_fd_stdio p.po_stream_stdio a.no_flags ∙ b,
      ground (arith, fd_count-append n p.po_fd_stdio p.po_stream_stdio, a.once, a.no_count),
      streams_of-append p.po_fd_stdio p.po_stream_stdio ∙ rw a.no_streams c,
    )
