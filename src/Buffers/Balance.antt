-- ===== src/Buffers/Balance.antt =====
-- Each time that a buffer is handed over it is freed once, taken once, or owned by a pending request.
use uvw.Prelude.{
  ℕ, ◌+◌, ◌≡◌, true, Option, none, some, List, [], ◌∷◌, ◌==◌, if◌then◌else◌, All, occurs,
}
use uvw.Buffers.{
  Data, WriteReq, Buffers, Op, writes_owned, writes_borrowed, sends_owned, sends_borrowed, tries,
  tries_borrowed, answered, reads,
}

unfoldable owned_once : ℕ → Data → ℕ
owned_once a d = if d.deletes then (if a == d.base then 1 else 0) else 0

-- How many pending requests own the buffer at `a`.
unfoldable pub owned : ℕ → List WriteReq → ℕ
unfolding owned_once
owned a [] = 0
owned a (q ∷ qs) = owned_once a q.data_ + owned a qs

-- How often the code is handed the buffer at `a` to own: by a `std::unique_ptr`, or by libuv for what
-- it has read.
unfoldable pub handed : ℕ → List Op → ℕ
handed a [] = 0
handed a (writes_owned d len rc ∷ os) = (if a == d then 1 else 0) + handed a os
handed a (sends_owned d len rc ∷ os) = (if a == d then 1 else 0) + handed a os
handed a (tries d ∷ os) = (if a == d then 1 else 0) + handed a os
handed a (reads nread base takes ∷ os) = (if a == base then 1 else 0) + handed a os
handed a (writes_borrowed d len rc ∷ os) = handed a os
handed a (sends_borrowed d len rc ∷ os) = handed a os
handed a (tries_borrowed d ∷ os) = handed a os
handed a (answered i ∷ os) = handed a os

-- A pending request has only its own pointer.
abbrev IsHeld : WriteReq → Type 0
IsHeld q = (q.object.strong ≡ 1) × (q.object.self_ptr ≡ true)

-- The buffers at `a` that the code owns, has freed, or has given to a listener.
unfoldable total : ℕ → Buffers → ℕ
unfolding occurs owned
total a s = occurs a s.freed + occurs a s.taken + owned a s.pending

-- What an operation leaves: libuv holds every pending request, and `n` buffers at `a` are accounted
-- for.
abbrev Accounts : ℕ → ℕ → Buffers → Type 0
Accounts a n s = All IsHeld s.pending × (total a s ≡ n)

-- One of the pending requests, and the others.
abbrev IsTaken : ℕ → List WriteReq → Option (WriteReq × List WriteReq) → Type 0
IsTaken a qs none = Unit
IsTaken a qs (some (q, rest)) =
    IsHeld q × All IsHeld rest × (owned a qs ≡ owned_once a q.data_ + owned a rest)
