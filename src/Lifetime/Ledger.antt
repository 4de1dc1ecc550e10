-- ===== src/Lifetime/Ledger.antt =====
-- The ledger of shared pointers: every pointer to the handle is the user's, the handle's own, one
-- that a callback guards it with, or one that a request's listener captured.
use uvw.Prelude.{
  ℕ, suc, ◌+◌, ◌-◌, ◌*◌, ◌<◌, ◌≡◌, refl, Bool, true, false, Option, none, some, List, [], ◌∷◌, ℤ,
  ltb, length, ◌>>=◌, to_nat, arith, All, Bool-cases, leb, inl, inr,
}
use uvw.Emitter.{Emitter, handler}
use uvw.Event.{EventType, type_of}
use uvw.Resource.{Resource, release, set_data}
use uvw.Lifetime.{
  close_reset, success, forward, Request, UvState, inert, opened, closing, closed, System,
  share_stream, release_stream, init, close, sets_data, set_emitter, drop_ref_of, act,
}

-- Whether libuv has accepted the handle and not yet called its close callback: the handle then owns
-- itself, also where it is open and nobody has closed it.
abbrev pub is_active : UvState → Bool
is_active inert = false
is_active opened = true
is_active closing = true
is_active closed = false

-- A request that libuv holds is its own only owner, and both its listeners forward to the handle.
abbrev pub IsPending : Request → Type 0
IsPending q =
    (q.base.strong ≡ 1)
    × (q.base.self_ptr ≡ true)
    × (handler EventType.error q.base.emitter ≡ some forward)
    × (handler (type_of (success q.kind)) q.base.emitter ≡ some forward)

-- `g` counts the pointers that are no one's above: guards of callbacks, and captures of a request
-- that is being answered.
pub record Owns (g : ℕ) (s : System) (r : Resource ℕ) : Type 0 where
  pub counted : r.strong ≡ g + s.held + to_nat r.self_ptr + 2 * length s.requests
  pub alive : 0 < r.strong
  pub owed : r.self_ptr ≡ is_active s.uv

pub record Gone (g : ℕ) (s : System) : Type 0 where
  pub unheld : g + s.held ≡ 0
  pub unowed : is_active s.uv ≡ false
  pub idle : s.requests ≡ []

abbrev pub Books : ℕ → System → Option (Resource ℕ) → Type 0
Books g s none = Gone g s
Books g s (some r) = Owns g s r

pub record Ledger (g : ℕ) (s : System) : Type 0 where
  pub books : Books g s s.stream
  pub pending : All IsPending s.requests

-- An operation that uses no destroyed object, and after which the ledger has `g` pointers more.
abbrev pub Keeps : ℕ → Option System → Type 0
Keeps g none = ⊥
Keeps g (some s) = Ledger g s

-- To prove a property of a handle by cases on whether it is there: a system is given by its stream
-- and the rest.
abbrev pub at : Option (Resource ℕ) → System → System
at o s = record s { stream = o }

-- Where someone has a pointer, the handle is there.
Books-at : (g : ℕ) (s : System) (o : Option (Resource ℕ)) → Books g s o → Books g (at o s) o
Books-at g s none b = record { unheld = b.unheld; unowed = b.unowed; idle = b.idle }
Books-at g s (some r) b = record { counted = b.counted; alive = b.alive; owed = b.owed }

share_at :
    (g : ℕ) (s : System) (o : Option (Resource ℕ))
    → Books g s o
    → All IsPending s.requests
    → 0 < g + s.held
    → Keeps (suc g) (share_stream (at o s))
unfolding share_stream
share_at g s none b p h = absurd (omega arith)
share_at g s (some r) b p h = record {
  books = record { counted = omega arith; alive = omega arith; owed = b.owed };
  pending = p;
}

empty_of_length {ℓ} : {A : Type ℓ} (xs : List A) → length xs ≡ 0 → xs ≡ []
empty_of_length [] h = refl
empty_of_length (x ∷ xs) h = absurd (omega arith)

-- Releasing the last pointer destroys the handle, and then nobody else is in the ledger.
release-Books :
    (g : ℕ) (s : System) (r : Resource ℕ)
    → Owns (suc g) s r
    → Books g (at (release r) s) (release r)
unfolding release
release-Books g s r b = elim (Bool-cases (leb r.strong 1)) [
  | inl last ↦ rw last (record {
    unheld = ground arith;
    unowed = ground arith;
    idle = empty_of_length s.requests (ground arith);
  })
  | inr more ↦ rw more (record { counted = ground arith; alive = ground arith; owed = b.owed })
]

release_at :
    (g : ℕ) (s : System) (o : Option (Resource ℕ))
    → Books (suc g) s o
    → All IsPending s.requests
    → Keeps g (release_stream (at o s))
unfolding release_stream
release_at g s none b p = absurd (omega arith)
release_at g s (some r) b p = record { books = release-Books g s r b; pending = p }

pub init-at :
    (g : ℕ) (rc : ℤ) (s : System) (o : Option (Resource ℕ))
    → Books g s o
    → All IsPending s.requests
    → 0 < g + s.held
    → Keeps g (init rc (at o s))
unfolding init
init-at g rc s none b p h = absurd (omega arith)
init-at g rc s (some r) b p h = ground arith

pub close-at :
    (g : ℕ) (s : System) (o : Option (Resource ℕ))
    → Books g s o
    → All IsPending s.requests
    → 0 < g + s.held
    → Keeps g (close (at o s))
unfolding close
close-at g s none b p h = absurd (omega arith)
close-at g s (some r) b p h = ground arith

pub close_reset-at :
    (g : ℕ) (rc : ℤ) (s : System) (o : Option (Resource ℕ))
    → Books g s o
    → All IsPending s.requests
    → 0 < g + s.held
    → Keeps g (close_reset rc (at o s))
unfolding close_reset
close_reset-at g rc s none b p h = absurd (omega arith)
close_reset-at g rc s (some r) b p h = ground arith

-- A handle that libuv knows is there, so it can be closed without a pointer of the user's.
pub close_owed-Keeps :
    (s : System) (o : Option (Resource ℕ))
    → is_active s.uv ≡ true
    → Books 0 s o
    → All IsPending s.requests
    → Keeps 0 (close (at o s))
unfolding close
close_owed-Keeps s none e b p = absurd (ground (arith, e, b.unowed))
close_owed-Keeps s (some r) e b p = ground arith

pub set_emitter-at :
    (g : ℕ) (f : Emitter EventType ℕ → Emitter EventType ℕ) (s : System) (o : Option (Resource ℕ))
    → Books g s o
    → All IsPending s.requests
    → 0 < g + s.held
    → Keeps g (set_emitter f (at o s))
unfolding set_emitter
set_emitter-at g f s none b p h = absurd (omega arith)
set_emitter-at g f s (some r) b p h = record {
  books = record { counted = b.counted; alive = b.alive; owed = b.owed };
  pending = p;
}

pub take_ref_at :
    (g : ℕ) (s : System) (o : Option (Resource ℕ))
    → Books g s o
    → All IsPending s.requests
    → 0 < g + s.held
    → Keeps g (share_stream (at o (record s { held = s.held + 1 })))
unfolding share_stream
take_ref_at g s none b p h = absurd (omega arith)
take_ref_at g s (some r) b p h = record {
  books = record { counted = omega arith; alive = omega arith; owed = b.owed };
  pending = p;
}

pub set_data_at :
    (g : ℕ) (d : Option ℕ) (s : System) (o : Option (Resource ℕ))
    → Books g s o
    → All IsPending s.requests
    → 0 < g + s.held
    → Keeps g (act (sets_data d) (at o s))
unfolding act set_data
set_data_at g d s none b p h = absurd (omega arith)
set_data_at g d s (some r) b p h = record {
  books = record { counted = b.counted; alive = b.alive; owed = b.owed };
  pending = p;
}

pub drop_ref_at :
    (g : ℕ) (s : System) (o : Option (Resource ℕ))
    → Books g s o
    → All IsPending s.requests
    → Keeps g (drop_ref_of (at o s))
unfolding drop_ref_of
drop_ref_at g s o b p = elim (Bool-cases (ltb 0 s.held)) [
  | inl kept ↦
      rw (kept, drop_ref_of)
        (release_at g (record s { held = s.held - 1 }) o (moved o b (ground arith)) p)
  | inr none_left ↦ rw (none_left, drop_ref_of) (record { books = Books-at g s o b; pending = p })
]
  where
    moved :
        (o : Option (Resource ℕ))
        → Books g s o
        → 0 < s.held
        → Books (suc g) (record s { held = s.held - 1 }) o
    moved none b h = absurd (omega arith)
    moved (some r) b h = record { counted = omega arith; alive = b.alive; owed = b.owed }

pub Keeps-bind :
    (g h : ℕ) (m : Option System) (f : System → Option System)
    → Keeps g m
    → ((s : System) → Ledger g s → Keeps h (f s))
    → Keeps h (m >>= f)
Keeps-bind g h none f k step = absurd k
Keeps-bind g h (some s) f k step = step s k

pub share_stream-Keeps :
    (g : ℕ) (s : System) → Ledger g s → 0 < g + s.held → Keeps (suc g) (share_stream s)
share_stream-Keeps g s l h = share_at g s s.stream l.books l.pending h

pub release_stream-Keeps : (g : ℕ) (s : System) → Ledger (suc g) s → Keeps g (release_stream s)
release_stream-Keeps g s l = release_at g s s.stream l.books l.pending

pub release_twice-Keeps :
    (g : ℕ) (s : System) → Ledger (suc (suc g)) s → Keeps g (release_stream s >>= release_stream)
release_twice-Keeps g s l =
    Keeps-bind (suc g) g (release_stream s) release_stream (release_stream-Keeps (suc g) s l)
      (release_stream-Keeps g)
