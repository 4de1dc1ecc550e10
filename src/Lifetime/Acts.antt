-- ===== src/Lifetime/Acts.antt =====
-- The ledger of shared pointers over `submit`, and over everything that the user's code does.
use uvw.Prelude.{
  ℕ, zero, suc, ◌+◌, ◌<◌, ◌≡◌, refl, true, Option, none, some, List, [], ◌∷◌, ◌++◌, ℤ, is_zero,
  if◌then◌else◌, length-append, arith, All-append, pos, negsuc, Bool-cases, inl, inr,
}
use uvw.Emitter.{handler}
use uvw.Event.{type_of, EventType-discrete}
use uvw.Resource.{Resource, release, leak_if}
use uvw.Lifetime.{
  closes_reset, ReqKind, connect_req, shutdown_req, write_req, send_req, success, Forward, Request,
  System, share_stream, release_stream, new_request, release_request, submit, Act, take_ref,
  drop_ref, closes, inits, submits, listens, resets, sets_data, act, run_acts,
}
use uvw.Lifetime.Ledger.{
  close_reset-at, IsPending, Books, Ledger, Keeps, Keeps-bind, share_stream-Keeps,
  release_stream-Keeps, release_twice-Keeps, take_ref_at, drop_ref_at, close-at, init-at,
  set_emitter-at, set_data_at,
}

-- Two pointers that a request's listeners captured are in the ledger by the request itself.
append_at :
    (g : ℕ) (s : System) (q : Request) (o : Option (Resource ℕ))
    → Books (suc (suc g)) s o
    → Books g (record s { requests = s.requests ++ q ∷ []; stream = o }) o
append_at g s q none b = absurd (omega arith)
append_at g s q (some r) b = record {
  counted = omega (arith, b.counted, length-append s.requests (q ∷ []));
  alive = b.alive;
  owed = b.owed;
}

append-Ledger :
    (g : ℕ) (s : System) (q : Request)
    → Ledger (suc (suc g)) s
    → IsPending q
    → Ledger g (record s { requests = s.requests ++ q ∷ [] })
append-Ledger g s q l w = record {
  books = append_at g s q s.stream l.books;
  pending = All-append IsPending s.requests (q ∷ []) l.pending (w, tt);
}

new_request-IsPending :
    (k : ReqKind)
    → IsPending (record { kind = k; base = record (new_request k) { self_ptr = true } })
unfolding new_request success type_of handler EventType-discrete
new_request-IsPending connect_req = (refl, refl, refl, refl)
new_request-IsPending shutdown_req = (refl, refl, refl, refl)
new_request-IsPending write_req = (refl, refl, refl, refl)
new_request-IsPending send_req = (refl, refl, refl, refl)

abbrev pub held_request : ReqKind → Resource Forward
held_request k = record (new_request k) { self_ptr = true }

-- When its method returns, a request that libuv refused is destroyed.
pub release-leak_if :
    (rc : ℤ) (k : ReqKind)
    → release (leak_if rc (new_request k)).1 ≡ (if is_zero rc then some (held_request k) else none)
unfolding release leak_if new_request
release-leak_if (pos zero) k = refl
release-leak_if (pos (suc n)) k = refl
release-leak_if (negsuc n) k = refl

release_new-Keeps :
    (g : ℕ) (k : ReqKind) (rc : ℤ) (s : System)
    → Ledger (suc (suc g)) s
    → Keeps g (release_request k (leak_if rc (new_request k)).1 s)
unfolding release_request
release_new-Keeps g k rc s l = elim (Bool-cases (is_zero rc)) [
  | inl ok ↦
      rw (release-leak_if rc k, ok, release_request)
        (append-Ledger g s (record { kind = k; base = held_request k }) l (new_request-IsPending k))
  | inr err ↦ rw (release-leak_if rc k, err, release_request) (release_twice-Keeps g s l)
]

pub submit-Keeps :
    (g : ℕ) (k : ReqKind) (rc : ℤ) (s : System)
    → Ledger g s
    → 0 < g + s.held
    → Keeps g (submit k rc s)
unfolding submit
submit-Keeps g k rc s l h =
    Keeps-bind (suc g) g (share_stream s) _ (share_stream-Keeps g s l h) λ s1 l1.
      Keeps-bind (suc (suc g)) g (share_stream s1) _
        (share_stream-Keeps (suc g) s1 l1 (omega arith))
        λ s2 l2.
          Keeps-bind (suc (suc (suc g))) g (share_stream s2) _
            (share_stream-Keeps (suc (suc g)) s2 l2 (omega arith))
            λ s3 l3.
              Keeps-bind (suc (suc g)) g (release_stream s3) _
                (release_stream-Keeps (suc (suc g)) s3 l3) (release_new-Keeps g k rc)

-- Whatever the user's code does with a handle that it may use, every pointer stays accounted for.
pub act-Keeps : (g : ℕ) (a : Act) (s : System) → Ledger g s → 0 < g + s.held → Keeps g (act a s)
unfolding act
act-Keeps g take_ref s l h = take_ref_at g s s.stream l.books l.pending h
act-Keeps g drop_ref s l h = drop_ref_at g s s.stream l.books l.pending
act-Keeps g closes s l h = close-at g s s.stream l.books l.pending h
act-Keeps g (inits rc) s l h = init-at g rc s s.stream l.books l.pending h
act-Keeps g (closes_reset rc) s l h = close_reset-at g rc s s.stream l.books l.pending h
act-Keeps g (submits k rc) s l h = submit-Keeps g k rc s l h
act-Keeps g (listens t f) s l h = set_emitter-at g _ s s.stream l.books l.pending h
act-Keeps g (resets t) s l h = set_emitter-at g _ s s.stream l.books l.pending h
act-Keeps g (sets_data d) s l h = set_data_at g d s s.stream l.books l.pending h

-- The code of a listener runs while a callback guards the handle.
pub run_acts-Keeps :
    (g : ℕ) (acts : List Act) (s : System) → Ledger (suc g) s → Keeps (suc g) (run_acts acts s)
unfolding run_acts
run_acts-Keeps g [] s l = l
run_acts-Keeps g (a ∷ acts) s l =
    Keeps-bind (suc g) (suc g) (act a s) (run_acts acts) (act-Keeps (suc g) a s l (omega arith))
      (run_acts-Keeps g acts)
