-- ===== src/EventQueue/Handed.antt =====
-- Proofs about the event that next_event hands out (lib/RDIEventQueue.cc), with its reference count and
-- its state.
use mathlib.Core.List.{append_assoc}
use omni_notify_omni_orb.Common.{
  ℕ, Bool, true, false, Option, none, some, List, [], ◌∷◌, ◌++◌, ◌≡◌, refl, sym, ap, ◌∙◌, subst,
  inl, inr, Bool-cases, ◌==◌, ==_iff,
}
use omni_notify_omni_orb.EventQueue.{
  Event, EventQueue, Next, event, update, set_pending, decr_ref_counter, next_of, absent,
  later_event, next_event,
}
use omni_notify_omni_orb.EventQueue.Order.{Absent, none_left, elsewhere}
use omni_notify_omni_orb.EventQueue.Reader.{later_goes}

-- No two events of the list are at one address.
abbrev pub Distinct : List Event → Type 0
Distinct [] = Unit {0}
Distinct (x ∷ xs) = Absent x.addr xs × Distinct xs

-- What a reader of x gets that is followed by these events: the first of them, which is no longer
-- new, while x has one reference less; or nothing, or a wait, where none follows.
abbrev pub handed : Bool → EventQueue → List Event → Event → List Event → Next × EventQueue
handed block q pre x [] = (absent block, q)
handed block q pre x (y ∷ post) =
    (event y.addr, record q { events = pre ++ decr_ref_counter x ∷ set_pending y ∷ post })

not_eq : (a b : ℕ) → (a == b) ≡ false → (b == a) ≡ false
not_eq a b h = elim (Bool-cases (b == a)) [
  | inl e ↦ cc ((==_iff a b).1 (sym ((==_iff b a).0 e)), h)
  | inr e ↦ e
]

Absent-append : (p : ℕ) (xs ys : List Event) → Absent p (xs ++ ys) → Absent p ys
Absent-append p [] ys a = a
Absent-append p (x ∷ xs) ys (elsewhere h a) = Absent-append p xs ys a

Absent-head : (p : ℕ) (x : Event) (xs : List Event) → Absent p (x ∷ xs) → (x.addr == p) ≡ false
Absent-head p x xs (elsewhere h a) = h

Distinct-Absent :
    (pre : List Event) (x : Event) (rest : List Event)
    → Distinct (pre ++ x ∷ rest)
    → Absent x.addr pre × Absent x.addr rest
Distinct-Absent [] x rest (a, d) = (none_left, a)
Distinct-Absent (z ∷ pre) x rest (a, d) =
    let (before, behind) = Distinct-Absent pre x rest d in
    let other = Absent-head z.addr x rest (Absent-append z.addr pre (x ∷ rest) a) in
    (elsewhere (not_eq x.addr z.addr other) before, behind)

Absent-moved :
    (p : ℕ) (pre : List Event) (x y : Event)
    → y.addr ≡ x.addr
    → Absent p (pre ++ x ∷ [])
    → Absent p (pre ++ y ∷ [])
Absent-moved p [] x y e (elsewhere h a) = elsewhere (ap (λ k. k == p) e ∙ h) none_left
Absent-moved p (z ∷ pre) x y e (elsewhere h a) = elsewhere h (Absent-moved p pre x y e a)

update-Absent : (p : ℕ) (f : Event → Event) (xs : List Event) → Absent p xs → update p f xs ≡ xs
unfolding update
update-Absent p f [] a = refl
update-Absent p f (x ∷ xs) (elsewhere h a) = rw (h, update-Absent p f xs a) refl

update-found :
    (p : ℕ) (f : Event → Event) (pre : List Event) (x : Event) (rest : List Event)
    → Absent p pre
    → (x.addr == p) ≡ true
    → Absent p rest
    → update p f (pre ++ x ∷ rest) ≡ pre ++ f x ∷ rest
unfolding update
update-found p f [] x rest a e b = rw (e, update-Absent p f rest b) refl
update-found p f (z ∷ pre) x rest (elsewhere h a) e b =
    rw (h, update-found p f pre x rest a e b) refl

abbrev first_addr : List Event → Option ℕ
first_addr [] = none
first_addr (y ∷ ys) = some y.addr

next_of-found :
    (pre : List Event) (x : Event) (rest : List Event)
    → Absent x.addr pre
    → next_of x.addr (pre ++ x ∷ rest) ≡ some (first_addr rest)
unfolding next_of
next_of-found [] x [] a = rw ((==_iff x.addr x.addr).1 refl) refl
next_of-found [] x (y ∷ rest) a = rw ((==_iff x.addr x.addr).1 refl) refl
next_of-found (z ∷ []) x rest (elsewhere h a) = rw h (next_of-found [] x rest a)
next_of-found (z ∷ w ∷ pre) x rest (elsewhere h a) = rw h (next_of-found (w ∷ pre) x rest a)

-- The two changes of an event that is followed by another one.
handed_events :
    (pre : List Event) (x y : Event) (post : List Event)
    → Distinct (pre ++ x ∷ y ∷ post)
    → update y.addr set_pending (update x.addr decr_ref_counter (pre ++ x ∷ y ∷ post))
      ≡ pre ++ decr_ref_counter x ∷ set_pending y ∷ post
handed_events pre x y post d =
    let (before, behind) = Distinct-Absent pre x (y ∷ post) d in
    let x' = decr_ref_counter x in
    let (before_y, behind_y) =
      Distinct-Absent (pre ++ x ∷ []) y post
        (subst Distinct (sym (append_assoc pre (x ∷ []) (y ∷ post))) d) in
    ap (update y.addr set_pending) (
      update-found x.addr decr_ref_counter pre x (y ∷ post) before ((==_iff x.addr x.addr).1 refl)
        behind
      ∙ sym (append_assoc pre (x' ∷ []) (y ∷ post)))
    ∙ update-found y.addr set_pending (pre ++ x' ∷ []) y post
        (Absent-moved y.addr pre x x' refl before_y) ((==_iff y.addr y.addr).1 refl) behind_y
    ∙ append_assoc pre (x' ∷ []) (set_pending y ∷ post)

-- On a queue that is not shut down and holds no two events at one address, a thread that has
-- processed an event of it gets the event behind it, which is pending if it was new; the processed
-- event has one reference less, and all else is as before. Behind the last event the thread gets
-- nothing, or waits, and nothing changes.
pub next_event-Hands :
    (block : Bool) (q : EventQueue) (pre : List Event) (x : Event) (rest : List Event)
    → q.events ≡ pre ++ x ∷ rest
    → Distinct q.events
    → q.finish ≡ false
    → next_event (some x.addr) block q ≡ some (handed block q pre x rest)
next_event-Hands block q pre x rest e d going =
    let d' : Distinct (pre ++ x ∷ rest) = subst Distinct e d in
    let found =
      ap (next_of x.addr) e ∙ next_of-found pre x rest (Distinct-Absent pre x rest d').0 in
    later_goes x.addr block q (first_addr rest) going found ∙ ap some (after_found rest e d')
  where
    after_found :
        (rest : List Event)
        → q.events ≡ pre ++ x ∷ rest
        → Distinct (pre ++ x ∷ rest)
        → later_event block x.addr q (first_addr rest) ≡ handed block q pre x rest
    after_found [] e d = refl
    after_found (y ∷ post) e d =
        ap (λ xs. (event y.addr, record q { events = xs }))
          (ap (λ xs. update y.addr set_pending (update x.addr decr_ref_counter xs)) e
            ∙ handed_events pre x y post d)
