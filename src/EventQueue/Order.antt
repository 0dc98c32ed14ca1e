-- ===== src/EventQueue/Order.antt =====
-- The agreement of the tail pointer and the length with the list, and proofs about insert
-- (lib/RDIEventQueue.cc).
use omni_notify_omni_orb.Common.{
  ℕ, suc, ◌+◌, ◌<◌, true, false, Option, none, some, List, [], ◌∷◌, ◌++◌, ◌≡◌, refl, ap, ◌∙◌, subst,
  ◌==◌, length, length-append, arith, add32, add32_small, u32_mod,
}
use omni_notify_omni_orb.EventQueue.{
  Event, EventQueue, link_after, link_tail, gc1, make_room, enqueue, insert, arrived, is_full,
  is_one, more_than_one, is_newborn,
}

-- The last event of the list is at address p, and no other event is.
pub data IsLast : ℕ → List Event → Type 0 where
  only : {p : ℕ} {x : Event} → (x.addr == p) ≡ true → IsLast p (x ∷ [])
  after :
      {p : ℕ} {x : Event} {xs : List Event}
      → (x.addr == p) ≡ false
      → IsLast p xs
      → IsLast p (x ∷ xs)

-- The tail pointer is that of the list.
pub data TailOf : Option ℕ → List Event → Type 0 where
  no_tail : TailOf none []
  tail_at : {p : ℕ} {xs : List Event} → IsLast p xs → TailOf (some p) xs

-- The tail pointer and the length are those of the list.
pub record Wf (q : EventQueue) : Type 0 where
  pub tail_ok : TailOf q.evtail q.events
  pub length_ok : q.queue_length ≡ length q.events
  pub bounded : length q.events < u32_mod

-- No event of the list is at address p.
pub data Absent : ℕ → List Event → Type 0 where
  none_left : {p : ℕ} → Absent p []
  elsewhere :
      {p : ℕ} {x : Event} {xs : List Event}
      → (x.addr == p) ≡ false
      → Absent p xs
      → Absent p (x ∷ xs)

link_after-IsLast :
    (p : ℕ) (ev : Event) (xs : List Event)
    → IsLast p xs
    → link_after p ev xs ≡ some (xs ++ (ev ∷ []))
unfolding link_after
link_after-IsLast p ev [] l = elim l [ ]
link_after-IsLast p ev (x ∷ []) (only h) = rw h refl
link_after-IsLast p ev (x ∷ xs) (after h l) = rw (h, link_after-IsLast p ev xs l) refl

link_tail-TailOf :
    (t : Option ℕ) (ev : Event) (xs : List Event)
    → TailOf t xs
    → link_tail t ev xs ≡ some (xs ++ (ev ∷ []))
unfolding link_tail
link_tail-TailOf none ev [] no_tail = refl
link_tail-TailOf none ev (_ ∷ _) l = elim l [ ]
link_tail-TailOf (some p) ev xs (tail_at l) = link_after-IsLast p ev xs l

IsLast-snoc :
    (ev : Event) (p : ℕ) (xs : List Event)
    → (ev.addr == p) ≡ true
    → Absent p xs
    → IsLast p (xs ++ (ev ∷ []))
IsLast-snoc ev p [] h none_left = only h
IsLast-snoc ev p (x ∷ xs) h (elsewhere ne a) = after ne (IsLast-snoc ev p xs h a)

TailOf-tail :
    (t : Option ℕ) (x y : Event) (xs : List Event) → TailOf t (x ∷ y ∷ xs) → TailOf t (y ∷ xs)
TailOf-tail none x y xs l = elim l [ ]
TailOf-tail (some p) x y xs (tail_at (after h l)) = tail_at l

==_refl : (n : ℕ) → (n == n) ≡ true
==_refl n = ground arith

-- What an accepted event changes.
pub record Accepted (now : ℕ) (ev : Event) (q q' : EventQueue) : Type 0 where
  pub well_formed : Wf q'
  pub at_end : q'.events ≡ q.events ++ (arrived now q ev ∷ [])
  pub finish_same : q'.finish ≡ q.finish
  pub limit_same : q'.max_queue_length ≡ q.max_queue_length

-- insert on a well-formed queue that is not shut down and has no limit, of an event that is not in
-- it and has the reference count 1, where the queue stays below 2 ^ 32 events: it accepts the event,
-- at the end of the list, and keeps the tail pointer and the length in agreement with the list.
pub insert-Accepted :
    (now : ℕ) (ev : Event) (q : EventQueue)
    → Wf q
    → q.finish ≡ false
    → q.max_queue_length ≡ 0
    → is_one ev.rcnt ≡ true
    → Absent ev.addr q.events
    → suc (length q.events) < u32_mod
    → (q' : EventQueue) × (insert now ev q ≡ some (true, q')) × Accepted now ev q q'
unfolding insert make_room enqueue
insert-Accepted now ev q wf going unlimited one fresh room =
    let linked = link_tail-TailOf q.evtail (arrived now q ev) q.events wf.tail_ok in
    let q' : EventQueue = record q {
      events = q.events ++ (arrived now q ev ∷ []);
      evtail = some ev.addr;
      queue_length = add32 q.queue_length 1;
      announ = add32 q.announ 1;
    } in
    let longer : length q'.events ≡ length q.events + 1 = length-append q.events _ in
    (
      q',
      rw (going, unlimited, one, linked) refl,
      record {
        well_formed = record {
          tail_ok =
              tail_at (IsLast-snoc (arrived now q ev) ev.addr q.events (==_refl ev.addr) fresh);
          length_ok =
              add32_small q.queue_length 1 (omega (arith, room, wf.length_ok))
              ∙ omega (arith, longer, wf.length_ok);
          bounded = omega (arith, longer, room);
        };
        at_end = refl;
        finish_same = refl;
        limit_same = refl;
      },
    )

-- An insert of an event with the reference count 1 into a full well-formed queue of at least two
-- events that is not shut down, whose head has no more than one reference and is not new: the queue
-- makes room by removing its head, but counts the length up for the new event and never down for the
-- removed one, so the length is one more and the list is as long as before.
pub insert-drift :
    (now : ℕ) (ev x y : Event) (xs : List Event) (q : EventQueue)
    → Wf q
    → q.finish ≡ false
    → is_full q ≡ true
    → q.events ≡ x ∷ y ∷ xs
    → more_than_one x.rcnt ≡ false
    → is_newborn x.stat ≡ false
    → is_one ev.rcnt ≡ true
    → (q' : EventQueue) × (insert now ev q ≡ some (true, q'))
      × (q'.queue_length ≡ add32 q.queue_length 1)
      × (length q'.events ≡ length q.events)
unfolding insert make_room enqueue gc1
insert-drift now ev x y xs q wf going full shape few old one =
    let rest = y ∷ xs in
    let tail : TailOf q.evtail rest =
      TailOf-tail q.evtail x y xs (subst (TailOf q.evtail) shape wf.tail_ok) in
    let linked = link_tail-TailOf q.evtail (arrived now q ev) rest tail in
    let longer : length (rest ++ (arrived now q ev ∷ [])) ≡ length rest + 1 =
      length-append rest _ in
    let was : length q.events ≡ suc (length rest) = ap length shape in
    (
      record q {
        events = rest ++ (arrived now q ev ∷ []);
        evtail = some ev.addr;
        queue_length = add32 q.queue_length 1;
        announ = add32 q.announ 1;
        nmdrop = add32 q.nmdrop 1;
      },
      rw (going, full, shape, few, old, one, linked) refl,
      refl,
      omega (arith, longer, was),
    )
