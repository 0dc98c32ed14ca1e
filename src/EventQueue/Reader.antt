-- ===== src/EventQueue/Reader.antt =====
-- Proofs about next_event (lib/RDIEventQueue.cc).
use omni_notify_omni_orb.Common.{
  ℕ, suc, ◌<◌, Bool, true, false, Option, none, some, List, [], ◌∷◌, ◌++◌, ◌≡◌, refl, sym, ap, ◌∙◌,
  subst, inl, inr, Bool-cases, Option-cases, ◌==◌, length, arith, u32_mod, if◌then◌else◌, if_true,
  if_false, ◌>>=◌,
}
use omni_notify_omni_orb.EventQueue.{
  Event, EventQueue, insert, arrived, is_one, is_newborn, Next, nothing, event, update, set_pending,
  decr_ref_counter, next_of, hand_out, first_event, later_event, next_event,
}
use omni_notify_omni_orb.EventQueue.Order.{
  IsLast, only, after, TailOf, no_tail, tail_at, Wf, Absent, insert-Accepted,
}

-- A change of an event that leaves its address.
module _ (f : Event → Event) (same : (x : Event) → (f x).addr ≡ x.addr) where
  changed_addr : (p : ℕ) (x : Event) → (if x.addr == p then f x else x).addr ≡ x.addr
  changed_addr p x = elim (Bool-cases (x.addr == p)) [ inl h ↦ rw h (same x) | inr h ↦ rw h refl ]

  update-IsLast : (p t : ℕ) (xs : List Event) → IsLast t xs → IsLast t (update p f xs)
  unfolding update
  update-IsLast p t [] l = elim l [ ]
  update-IsLast p t (x ∷ []) (only h) = only (ap (λ a. a == t) (changed_addr p x) ∙ h)
  update-IsLast p t (x ∷ xs) (after h l) =
      after (ap (λ a. a == t) (changed_addr p x) ∙ h) (update-IsLast p t xs l)

  update-TailOf : (p : ℕ) (t : Option ℕ) (xs : List Event) → TailOf t xs → TailOf t (update p f xs)
  unfolding update
  update-TailOf p none [] no_tail = no_tail
  update-TailOf p none (_ ∷ _) l = elim l [ ]
  update-TailOf p (some t) xs (tail_at l) = tail_at (update-IsLast p t xs l)

  length-update : (p : ℕ) (xs : List Event) → length (update p f xs) ≡ length xs
  unfolding update
  length-update p [] = refl
  length-update p (x ∷ xs) = ap suc (length-update p xs)

  update-Wf : (p : ℕ) (q : EventQueue) → Wf q → Wf (record q { events = update p f q.events })
  update-Wf p q wf = record {
    tail_ok = update-TailOf p q.evtail q.events wf.tail_ok;
    length_ok = wf.length_ok ∙ sym (length-update p q.events);
    bounded = omega (arith, wf.bounded, length-update p q.events);
  }

pub pending_addr : (x : Event) → (set_pending x).addr ≡ x.addr
pending_addr x = elim (Bool-cases (is_newborn x.stat)) [ inl h ↦ rw h refl | inr h ↦ rw h refl ]

hand_out-Wf : (p : ℕ) (q : EventQueue) → Wf q → Wf (hand_out p q).1
hand_out-Wf p q wf = update-Wf set_pending pending_addr p q wf

first_event-Wf :
    (block : Bool) (q : EventQueue) (t : Option ℕ) (xs : List Event)
    → Wf q
    → Wf (first_event block q t xs).1
first_event-Wf block q (some p) xs wf = hand_out-Wf p q wf
first_event-Wf block q none [] wf = wf
first_event-Wf true q none (x ∷ xs) wf = hand_out-Wf x.addr q wf
first_event-Wf false q none (x ∷ xs) wf = wf

later_event-Wf :
    (block : Bool) (e : ℕ) (q : EventQueue) (n : Option ℕ) → Wf q → Wf (later_event block e q n).1
later_event-Wf block e q none wf = wf
later_event-Wf block e q (some p) wf =
    hand_out-Wf p (record q { events = update e decr_ref_counter q.events })
      (update-Wf decr_ref_counter (λ x. refl) e q wf)

abbrev WfIfAny : Option (Next × EventQueue) → Type 0
WfIfAny none = Unit {0}
WfIfAny (some r) = Wf r.1

pub stops :
    (eprev : Option ℕ) (block : Bool) (q : EventQueue)
    → q.finish ≡ true
    → next_event eprev block q ≡ some (nothing, q)
unfolding next_event
stops none block q h = if_true q.finish _ _ h
stops (some p) block q h = if_true q.finish _ _ h

pub first_goes :
    (block : Bool) (q : EventQueue)
    → q.finish ≡ false
    → next_event none block q ≡ some (first_event block q q.evtail q.events)
unfolding next_event
first_goes block q h = if_false q.finish _ _ h

pub later_goes :
    (p : ℕ) (block : Bool) (q : EventQueue) (n : Option ℕ)
    → q.finish ≡ false
    → next_of p q.events ≡ some n
    → next_event (some p) block q ≡ some (later_event block p q n)
unfolding next_event
later_goes p block q n h e =
    if_false q.finish _ _ h ∙ ap (λ m. m >>= λ n. some (later_event block p q n)) e

pub dangles :
    (p : ℕ) (block : Bool) (q : EventQueue)
    → q.finish ≡ false
    → next_of p q.events ≡ none
    → next_event (some p) block q ≡ none
unfolding next_event
dangles p block q h e =
    if_false q.finish _ _ h ∙ ap (λ m. m >>= λ n. some (later_event block p q n)) e

goes-WfIfAny :
    (eprev : Option ℕ) (block : Bool) (q : EventQueue)
    → Wf q
    → q.finish ≡ false
    → WfIfAny (next_event eprev block q)
goes-WfIfAny none block q wf h =
    subst WfIfAny (sym (first_goes block q h)) (first_event-Wf block q q.evtail q.events wf)
goes-WfIfAny (some p) block q wf h = elim (Option-cases (next_of p q.events)) [
  | inl e ↦ subst WfIfAny (sym (dangles p block q h e)) tt
  | inr (n, e) ↦ subst WfIfAny (sym (later_goes p block q n h e)) (later_event-Wf block p q n wf)
]

next_event-WfIfAny :
    (eprev : Option ℕ) (block : Bool) (q : EventQueue) → Wf q → WfIfAny (next_event eprev block q)
next_event-WfIfAny eprev block q wf = elim (Bool-cases q.finish) [
  | inl h ↦ subst WfIfAny (sym (stops eprev block q h)) wf
  | inr h ↦ goes-WfIfAny eprev block q wf h
]

-- next_event keeps the tail pointer and the length in agreement with the list, whatever it gives.
pub next_event-Wf :
    (eprev : Option ℕ) (block : Bool) (q q' : EventQueue) (n : Next)
    → Wf q
    → next_event eprev block q ≡ some (n, q')
    → Wf q'
next_event-Wf eprev block q q' n wf run = subst WfIfAny run (next_event-WfIfAny eprev block q wf)

tail_IsLast : (p : ℕ) (xs : List Event) → TailOf (some p) xs → IsLast p xs
tail_IsLast p xs (tail_at l) = l

next_of-last :
    (p : ℕ) (ev : Event) (xs : List Event)
    → IsLast p xs
    → next_of p (xs ++ (ev ∷ [])) ≡ some (some ev.addr)
unfolding next_of
next_of-last p ev [] l = elim l [ ]
next_of-last p ev (x ∷ []) (only h) = rw h refl
next_of-last p ev (x ∷ []) (after h l) = elim l [ ]
next_of-last p ev (x ∷ y ∷ xs) (after h l) = rw h (next_of-last p ev (y ∷ xs) l)

-- On a well-formed queue that is not shut down and has no limit, where insert takes an event that is
-- not in it and has the reference count 1, and the queue stays below 2 ^ 32 events: insert accepts
-- the event, and a thread that has processed the last event before it gets it from next_event.
pub insert-next_event :
    (now p : ℕ) (ev : Event) (block : Bool) (q : EventQueue)
    → Wf q
    → q.evtail ≡ some p
    → q.finish ≡ false
    → q.max_queue_length ≡ 0
    → is_one ev.rcnt ≡ true
    → Absent ev.addr q.events
    → suc (length q.events) < u32_mod
    → (q' : EventQueue) × (q'' : EventQueue) × (insert now ev q ≡ some (true, q'))
      × (next_event (some p) block q' ≡ some (event ev.addr, q''))
insert-next_event now p ev block q wf at going unlimited one fresh room =
    let (q', run, acc) = insert-Accepted now ev q wf going unlimited one fresh room in
    let last = tail_IsLast p q.events (subst (λ t. TailOf t q.events) at wf.tail_ok) in
    let found : next_of p q'.events ≡ some (some ev.addr) =
      ap (next_of p) acc.at_end ∙ next_of-last p (arrived now q ev) q.events last in
    (
      q',
      (later_event block p q' (some ev.addr)).1,
      run,
      later_goes p block q' (some ev.addr) (acc.finish_same ∙ going) found,
    )
