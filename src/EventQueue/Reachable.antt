-- ===== src/EventQueue/Reachable.antt =====
-- The operations of the event queue as a step relation, in any order, without a limit on the length.
use omni_notify_omni_orb.Common.{
  ℕ, suc, ◌<◌, Bool, true, false, Option, none, some, List, [], ◌∷◌, ◌≡◌, refl, sym, ap, ◌∙◌, subst,
  inl, inr, Bool-cases, Option-cases, length, arith, u32_mod, if_true, some_eq, add32,
}
use omni_notify_omni_orb.Common.Int.{ℤ}
use omni_notify_omni_orb.EventQueue.{
  Event, EventQueue, new_queue, qos_changed, set_finished, insert, next_event, garbage_collect,
  is_one, Next, first_event, later_event, next_of,
}
use omni_notify_omni_orb.EventQueue.Order.{Wf, no_tail, Absent, insert-Accepted}
use omni_notify_omni_orb.EventQueue.Sweep.{garbage_collect-Wf}
use omni_notify_omni_orb.EventQueue.Reader.{next_event-Wf, stops, first_goes, later_goes, dangles}

-- One operation. An event that is inserted is not in the queue and has the reference count 1, and
-- the queue holds fewer than 2^32 - 1 events; a change of the QoS keeps the length without a limit.
pub data Step : EventQueue → EventQueue → Type 0 where
  inserts :
      {q q' : EventQueue} (now : ℕ) (ev : Event) (accepted : Bool)
      → is_one ev.rcnt ≡ true
      → Absent ev.addr q.events
      → suc (length q.events) < u32_mod
      → insert now ev q ≡ some (accepted, q')
      → Step q q'
  reads :
      {q q' : EventQueue} (eprev : Option ℕ) (block : Bool) (n : Next)
      → next_event eprev block q ≡ some (n, q')
      → Step q q'
  collects : {q : EventQueue} → Step q (garbage_collect q)
  changes :
      {q : EventQueue} (gc_period : ℕ) (reject : Bool) (policy : ℤ)
      → Step q (qos_changed gc_period 0 reject policy q)
  finishes : {q : EventQueue} → Step q (set_finished q)

-- What a sequence of operations makes of a new queue.
pub data Reachable : EventQueue → Type 0 where
  starts :
      (num_admin_threads gc_period : ℕ) (reject : Bool) (policy : ℤ)
      → Reachable (new_queue num_admin_threads gc_period 0 reject policy)
  continues : {q q' : EventQueue} → Reachable q → Step q q' → Reachable q'

abbrev Unlimited : EventQueue → Type 0
Unlimited q = Wf q × (q.max_queue_length ≡ 0)

first_limit :
    (block : Bool) (q : EventQueue) (t : Option ℕ) (xs : List Event)
    → (first_event block q t xs).1.max_queue_length ≡ q.max_queue_length
first_limit block q (some p) xs = refl
first_limit block q none [] = refl
first_limit true q none (x ∷ xs) = refl
first_limit false q none (x ∷ xs) = refl

later_limit :
    (block : Bool) (e : ℕ) (q : EventQueue) (n : Option ℕ)
    → (later_event block e q n).1.max_queue_length ≡ q.max_queue_length
later_limit block e q none = refl
later_limit block e q (some p) = refl

abbrev SameLimit : EventQueue → Option (Next × EventQueue) → Type 0
SameLimit q none = Unit {0}
SameLimit q (some r) = r.1.max_queue_length ≡ q.max_queue_length

going-SameLimit :
    (eprev : Option ℕ) (block : Bool) (q : EventQueue)
    → q.finish ≡ false
    → SameLimit q (next_event eprev block q)
going-SameLimit none block q h =
    subst (SameLimit q) (sym (first_goes block q h)) (first_limit block q q.evtail q.events)
going-SameLimit (some p) block q h = elim (Option-cases (next_of p q.events)) [
  | inl e ↦ subst (SameLimit q) (sym (dangles p block q h e)) tt
  | inr (n, e) ↦ subst (SameLimit q) (sym (later_goes p block q n h e)) (later_limit block p q n)
]

next_event-SameLimit :
    (eprev : Option ℕ) (block : Bool) (q : EventQueue) → SameLimit q (next_event eprev block q)
next_event-SameLimit eprev block q = elim (Bool-cases q.finish) [
  | inl h ↦ subst (SameLimit q) (sym (stops eprev block q h)) refl
  | inr h ↦ going-SameLimit eprev block q h
]

-- An insert after the shutdown only counts.
refused :
    (now : ℕ) (ev : Event) (q : EventQueue)
    → q.finish ≡ true
    → insert now ev q ≡ some (false, record q { announ = add32 q.announ 1 })
unfolding insert
refused now ev q h = if_true q.finish _ _ h

collected_limit : (q : EventQueue) → (garbage_collect q).max_queue_length ≡ q.max_queue_length
unfolding garbage_collect
collected_limit q = refl

Step-Unlimited : {q q' : EventQueue} → Step q q' → Unlimited q → Unlimited q'
Step-Unlimited {q = q} {q' = q'} (inserts now ev b one fresh room run) (wf, limit) =
    elim (Bool-cases q.finish) [
      | inl h ↦
          let counted : record q { announ = add32 q.announ 1 } ≡ q' =
            ap (λ r. r.1) (some_eq (sym (refused now ev q h) ∙ run)) in
          subst Unlimited counted
            (record { tail_ok = wf.tail_ok; length_ok = wf.length_ok; bounded = wf.bounded }, limit)
      | inr h ↦
          let (q₁, run₁, acc) = insert-Accepted now ev q wf h limit one fresh room in
          let same : q₁ ≡ q' = ap (λ r. r.1) (some_eq (sym run₁ ∙ run)) in
          subst Unlimited same (acc.well_formed, acc.limit_same ∙ limit)
    ]
Step-Unlimited {q = q} {q' = q'} (reads e block n run) (wf, limit) = (
  next_event-Wf e block q q' n wf run,
  subst (SameLimit q) run (next_event-SameLimit e block q) ∙ limit,
)
Step-Unlimited {q = q} collects (wf, limit) = (garbage_collect-Wf q wf, collected_limit q ∙ limit)
Step-Unlimited (changes p r d) (wf, limit) =
    (record { tail_ok = wf.tail_ok; length_ok = wf.length_ok; bounded = wf.bounded }, refl)
Step-Unlimited finishes (wf, limit) =
    (record { tail_ok = wf.tail_ok; length_ok = wf.length_ok; bounded = wf.bounded }, limit)

Reachable-Unlimited : {q : EventQueue} → Reachable q → Unlimited q
Reachable-Unlimited (starts t p r d) =
    (record { tail_ok = no_tail; length_ok = refl; bounded = omega arith }, refl)
Reachable-Unlimited (continues h s') = Step-Unlimited s' (Reachable-Unlimited h)

-- In every queue that operations in any order make of a new queue without a limit, where the events
-- that are inserted are not in the queue and have the reference count 1, and it stays below 2 ^ 32
-- events, the tail pointer and the length are those of the list.
pub Reachable-Wf : (q : EventQueue) → Reachable q → Wf q
Reachable-Wf q h = (Reachable-Unlimited h).0
