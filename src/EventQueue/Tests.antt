-- ===== src/EventQueue/Tests.antt =====
-- Runs of the event queue, and its theorems at a queue with two events.
use omni_notify_omni_orb.Common.{true, false, some, [], ◌∷◌, ◌≡◌, refl, arith, length, add32, sub32}
use omni_notify_omni_orb.Common.Int.{pos, ◌+ℤ◌, ◌-ℤ◌}
use omni_notify_omni_orb.EventQueue.{
  Event, EventState, EventQueue, new_queue, insert, garbage_collect, next_event, event, make_room,
  enqueue, gc1, link_tail, link_after, sweep, next_of, update,
}
use omni_notify_omni_orb.EventQueue.Order.{
  Wf, tail_at, only, after, Absent, none_left, elsewhere, Accepted, insert-Accepted, insert-drift,
}
use omni_notify_omni_orb.EventQueue.Sweep.{Collected, garbage_collect-Collected, garbage_collect-Wf}
use omni_notify_omni_orb.EventQueue.Reachable.{Reachable-Wf, starts, continues, inserts, collects}
use omni_notify_omni_orb.EventQueue.Reader.{insert-next_event}
use omni_notify_omni_orb.EventQueue.Handed.{handed, next_event-Hands}

-- An event that one thread has processed, and a new one.
abbrev old_event : Event
old_event = record { addr = 1; rcnt = pos 1; stat = EventState.pending; atms = 5 }

abbrev fresh_event : Event
fresh_event = record { addr = 2; rcnt = pos 2; stat = EventState.newborn; atms = 6 }

abbrev incoming : Event
incoming = record { addr = 3; rcnt = pos 1; stat = EventState.newborn; atms = 0 }

abbrev two_events : EventQueue
two_events = record (new_queue 1 60 0 false (pos 0)) {
  events = old_event ∷ fresh_event ∷ [];
  evtail = some 2;
  queue_length = 2;
}

-- The same with a limit of two events.
abbrev full_queue : EventQueue
full_queue = record two_events { max_queue_length = 2 }

setup : Unit {0}
unfolding insert make_room enqueue gc1 link_tail link_after sweep garbage_collect next_event next_of
    update add32 sub32 ◌+ℤ◌ ◌-ℤ◌
setup = tt

two_events-Wf : Wf two_events
two_events-Wf = record {
  tail_ok = tail_at (after refl (only refl));
  length_ok = refl;
  bounded = omega arith;
}

full_queue-Wf : Wf full_queue
full_queue-Wf = record {
  tail_ok = tail_at (after refl (only refl));
  length_ok = refl;
  bounded = omega arith;
}

incoming-Absent : Absent 3 (old_event ∷ fresh_event ∷ [])
incoming-Absent = elsewhere refl (elsewhere refl none_left)

insert-Accepted_example :
    (q' : EventQueue) × (insert 9 incoming two_events ≡ some (true, q'))
    × Accepted 9 incoming two_events q'
insert-Accepted_example =
    insert-Accepted 9 incoming two_events two_events-Wf refl refl refl incoming-Absent (omega arith)

insert-drift_example :
    (q' : EventQueue) × (insert 9 incoming full_queue ≡ some (true, q'))
    × (q'.queue_length ≡ add32 2 1)
    × (length q'.events ≡ 2)
insert-drift_example =
    insert-drift 9 incoming old_event fresh_event [] full_queue full_queue-Wf refl refl refl refl
      refl refl

garbage_collect-Collected_example :
    Collected (old_event ∷ fresh_event ∷ []) (garbage_collect two_events).events
garbage_collect-Collected_example = garbage_collect-Collected two_events

garbage_collect-Wf_example : Wf (garbage_collect two_events)
garbage_collect-Wf_example = garbage_collect-Wf two_events two_events-Wf

-- The processed event is removed.
collect_old : (garbage_collect two_events).events ≡ fresh_event ∷ []
unfolding setup
collect_old = refl

abbrev read_queue : EventQueue
read_queue = record two_events {
  events =
      record old_event { rcnt = pos 0 } ∷ record fresh_event { stat = EventState.pending } ∷ [];
}

next_event-Hands_example :
    next_event (some 1) true two_events
    ≡ some (handed true two_events [] old_event (fresh_event ∷ []))
next_event-Hands_example =
    next_event-Hands true two_events [] old_event (fresh_event ∷ []) refl
      (elsewhere refl none_left, (none_left, tt)) refl

test_read : handed true two_events [] old_event (fresh_event ∷ []) ≡ (event 2, read_queue)
unfolding setup
test_read = refl

insert-next_event_example :
    (q' : EventQueue) × (q'' : EventQueue) × (insert 9 incoming two_events ≡ some (true, q'))
    × (next_event (some 2) true q' ≡ some (event 3, q''))
insert-next_event_example =
    insert-next_event 9 2 incoming true two_events two_events-Wf refl refl refl refl incoming-Absent
      (omega arith)

-- A new queue that took one event.
abbrev one_event : EventQueue
one_event = record (new_queue 1 60 0 false (pos 0)) {
  events = record incoming { rcnt = pos 2; atms = 9 } ∷ [];
  evtail = some 3;
  queue_length = 1;
  announ = 1;
}

insert_first : insert 9 incoming (new_queue 1 60 0 false (pos 0)) ≡ some (true, one_event)
unfolding setup
insert_first = refl

Reachable-Wf_example : Wf (garbage_collect one_event)
Reachable-Wf_example = Reachable-Wf (garbage_collect one_event) (
    continues
      (continues (starts 1 60 false (pos 0))
        (inserts 9 incoming true refl none_left (omega arith) insert_first))
      collects)
