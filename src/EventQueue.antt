-- ===== src/EventQueue.antt =====
-- RDI_EventQueue, the global queue of an event channel (lib/RDIEventQueue.cc,
-- include/RDIEventQueue.h), with what it reads of RDI_StructuredEvent (include/RDIEvent.h). Each
-- operation is one step, as under `_oplock`. An event's address is a number; the list that starts at
-- `_evhead` is a list of events, so a pointer to an event that is not in it dangles. Left out: the
-- condition variables and `_numblk` (a blocked call is tried again), the clock, which is an argument.
pub mod Order
pub mod Sweep
pub mod Reader
pub mod Handed
pub mod Reachable
mod Tests
use omni_notify_omni_orb.Common.{
  ℕ, zero, suc, ◌+◌, Bool, true, false, not, ◌&&◌, ◌||◌, Option, none, some, List, [], ◌∷◌, map,
  ◌==◌, leb, check, ◌>>=◌, ◌>>◌, if◌then◌else◌, add32, sub32,
}
use omni_notify_omni_orb.Common.Int.{ℤ, pos, ◌+ℤ◌, ◌-ℤ◌}

-- RDI_StructuredEvent::state_t
pub data EventState : Type 0 where
  invalid newborn dispatched pending : EventState

pub record Event : Type 0 where
  pub addr : ℕ
  pub rcnt : ℤ
  pub stat : EventState
  pub atms : ℕ

pub record EventQueue : Type 0 where
  pub events : List Event
  pub evtail : Option ℕ
  pub queue_length : ℕ
  pub announ : ℕ
  pub nmdrop : ℕ
  pub numreg : ℕ
  pub max_queue_length : ℕ
  pub queue_gc_period : ℕ
  pub discard_policy : ℤ
  pub reject_new_events : Bool
  pub gcdone : Bool
  pub finish : Bool

-- The constructor.
abbrev pub new_queue : ℕ → ℕ → ℕ → Bool → ℤ → EventQueue
new_queue num_admin_threads gc_period max_length reject policy = record {
  events = [];
  evtail = none;
  queue_length = 0;
  announ = 0;
  nmdrop = 0;
  numreg = num_admin_threads;
  max_queue_length = max_length;
  queue_gc_period = gc_period;
  discard_policy = policy;
  reject_new_events = reject;
  gcdone = true;
  finish = false;
}

abbrev pub qos_changed : ℕ → ℕ → Bool → ℤ → EventQueue → EventQueue
qos_changed gc_period max_length reject policy q = record q {
  max_queue_length = max_length;
  queue_gc_period = gc_period;
  discard_policy = policy;
  reject_new_events = reject;
}

abbrev pub set_finished : EventQueue → EventQueue
set_finished q = record q { finish = true }

abbrev pub is_newborn : EventState → Bool
is_newborn EventState.newborn = true
is_newborn _ = false

-- `ref_counter() == 1` and `ref_counter() > 1`
abbrev pub is_one : ℤ → Bool
is_one (pos n) = n == 1
is_one _ = false

abbrev pub more_than_one : ℤ → Bool
more_than_one (pos n) = leb 2 n
more_than_one _ = false

-- `p->_next = event` with `event->_next = 0`; none where p dangles.
unfoldable pub link_after : ℕ → Event → List Event → Option (List Event)
link_after p ev [] = none
link_after p ev (x ∷ xs) =
    let rest = link_after p ev xs >>= λ r. some (x ∷ r) in
    if x.addr == p then some (x ∷ ev ∷ []) else rest

unfoldable pub link_tail : Option ℕ → Event → List Event → Option (List Event)
unfolding link_after
link_tail none ev xs = some (ev ∷ [])
link_tail (some p) ev xs = link_after p ev xs

-- gc1: whether the head was removed; none where there is no head.
unfoldable pub gc1 : List Event → EventQueue → Option (Bool × EventQueue)
gc1 [] q = none
gc1 (x ∷ xs) q =
    if more_than_one x.rcnt || is_newborn x.stat
    then some (false, q)
    else some (true, record q { events = xs; nmdrop = add32 q.nmdrop 1 })

-- It finds no space.
abbrev pub apply_discard_policy : EventQueue → Bool
apply_discard_policy q = false

abbrev pub is_full : EventQueue → Bool
is_full q = not (q.max_queue_length == 0) && leb q.max_queue_length q.queue_length

-- Whether there is room for one more event.
unfoldable pub make_room : EventQueue → Option (Bool × EventQueue)
unfolding gc1
make_room q =
    if is_full q
    then (gc1 q.events q >>= λ (freed, q').
        if freed
        then some (true, q')
        else if q'.reject_new_events
        then some (false, q')
        else some (apply_discard_policy q', q'))
    else some (true, q)

-- The event as it enters the queue: its arrival time, and a count for each thread.
abbrev pub arrived : ℕ → EventQueue → Event → Event
arrived now q ev = record ev { atms = now; rcnt = ev.rcnt +ℤ pos q.numreg }

unfoldable pub enqueue : ℕ → Event → EventQueue → Option EventQueue
unfolding link_tail
enqueue now ev q = do
  check (is_one ev.rcnt)
  xs ← link_tail q.evtail (arrived now q ev) q.events
  some (record q { events = xs; evtail = some ev.addr; queue_length = add32 q.queue_length 1 })

-- insert: whether the event was accepted; none where an assertion fails or a pointer dangles.
unfoldable pub insert : ℕ → Event → EventQueue → Option (Bool × EventQueue)
unfolding make_room enqueue
insert now ev q =
    let counted = record q { announ = add32 q.announ 1 } in
    if q.finish
    then some (false, counted)
    else (make_room counted >>= λ (room, q').
        if room then (enqueue now ev q' >>= λ q''. some (true, q'')) else some (false, q'))

-- What next_event gives: no event, an event, or the caller waits.
pub data Next : Type 0 where
  nothing waits : Next
  event : ℕ → Next

-- The event at an address is changed.
unfoldable pub update : ℕ → (Event → Event) → List Event → List Event
update p f [] = []
update p f (x ∷ xs) = (if x.addr == p then f x else x) ∷ update p f xs

abbrev pub set_pending : Event → Event
set_pending x = if is_newborn x.stat then record x { stat = EventState.pending } else x

abbrev pub decr_ref_counter : Event → Event
decr_ref_counter x = record x { rcnt = x.rcnt -ℤ pos 1 }

-- `p->_next`; none where p dangles.
unfoldable pub next_of : ℕ → List Event → Option (Option ℕ)
next_of p [] = none
next_of p (x ∷ []) = if x.addr == p then some none else none
next_of p (x ∷ y ∷ xs) =
    let rest = next_of p (y ∷ xs) in if x.addr == p then some (some y.addr) else rest

abbrev pub hand_out : ℕ → EventQueue → Next × EventQueue
hand_out p q = (event p, record q { events = update p set_pending q.events })

abbrev pub absent : Bool → Next
absent block = if block then waits else nothing

-- The first call: the tail, or the head after a wait.
abbrev pub first_event : Bool → EventQueue → Option ℕ → List Event → Next × EventQueue
first_event block q (some p) xs = hand_out p q
first_event block q none [] = (absent block, q)
first_event block q none (x ∷ xs) = if block then hand_out x.addr q else (nothing, q)

abbrev pub later_event : Bool → ℕ → EventQueue → Option ℕ → Next × EventQueue
later_event block eprev q none = (absent block, q)
later_event block eprev q (some p) =
    hand_out p (record q { events = update eprev decr_ref_counter q.events })

-- next_event
unfoldable pub next_event : Option ℕ → Bool → EventQueue → Option (Next × EventQueue)
unfolding next_of update
next_event none block q =
    if q.finish then some (nothing, q) else some (first_event block q q.evtail q.events)
next_event (some eprev) block q =
    if q.finish
    then some (nothing, q)
    else (next_of eprev q.events >>= λ n. some (later_event block eprev q n))

-- The loop of garbage_collect over the whole queue, with `cursize`: what is left and `evncntr`.
unfoldable pub sweep : ℕ → List Event → List Event × ℕ
sweep cursize [] = ([], 0)
sweep cursize (x ∷ xs) =
    let left = sub32 cursize 1 in
    let (rest, evncntr) = sweep left xs in
    if (left == 0) || is_newborn x.stat
    then (x ∷ xs, 0)
    else if is_one x.rcnt
    then (rest, suc evncntr)
    else (x ∷ rest, evncntr)

-- One round of garbage_collect.
unfoldable pub garbage_collect : EventQueue → EventQueue
unfolding sweep
garbage_collect q =
    let (rest, evncntr) = sweep q.queue_length q.events in
    record q { events = rest; queue_length = sub32 q.queue_length evncntr; gcdone = true }
