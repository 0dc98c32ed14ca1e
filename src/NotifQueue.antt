-- ===== src/NotifQueue.antt =====
-- RDINotifQueue, the queue of a consumer's proxy, and RDIPriorityQueue below it
-- (lib/RDINotifQueue.cc, include/RDINotifQueue.h). An event pointer is an Option, none for NULL; a
-- pointer that is read while it is NULL gives none as the result. `_entryQueue` is a list, front
-- first. The fields of the former heap (`_num_items`, `_curr_size`, `_entry`) are not read.
pub mod Fifo
mod Tests
use omni_notify_omni_orb.Common.{
  ℕ, zero, suc, ◌+◌, ◌-◌, ◌%◌, Bool, true, false, not, ◌&&◌, ◌||◌, Option, none, some, List, [],
  ◌∷◌, ◌++◌, ◌==◌, ltb, length, ◌>>=◌, if◌then◌else◌, add64, u64_mod,
}
use omni_notify_omni_orb.Common.Int.{ℤ, pos, negsuc}

-- The order policies of CosNotification, which are five different constants.
pub data OrderPolicy : Type 0 where
  any_order fifo_order priority_order deadline_order lifo_order : OrderPolicy

abbrev pub policy_number : OrderPolicy → ℕ
policy_number OrderPolicy.any_order = 0
policy_number OrderPolicy.fifo_order = 1
policy_number OrderPolicy.priority_order = 2
policy_number OrderPolicy.deadline_order = 3
policy_number OrderPolicy.lifo_order = 4

abbrev pub same_policy : OrderPolicy → OrderPolicy → Bool
same_policy p r = policy_number p == policy_number r

-- What _sort_val reads of an event: its arrival time, and the variable header's Timeout and Priority
-- where they are there with the type that is looked for.
pub record QueuedEvent : Type 0 where
  pub addr : ℕ
  pub timestamp : ℕ
  pub timeout : Option ℕ
  pub prio : Option ℤ

pub record PriorityQueue : Type 0 where
  pub entry_queue : List QueuedEvent
  pub pri_lowest_first : Bool
  pub sec_lowest_first : Bool

abbrev pub first_of : List QueuedEvent → Option QueuedEvent
first_of [] = none
first_of (x ∷ xs) = some x

abbrev pub rest_of : List QueuedEvent → List QueuedEvent
rest_of [] = []
rest_of (x ∷ xs) = xs

-- RDIPriorityQueue::get_pri_head and get_sec_head
abbrev pub get_pri_head : PriorityQueue → Option QueuedEvent
get_pri_head q = first_of q.entry_queue

-- RDIPriorityQueue::remove_pri_head and remove_sec_head
abbrev pub remove_pri_head : PriorityQueue → Option QueuedEvent × PriorityQueue
remove_pri_head q = (first_of q.entry_queue, record q { entry_queue = rest_of q.entry_queue })

-- RDIPriorityQueue::insert
abbrev pub insert_entry : QueuedEvent → ℕ → ℕ → PriorityQueue → PriorityQueue
insert_entry ev prival secval q = record q { entry_queue = q.entry_queue ++ (ev ∷ []) }

-- The loop of get_event, i - 1 rounds: the last event that it took off.
unfoldable pub take_off : ℕ → Option QueuedEvent → List QueuedEvent → Option QueuedEvent
take_off zero entry xs = entry
take_off (suc n) entry xs = take_off n (first_of xs) (rest_of xs)

-- RDIPriorityQueue::get_event
unfoldable pub get_event : ℕ → PriorityQueue → Option QueuedEvent
unfolding take_off
get_event i q =
    if ltb (length q.entry_queue) i || ltb i 1 then none else take_off (i - 1) none q.entry_queue

pub record NotifQueue : Type 0 where
  pub def_timeout : ℕ
  pub def_priority : ℤ
  pub order_policy : OrderPolicy
  pub discard_policy : OrderPolicy
  pub queue : PriorityQueue

-- RDINotifQueue(), with CosN::DefaultPriority as a parameter.
abbrev pub new_queue : ℤ → NotifQueue
new_queue default_priority = record {
  def_timeout = 0;
  def_priority = default_priority;
  order_policy = OrderPolicy.fifo_order;
  discard_policy = OrderPolicy.fifo_order;
  queue = record { entry_queue = []; pri_lowest_first = true; sec_lowest_first = true };
}

-- The conversion of a CORBA::Short to a CORBA::ULongLong.
abbrev pub to_u64 : ℤ → ℕ
to_u64 (pos n) = n % u64_mod
to_u64 (negsuc n) = u64_mod - 1 - n % u64_mod

abbrev pub get_or_default : {A : Type 0} → A → Option A → A
get_or_default d none = d
get_or_default d (some x) = x

-- _sort_val
unfoldable pub sort_val : NotifQueue → OrderPolicy → QueuedEvent → ℕ
sort_val q OrderPolicy.any_order ev = ev.timestamp
sort_val q OrderPolicy.fifo_order ev = ev.timestamp
sort_val q OrderPolicy.deadline_order ev =
    add64 ev.timestamp (get_or_default q.def_timeout ev.timeout)
sort_val q _ ev = to_u64 (get_or_default q.def_priority ev.prio)

-- RDINotifQueue::insert
unfoldable pub insert : QueuedEvent → NotifQueue → NotifQueue
unfolding sort_val
insert ev q =
    let sortval = sort_val q q.order_policy ev in
    if same_policy q.order_policy q.discard_policy
    then record q { queue = insert_entry ev sortval sortval q.queue }
    else record q { queue = insert_entry ev sortval (sort_val q q.discard_policy ev) q.queue }

-- RDINotifQueue::remove_pri_head and remove_sec_head
abbrev pub remove_head : NotifQueue → Option QueuedEvent × NotifQueue
remove_head q = let (ev, rest) = remove_pri_head q.queue in (ev, record q { queue = rest })

-- What qos_changed reads of RDI_NotifQoS.
pub record NotifQos : Type 0 where
  pub order : OrderPolicy
  pub discard : OrderPolicy
  pub timeout : ℕ
  pub prio : ℤ

abbrev pub no_any : OrderPolicy → OrderPolicy
no_any OrderPolicy.any_order = OrderPolicy.fifo_order
no_any p = p

abbrev pub same_int : ℤ → ℤ → Bool
same_int (pos m) (pos n) = m == n
same_int (negsuc m) (negsuc n) = m == n
same_int _ _ = false

-- No relevant change.
unfoldable pub unchanged : NotifQos → NotifQueue → Bool
unchanged qos q =
    same_policy q.order_policy (no_any qos.order)
    && (same_policy q.discard_policy (no_any qos.discard)
        && (same_int q.def_priority qos.prio && (q.def_timeout == qos.timeout)))

abbrev pub with_qos : NotifQos → NotifQueue → NotifQueue
with_qos qos q = record q {
  order_policy = no_any qos.order;
  discard_policy = no_any qos.discard;
  def_priority = qos.prio;
  def_timeout = qos.timeout;
}

abbrev pub lowest_first : OrderPolicy → Bool
lowest_first p = not (same_policy p OrderPolicy.priority_order)

-- The loop that rebuilds the queue from position i on, n rounds; _sort_val reads the event.
unfoldable pub rebuild : NotifQueue → ℕ → ℕ → PriorityQueue → Option PriorityQueue
unfolding get_event sort_val
rebuild q zero i acc = some acc
rebuild q (suc n) i acc = get_event i q.queue >>= λ ev.
    rebuild q n (i + 1)
      (insert_entry ev (sort_val q q.order_policy ev) (sort_val q q.discard_policy ev) acc)

-- qos_changed
unfoldable pub qos_changed : NotifQos → NotifQueue → Option NotifQueue
unfolding unchanged rebuild
qos_changed qos q =
    let q' = with_qos qos q in
    let empty_pri : PriorityQueue = record {
      entry_queue = [];
      pri_lowest_first = lowest_first q'.order_policy;
      sec_lowest_first = lowest_first q'.discard_policy;
    } in
    if unchanged qos q
    then some q
    else if length q.queue.entry_queue == 0
    then some (record q' { queue = empty_pri })
    else (rebuild q' (length q.queue.entry_queue) 1 empty_pri >>= λ pq.
        some (record q' { queue = pq }))
