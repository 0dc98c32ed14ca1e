-- ===== src/NotifQueue/Tests.antt =====
-- The theorems on the queue of a consumer at concrete queues.
use omni_notify_omni_orb.Common.{true, false, none, some, [], ◌∷◌, ◌≡◌, refl}
use omni_notify_omni_orb.Common.Int.{pos}
use omni_notify_omni_orb.NotifQueue.{
  OrderPolicy, QueuedEvent, NotifQueue, NotifQos, new_queue, qos_changed, unchanged,
}
use omni_notify_omni_orb.NotifQueue.Fifo.{
  insert_all, remove_all, remove_all-insert_all, qos_changed-stuck,
}

abbrev urgent : QueuedEvent
urgent = record { addr = 1; timestamp = 7; timeout = none; prio = some (pos 9) }

abbrev late : QueuedEvent
late = record { addr = 2; timestamp = 3; timeout = some 4; prio = none }

-- A queue by priority with one event.
abbrev by_priority : NotifQueue
by_priority = record (new_queue (pos 0)) {
  order_policy = OrderPolicy.priority_order;
  queue = record { entry_queue = late ∷ []; pri_lowest_first = false; sec_lowest_first = true };
}

remove_all-insert_all_example :
    remove_all 2 (insert_all (urgent ∷ []) by_priority) ≡ late ∷ urgent ∷ []
remove_all-insert_all_example = remove_all-insert_all (urgent ∷ []) by_priority

abbrev by_deadline : NotifQos
by_deadline = record {
  order = OrderPolicy.deadline_order;
  discard = OrderPolicy.any_order;
  timeout = 0;
  prio = pos 0;
}

qos_changed-stuck_example : qos_changed by_deadline by_priority ≡ none
unfolding unchanged
qos_changed-stuck_example = qos_changed-stuck by_deadline by_priority late [] refl refl
