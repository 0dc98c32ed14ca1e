-- ===== src/NotifQueue/Fifo.antt =====
-- Proofs about the order of the queue of a consumer, and about qos_changed (lib/RDINotifQueue.cc).
use mathlib.Core.List.{append_assoc, append-nil}
use omni_notify_omni_orb.Common.{
  ℕ, zero, suc, ◌<◌, false, ◌||◌, none, some, List, [], ◌∷◌, ◌++◌, ◌≡◌, refl, sym, ap, ◌∙◌, inl,
  inr, Bool-cases, ◌==◌, ltb, length, arith, if_true, if_false, ◌>>=◌,
}
use omni_notify_omni_orb.NotifQueue.{
  same_policy, QueuedEvent, PriorityQueue, NotifQueue, insert, remove_head, get_event, take_off,
  rebuild, NotifQos, qos_changed, unchanged, with_qos, first_of, rest_of,
}

-- All inserts of a list of events, in order.
unfoldable pub insert_all : List QueuedEvent → NotifQueue → NotifQueue
insert_all [] q = q
insert_all (ev ∷ evs) q = insert_all evs (insert ev q)

-- The events that n removals give, NULL left out.
unfoldable pub remove_all : ℕ → NotifQueue → List QueuedEvent
remove_all zero q = []
remove_all (suc n) q =
    let (ev, rest) = remove_head q in
    let later = remove_all n rest in elim ev [ none ↦ later | some x ↦ x ∷ later ]

insert-entry_queue :
    (ev : QueuedEvent) (q : NotifQueue)
    → (insert ev q).queue.entry_queue ≡ q.queue.entry_queue ++ (ev ∷ [])
unfolding insert
insert-entry_queue ev q = elim (Bool-cases (same_policy q.order_policy q.discard_policy)) [
  | inl h ↦
      ap (λ (z : NotifQueue). z.queue.entry_queue)
        (if_true (same_policy q.order_policy q.discard_policy) _ _ h)
  | inr h ↦
      ap (λ (z : NotifQueue). z.queue.entry_queue)
        (if_false (same_policy q.order_policy q.discard_policy) _ _ h)
]

insert_all-entry_queue :
    (evs : List QueuedEvent) (q : NotifQueue)
    → (insert_all evs q).queue.entry_queue ≡ q.queue.entry_queue ++ evs
unfolding insert_all
insert_all-entry_queue [] q = sym (append-nil q.queue.entry_queue)
insert_all-entry_queue (ev ∷ evs) q =
    insert_all-entry_queue evs (insert ev q)
    ∙ ap (λ z. z ++ evs) (insert-entry_queue ev q)
    ∙ append_assoc q.queue.entry_queue (ev ∷ []) evs

remove_all-first :
    (n : ℕ) (x : QueuedEvent) (xs : List QueuedEvent) (q : NotifQueue)
    → q.queue.entry_queue ≡ x ∷ xs
    → remove_all (suc n) q ≡ x ∷ remove_all n (remove_head q).1
unfolding remove_all
remove_all-first n x xs q e =
    ap
      (λ ev. elim ev [
        | none ↦ remove_all n (remove_head q).1
        | some y ↦ y ∷ remove_all n (remove_head q).1
      ])
      (ap first_of e)

remove_all-entry_queue :
    (xs : List QueuedEvent) (q : NotifQueue)
    → q.queue.entry_queue ≡ xs
    → remove_all (length xs) q ≡ xs
unfolding remove_all
remove_all-entry_queue [] q e = refl
remove_all-entry_queue (x ∷ xs) q e =
    remove_all-first (length xs) x xs q e
    ∙ ap (◌∷◌ x) (remove_all-entry_queue xs (remove_head q).1 (ap rest_of e))

-- Whatever the two policies and the events' priorities and timeouts are, removals give the events
-- that were in the queue and then the inserted ones, in the order of the inserts.
pub remove_all-insert_all :
    (evs : List QueuedEvent) (q : NotifQueue)
    → remove_all (length (q.queue.entry_queue ++ evs)) (insert_all evs q)
      ≡ q.queue.entry_queue ++ evs
remove_all-insert_all evs q =
    remove_all-entry_queue (q.queue.entry_queue ++ evs) (insert_all evs q)
      (insert_all-entry_queue evs q)

-- The first position gives NULL.
get_event_first : (q : PriorityQueue) → get_event 1 q ≡ none
unfolding get_event take_off
get_event_first q = elim (Bool-cases (ltb (length q.entry_queue) 1 || ltb 1 1)) [
  | inl h ↦ if_true (ltb (length q.entry_queue) 1 || ltb 1 1) _ _ h
  | inr h ↦ if_false (ltb (length q.entry_queue) 1 || ltb 1 1) _ _ h
]

suc_not_zero : (n : ℕ) → (suc n == 0) ≡ false
suc_not_zero n = ground arith

rebuild_none : (q : NotifQueue) (n : ℕ) (acc : PriorityQueue) → 0 < n → rebuild q n 1 acc ≡ none
unfolding rebuild
rebuild_none q zero acc h = absurd (omega (arith, h))
rebuild_none q (suc n) acc h = rw (get_event_first q.queue) refl

-- qos_changed with a relevant change reads a NULL pointer on every queue that is not empty.
pub qos_changed-stuck :
    (qos : NotifQos) (q : NotifQueue) (x : QueuedEvent) (xs : List QueuedEvent)
    → unchanged qos q ≡ false
    → q.queue.entry_queue ≡ x ∷ xs
    → qos_changed qos q ≡ none
unfolding qos_changed
qos_changed-stuck qos q x xs h e =
    let some_left : (length q.queue.entry_queue == 0) ≡ false =
      ap (λ z. length z == 0) e ∙ suc_not_zero (length xs) in
    let long : 0 < length q.queue.entry_queue = omega (arith, ap length e) in
    if_false (unchanged qos q) _ _ h
    ∙ if_false (length q.queue.entry_queue == 0) _ _ some_left
    ∙ ap (λ m. m >>= λ pq. some (record (with_qos qos q) { queue = pq }))
        (rebuild_none (with_qos qos q) (length q.queue.entry_queue) _ long)
