-- ===== src/EventQueue/Sweep.antt =====
-- Proofs about garbage_collect (lib/RDIEventQueue.cc).
use omni_notify_omni_orb.Common.{
  ℕ, suc, ◌+◌, ◌<◌, Bool, true, false, ◌||◌, Option, none, some, List, [], ◌∷◌, ◌≡◌, ◌≢◌, refl, sym,
  ap, ◌∙◌, subst, inl, inr, Bool-cases, ◌==◌, length, arith, sub32, sub32_small, u32_mod,
}
use omni_notify_omni_orb.EventQueue.{Event, EventQueue, sweep, garbage_collect, is_one, is_newborn}
use omni_notify_omni_orb.EventQueue.Order.{IsLast, only, after, TailOf, no_tail, tail_at, Wf}

-- The second list is the first one without some events that have the reference count 1 and are not
-- new, in the same order.
pub data Collected : List Event → List Event → Type 0 where
  stopped : {xs : List Event} → Collected xs xs
  removed :
      {x : Event} {xs ys : List Event}
      → is_one x.rcnt ≡ true
      → is_newborn x.stat ≡ false
      → Collected xs ys
      → Collected (x ∷ xs) ys
  kept : {x : Event} {xs ys : List Event} → Collected xs ys → Collected (x ∷ xs) (x ∷ ys)

-- The three cases of one round of the loop.
data Round (k : ℕ) (x : Event) (xs : List Event) : Type 0 where
  ends : sweep k (x ∷ xs) ≡ (x ∷ xs, 0) → Round k x xs
  removes :
      is_one x.rcnt ≡ true
      → is_newborn x.stat ≡ false
      → (sub32 k 1 == 0) ≡ false
      → sweep k (x ∷ xs) ≡ ((sweep (sub32 k 1) xs).0, suc (sweep (sub32 k 1) xs).1)
      → Round k x xs
  keeps : sweep k (x ∷ xs) ≡ (x ∷ (sweep (sub32 k 1) xs).0, (sweep (sub32 k 1) xs).1) → Round k x xs

or_false : (a b : Bool) → (a || b) ≡ false → (a ≡ false) × (b ≡ false)
or_false true b h = cc
or_false false b h = (refl, h)

round : (k : ℕ) (x : Event) (xs : List Event) → Round k x xs
unfolding sweep
round k x xs = elim (Bool-cases ((sub32 k 1 == 0) || is_newborn x.stat)) [
  | inl h ↦ ends (rw h refl)
  | inr h ↦ elim (Bool-cases (is_one x.rcnt)) [
    | inl one ↦
        let (more, old) = or_false (sub32 k 1 == 0) (is_newborn x.stat) h in
        removes one old more (rw (h, one) refl)
    | inr many ↦ keeps (rw (h, many) refl)
  ]
]

sweep-Collected : (k : ℕ) (xs : List Event) → Collected xs (sweep k xs).0
unfolding sweep
sweep-Collected k [] = stopped
sweep-Collected k (x ∷ xs) = elim (round k x xs) [
  | ends e ↦ subst (λ z. Collected (x ∷ xs) z.0) (sym e) stopped
  | removes one old more e ↦
      subst (λ z. Collected (x ∷ xs) z.0) (sym e) (removed one old (sweep-Collected (sub32 k 1) xs))
  | keeps e ↦ subst (λ z. Collected (x ∷ xs) z.0) (sym e) (kept (sweep-Collected (sub32 k 1) xs))
]

-- garbage_collect removes events that have the reference count 1 and are not new, no others, and
-- keeps the order.
pub garbage_collect-Collected : (q : EventQueue) → Collected q.events (garbage_collect q).events
unfolding garbage_collect
garbage_collect-Collected q = sweep-Collected q.queue_length q.events

-- What the loop leaves is well-formed, and the counter is right.
record Swept (p : ℕ) (xs : List Event) (r : List Event × ℕ) : Type 0 where
  last : IsLast p r.0
  counted : length r.0 + r.1 ≡ length xs

not_false : false ≢ true
not_false e = cc

kept_single :
    {p : ℕ} (x : Event)
    → (x.addr == p) ≡ true
    → Swept p (x ∷ []) (x ∷ (sweep (sub32 1 1) []).0, (sweep (sub32 1 1) []).1)
unfolding sweep
kept_single x h = record { last = only h; counted = refl }

one_less : (n : ℕ) → suc n < u32_mod → sub32 (suc n) 1 ≡ n
one_less n h = omega (arith, sub32_small (suc n) 1 (omega arith) h)

sweep-Swept :
    (p : ℕ) (xs : List Event)
    → IsLast p xs
    → length xs < u32_mod
    → Swept p xs (sweep (length xs) xs)
sweep-Swept p [] l small = elim l [ ]
sweep-Swept p (x ∷ []) (only h) small = elim (round 1 x []) [
  | ends e ↦ subst (Swept p (x ∷ [])) (sym e) (record { last = only h; counted = omega arith })
  | removes one old more e ↦ absurd (not_false (sym more ∙ ap (λ z. z == 0) (one_less 0 small)))
  | keeps e ↦ subst (Swept p (x ∷ [])) (sym e) (kept_single x h)
]
sweep-Swept p (x ∷ xs) (after h l) small =
    let next = one_less (length xs) small in
    let rest : Swept p xs (sweep (sub32 (suc (length xs)) 1) xs) =
      subst (λ z. Swept p xs (sweep z xs)) (sym next) (sweep-Swept p xs l (omega (arith, small))) in
    elim (round (suc (length xs)) x xs) [
      | ends e ↦
          subst (Swept p (x ∷ xs)) (sym e) (record { last = after h l; counted = omega arith })
      | removes one old more e ↦
          subst (Swept p (x ∷ xs)) (sym e)
            (record { last = rest.last; counted = omega (arith, rest.counted) })
      | keeps e ↦
          subst (Swept p (x ∷ xs)) (sym e)
            (record { last = after h rest.last; counted = omega (arith, rest.counted) })
    ]

sweep-TailOf :
    (t : Option ℕ) (xs : List Event)
    → TailOf t xs
    → length xs < u32_mod
    → TailOf t (sweep (length xs) xs).0
      × (length (sweep (length xs) xs).0 + (sweep (length xs) xs).1 ≡ length xs)
unfolding sweep
sweep-TailOf none [] no_tail small = (no_tail, refl)
sweep-TailOf none (_ ∷ _) l small = elim l [ ]
sweep-TailOf (some p) xs (tail_at l) small =
    let r = sweep-Swept p xs l small in (tail_at r.last, r.counted)

fewer : (n m k : ℕ) → n < u32_mod → m + k ≡ n → sub32 n k ≡ m
fewer n m k h e = omega (arith, e, sub32_small n k (omega (arith, e)) h)

-- garbage_collect keeps the tail pointer and the length in agreement with the list.
pub garbage_collect-Wf : (q : EventQueue) → Wf q → Wf (garbage_collect q)
unfolding garbage_collect
garbage_collect-Wf q wf =
    let (tail, counted) = sweep-TailOf q.evtail q.events wf.tail_ok wf.bounded in
    let swept = sweep (length q.events) q.events in
    subst
      (λ n. Wf (record q {
        events = (sweep n q.events).0;
        queue_length = sub32 n (sweep n q.events).1;
        gcdone = true;
      }))
      (sym wf.length_ok)
      (record {
        tail_ok = tail;
        length_ok = fewer (length q.events) (length swept.0) swept.1 wf.bounded counted;
        bounded = omega (arith, wf.bounded, counted);
      })
