-- ===== src/QueueBench/SimpleInvariant.antt =====
-- The invariant of the benchmark with `SimpleThreadSafeQueue<int>`.
use concurrencycourse.Prelude.{
  ℕ, zero, suc, ◌+◌, ◌≤◌, ◌≡◌, refl, sym, subst, ◌∙◌, Bool, true, false, List, [], ◌∷◌, ◌++◌,
  append-nil, arith, length, length-append,
}
use concurrencycourse.SimpleQueue.Threads
use concurrencycourse.SimpleQueue.Threads.{
  System, Shared, Call, Pc, Move, moves, notifies, notifies_nobody, outside, calling, inside,
  notifying, sleeping, woken, rechecking, leaving, pushes, waits_and_pops, tries_to_pop, call,
  enter, push_back, pop_at_once, sleep, wake_up, reenter, pop_awake, sleep_again, try_success,
  try_failure, leave,
}
use concurrencycourse.SimpleQueue.Safety
use concurrencycourse.SimpleQueue.Invariant
use concurrencycourse.QueueBench.{
  first_values, Bench, Step, produces, consumes, goes_on, Reach, start, later,
}
use concurrencycourse.QueueBench.Simple.{simple}

module _ {A : Type 0} where
  abbrev pub is_producer : Pc A → Bool
  is_producer outside = true
  is_producer (calling (pushes _)) = true
  is_producer (inside (pushes _)) = true
  is_producer notifying = true
  is_producer leaving = true
  is_producer _ = false

  abbrev pub is_consumer : Pc A → Bool
  is_consumer (calling waits_and_pops) = true
  is_consumer (inside waits_and_pops) = true
  is_consumer (calling _) = false
  is_consumer (inside _) = false
  is_consumer notifying = false
  is_consumer _ = true

  -- What the producer is still to push in its call, and how often the consumer is still to pop in its.
  abbrev pub to_push : Pc A → List A
  to_push (calling (pushes v)) = v ∷ []
  to_push (inside (pushes v)) = v ∷ []
  to_push _ = []

  abbrev pub to_pop : Pc A → ℕ
  to_pop outside = 0
  to_pop leaving = 0
  to_pop _ = 1

  producer_moves :
      {i : ℕ} {m m' : Shared A} {p p' : Pc A}
      → Move i m p m' p'
      → is_producer p ≡ true
      → (p ≡ outside → p' ≡ outside)
      → (is_producer p' ≡ true)
        × (m'.pushed ++ to_push p' ≡ m.pushed ++ to_push p)
        × (m'.popped ≡ m.popped)
  producer_moves (call c) h stays = cc (stays refl)
  producer_moves {m = m} (push_back {v}) h stays = (refl, append-nil (m.pushed ++ v ∷ []), refl)
  producer_moves (enter {c = pushes v} free) h stays = (refl, refl, refl)
  producer_moves leave h stays = (refl, refl, refl)
  producer_moves mv h stays = ground arith

  consumer_moves :
      {i : ℕ} {m m' : Shared A} {p p' : Pc A}
      → Move i m p m' p'
      → is_consumer p ≡ true
      → (p ≡ outside → p' ≡ outside)
      → (is_consumer p' ≡ true)
        × (length m'.popped + to_pop p' ≡ length m.popped + to_pop p)
        × (m'.pushed ≡ m.pushed)
  consumer_moves (call c) h stays = cc (stays refl)
  consumer_moves {m = m} (pop_at_once {x} e) h stays =
      (refl, omega (arith, length-append m.popped (x ∷ [])), refl)
  consumer_moves {m = m} (pop_awake {x} e) h stays =
      (refl, omega (arith, length-append m.popped (x ∷ [])), refl)
  consumer_moves mv h stays = ground arith

module _ {A : Type 0} (range : ℕ) (rand : ℕ → A) where
  pub record Inv (s : Bench (simple {A = A})) : Type 0 where
    pub queue : Invariant.Inv 2 s.system.shared s.system.pc
    pub producer : is_producer (s.system.pc 0) ≡ true
    pub consumer : is_consumer (s.system.pc 1) ≡ true
    pub pushed : s.system.shared.pushed ++ to_push (s.system.pc 0) ≡ first_values rand s.produced
    pub popped : length s.system.shared.popped + to_pop (s.system.pc 1) ≡ s.consumed
    pub produced_in : s.produced ≤ range
    pub consumed_in : s.consumed ≤ range
    pub others : (j : ℕ) → 2 ≤ j → s.system.pc j ≡ outside

  Step-Inv : {s t : Bench (simple {A = A})} → Step simple range rand s t → Inv s → Inv t
  Step-Inv {s} (produces lt out) inv = record {
    queue =
        Safety.Step-Inv
          (moves 0 (omega arith) (
            subst
              (λ p. Move 0 s.system.shared p s.system.shared (calling (pushes (rand s.produced))))
              (sym out) (call _)))
          inv.queue;
    producer = refl;
    consumer = inv.consumer;
    pushed = ground (arith, out, inv.pushed, append-nil s.system.shared.pushed);
    popped = inv.popped;
    produced_in = omega (arith, lt);
    consumed_in = inv.consumed_in;
    others = λ j le. ground (arith, inv.others j le);
  }
  Step-Inv {s} (consumes lt out) inv = record {
    queue =
        Safety.Step-Inv
          (moves 1 (omega arith) (
            subst (λ p. Move 1 s.system.shared p s.system.shared (calling waits_and_pops)) (sym out)
              (call _)))
          inv.queue;
    producer = inv.producer;
    consumer = refl;
    pushed = inv.pushed;
    popped = ground (arith, out, inv.popped);
    produced_in = inv.produced_in;
    consumed_in = omega (arith, lt);
    others = λ j le. ground (arith, inv.others j le);
  }
  Step-Inv (goes_on (moves zero lt mv) stays) inv =
      let (producer, pushed, popped) = producer_moves mv inv.producer (stays 0) in
      record {
        queue = Safety.Step-Inv (moves 0 lt mv) inv.queue;
        producer = producer;
        consumer = inv.consumer;
        pushed = pushed ∙ inv.pushed;
        popped = ground (arith, popped, inv.popped);
        produced_in = inv.produced_in;
        consumed_in = inv.consumed_in;
        others = λ j le. stays j (inv.others j le);
      }
  Step-Inv (goes_on (moves (suc zero) lt mv) stays) inv =
      let (consumer, popped, pushed) = consumer_moves mv inv.consumer (stays 1) in
      record {
        queue = Safety.Step-Inv (moves 1 lt mv) inv.queue;
        producer = inv.producer;
        consumer = consumer;
        pushed = ground (arith, pushed, inv.pushed);
        popped = popped ∙ inv.popped;
        produced_in = inv.produced_in;
        consumed_in = inv.consumed_in;
        others = λ j le. stays j (inv.others j le);
      }
  Step-Inv (goes_on (moves (suc (suc i)) lt mv) stays) inv = absurd (omega (arith, lt))
  Step-Inv {s} (goes_on (notifies i j lt lt' at_i at_j) stays) inv = record {
    queue = Safety.Step-Inv (notifies i j lt lt' at_i at_j) inv.queue;
    producer = ground (arith, at_i, at_j, inv.producer);
    consumer = ground (arith, at_i, at_j, inv.consumer);
    pushed = ground (arith, at_i, at_j, inv.pushed, inv.producer);
    popped = ground (arith, at_i, at_j, inv.popped, inv.consumer);
    produced_in = inv.produced_in;
    consumed_in = inv.consumed_in;
    others = λ j le. stays j (inv.others j le);
  }
  Step-Inv {s} (goes_on (notifies_nobody i lt at_i nobody) stays) inv = record {
    queue = Safety.Step-Inv (notifies_nobody i lt at_i nobody) inv.queue;
    producer = ground (arith, at_i, inv.producer);
    consumer = ground (arith, at_i, inv.consumer);
    pushed = ground (arith, at_i, inv.pushed, inv.producer);
    popped = ground (arith, at_i, inv.popped, inv.consumer);
    produced_in = inv.produced_in;
    consumed_in = inv.consumed_in;
    others = λ j le. stays j (inv.others j le);
  }

  pub Reach-Inv : {s : Bench (simple {A = A})} → Reach simple range rand s → Inv s
  Reach-Inv start = record {
    queue = Safety.Reach-Inv Threads.start;
    producer = refl;
    consumer = refl;
    pushed = refl;
    popped = refl;
    produced_in = omega arith;
    consumed_in = omega arith;
    others = λ j le. refl;
  }
  Reach-Inv (later r st) = Step-Inv st (Reach-Inv r)
