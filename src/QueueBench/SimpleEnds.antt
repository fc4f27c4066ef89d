-- ===== src/QueueBench/SimpleEnds.antt =====
-- Where the benchmark with `SimpleThreadSafeQueue<int>` can stand, and who can move.
use concurrencycourse.Prelude.{
  ℕ, zero, suc, ◌≤◌, ◌≡◌, refl, ap, ◌≢◌, ◌⊎◌, inl, inr, List, [], ◌∷◌, append-nil, arith, dec_lt,
  length, length-append,
}
use concurrencycourse.Prelude.Threads.{total-zero}
use concurrencycourse.SimpleQueue.Threads.{
  Pc, outside, calling, inside, sleeping, woken, rechecking, enter, reenter,
}
use concurrencycourse.SimpleQueue.Invariant.{awake}
use concurrencycourse.QueueBench.{
  first_values, length-first_values, Bench, produces, consumes, Reach, IsOver, Goes,
}
use concurrencycourse.QueueBench.Simple.{simple}
use concurrencycourse.QueueBench.SimpleInvariant.{Inv, Reach-Inv}
use concurrencycourse.QueueBench.SimpleMoves.{holder-Goes, waiter-Goes}

none_left : {A : Type 0} (xs : List A) → length xs ≡ 0 → xs ≡ []
none_left [] e = refl
none_left (x ∷ xs) e = absurd (omega (arith, e))

module _ {A : Type 0} (pc : ℕ → Pc A) where
  idle :
      pc 0 ≡ outside
      → pc 1 ≡ sleeping
      → ((j : ℕ) → 2 ≤ j → pc j ≡ outside)
      → (i : ℕ) → awake (pc i) ≡ 0
  idle at_0 at_1 others zero = ap awake at_0
  idle at_0 at_1 others (suc zero) = ap awake at_1
  idle at_0 at_1 others (suc (suc i)) = ap awake (others (suc (suc i)) (omega arith))

module _ {A : Type 0} (range : ℕ) (rand : ℕ → A) {s : Bench (simple {A = A})} where
  -- The consumer sleeps for good only if the producer is not done.
  not_asleep :
      Inv range rand s → s.produced ≡ range → s.system.pc 0 ≡ outside → s.system.pc 1 ≢ sleeping
  not_asleep inv done at asleep = ground (
    arith,
    done,
    at,
    asleep,
    inv.popped,
    inv.pushed,
    inv.consumed_in,
    inv.queue.fifo,
    total-zero awake 2 s.system.pc (idle s.system.pc at asleep inv.others),
    inv.queue.served 1 (omega arith) asleep,
    length-append s.system.shared.popped s.system.shared.queue,
    append-nil s.system.shared.pushed,
    length-first_values rand range,
  )

  consumer-Goes :
      Inv range rand s
      → s.produced ≡ range
      → s.system.pc 0 ≡ outside
      → (p : Pc A) → s.system.pc 1 ≡ p
      → IsOver simple range rand s ⊎ Goes simple range rand s
  consumer-Goes inv done out outside at = elim (dec_lt s.consumed range) [
    | yes lt ↦ inr (record {
      thread = 1;
      is_thread = omega arith;
      is_awake = λ e. cc;
      after = _;
      step = consumes lt at;
      moved = λ e. cc;
    })
    | no ge ↦ inl (record {
      produced = done;
      consumed = omega (arith, ge, inv.consumed_in);
      producer = out;
      consumer = at;
    })
  ]
  consumer-Goes inv done out (calling c) at = inr (
      waiter-Goes range rand inv 1 (calling c) (inside c) (omega arith) at enter (λ e. cc) (λ e. cc)
        (λ e. cc))
  consumer-Goes inv done out woken at = inr (
      waiter-Goes range rand inv 1 woken rechecking (omega arith) at reenter (λ e. cc) (λ e. cc)
        (λ e. cc))
  consumer-Goes inv done out sleeping at = absurd (not_asleep inv done out at)
  consumer-Goes inv done out p at = inr (holder-Goes range rand inv 1 p (omega arith) at refl)

  producer-Goes :
      Inv range rand s
      → (p : Pc A) → s.system.pc 0 ≡ p
      → IsOver simple range rand s ⊎ Goes simple range rand s
  producer-Goes inv outside at = elim (dec_lt s.produced range) [
    | yes lt ↦ inr (record {
      thread = 0;
      is_thread = omega arith;
      is_awake = λ e. cc;
      after = _;
      step = produces lt at;
      moved = λ e. cc;
    })
    | no ge ↦ consumer-Goes inv (omega (arith, ge, inv.produced_in)) at (s.system.pc 1) refl
  ]
  producer-Goes inv (calling c) at = inr (
      waiter-Goes range rand inv 0 (calling c) (inside c) (omega arith) at enter (λ e. cc) (λ e. cc)
        (λ e. cc))
  producer-Goes inv woken at = ground (arith, at, inv.producer)
  producer-Goes inv sleeping at = ground (arith, at, inv.producer)
  producer-Goes inv p at = inr (holder-Goes range rand inv 0 p (omega arith) at refl)

  end_pushed :
      Inv range rand s
      → IsOver simple range rand s
      → s.system.shared.pushed ≡ first_values rand range
  end_pushed inv over =
      ground (arith, over.produced, over.producer, inv.pushed, append-nil s.system.shared.pushed)

  end_queue : Inv range rand s → IsOver simple range rand s → s.system.shared.queue ≡ []
  end_queue inv over = none_left s.system.shared.queue (
      ground (
        arith,
        over.consumed,
        over.consumer,
        inv.popped,
        end_pushed inv over,
        inv.queue.fifo,
        length-append s.system.shared.popped s.system.shared.queue,
        length-first_values rand range,
      ))

  -- In every reachable state either all is done, with all items popped, or a thread that is not asleep
  -- can move.
  pub ends_or_moves :
      Reach simple range rand s
      → (IsOver simple range rand s
          × (s.system.shared.popped ≡ first_values rand range)
          × (s.system.shared.queue ≡ []))
        ⊎ Goes simple range rand s
  ends_or_moves r =
      let inv = Reach-Inv range rand r in
      elim (producer-Goes inv (s.system.pc 0) refl) [
        | inl over ↦ inl (
          over,
          ground (
            arith,
            inv.queue.fifo,
            end_queue inv over,
            end_pushed inv over,
            append-nil s.system.shared.popped,
          ),
          end_queue inv over,
        )
        | inr goes ↦ inr goes
      ]
