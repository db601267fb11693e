-- ===== src/Replay/Threads/Turns.antt =====
-- From every state of the two threads of src/replay.cpp some step brings the end nearer.
use Prim.Native.Nat.{◌∣◌}
use stock_data_engine.Base.{
  ℕ, ◌+◌, ◌-◌, ◌*◌, ◌≤◌, ◌<◌, ◌≡◌, ◌≢◌, ◌⊎◌, inl, inr, refl, sym, ap, ◌∙◌, arith, Bool, true, false,
  none, some, List, [], ◌∷◌, ◌++◌, length, length-append, ◌==◌, ==→eq, Bool-cases, Option-cases,
}
use stock_data_engine.Spsc.{SpscRing, word, load_push, load_pop, read_slot, is_empty, size}
use stock_data_engine.Spsc.Step.{Producer, Consumer}
use stock_data_engine.Spsc.Invariant.{IsFifo, Reach-IsFifo, Reading}
use stock_data_engine.Spsc.Safety.{Reach-size}
use stock_data_engine.Replay.Threads.{
  Phase, at_done, at_empty, in_body, finished, Threads, ThreadStep, take_message, write_message,
  publish_message, signal, see_running, see_done, see_items, leave, find_nothing, find_item,
  read_item, process_item, Runs, here, then_step,
}
use stock_data_engine.Replay.Threads.Order.{loaded_busy, written_busy, in_hand, IsRunning}

-- How many steps are left: of the message in the producer's hand, and of the consumer's turn.
abbrev hand_rank : {T : Type 0} → Producer T → ℕ
hand_rank Producer.idle = 0
hand_rank (Producer.loaded head value) = 2
hand_rank (Producer.written head value) = 1

abbrev call_rank : {T : Type 0} → Consumer T → ℕ
call_rank Consumer.idle = 2
call_rank (Consumer.loaded tail) = 1
call_rank (Consumer.moved tail value) = 0

abbrev turn_rank : {T : Type 0} → Phase → Consumer T → ℕ
turn_rank at_done c = 4
turn_rank at_empty c = 3
turn_rank in_body c = call_rank c
turn_rank finished c = 0

abbrev done_rank : Bool → ℕ
done_rank true = 0
done_rank false = 1

module _ {T W : Type 0} (zero_item : T) (capacity : ℕ) (work : W → T → W) (all : List T)
    (w : W) where
  abbrev pub measure : Threads T W → ℕ
  measure s =
      3 * length s.todo
      + hand_rank s.system.producer
      + done_rank s.producer_done
      + (5 * (length all - length s.system.popped) + turn_rank s.phase s.system.consumer)

  abbrev pub Advance : Threads T W → Type 0
  Advance s = (t : Threads T W) × ThreadStep zero_item capacity work s t × (measure t < measure s)

  -- A run to the end of the consumer's loop.
  abbrev pub Ends : Threads T W → Type 0
  Ends s = (t : Threads T W) × Runs zero_item capacity work s t × (t.phase ≡ finished)

  pub first_step :
      {s t u : Threads T W}
      → ThreadStep zero_item capacity work s t
      → Runs zero_item capacity work t u
      → Runs zero_item capacity work s u
  first_step step here = then_step here step
  first_step step (then_step r last) = then_step (first_step step r) last

  -- The producer, in a call or between two.
  module _ (s : Threads T W) where
    hand_advances : (p : Producer T) → s.system.producer ≡ p → p ≢ Producer.idle → Advance s
    hand_advances Producer.idle e busy = absurd (busy refl)
    hand_advances (Producer.loaded head value) e busy =
        (_, write_message s value head e, omega (arith, ap hand_rank e))
    hand_advances (Producer.written head value) e busy =
        (_, publish_message s value head e, omega (arith, ap hand_rank e))

    message_advances :
        (value : T) (rest : List T) (head : ℕ)
        → s.todo ≡ value ∷ rest
        → s.system.producer ≡ Producer.idle
        → load_push zero_item capacity s.system.ring ≡ some head
        → Advance s
    message_advances value rest head more idle room = (
      _,
      take_message s value rest head more idle room,
      omega (arith, ap length more, ap hand_rank idle),
    )

    signal_advances :
        s.todo ≡ [] → s.system.producer ≡ Producer.idle → s.producer_done ≡ false → Advance s
    signal_advances none_left idle running =
        (_, signal s none_left idle, omega (arith, ap done_rank running))

  call_rank-le : (c : Consumer T) → call_rank c ≤ 2
  call_rank-le Consumer.idle = omega arith
  call_rank-le (Consumer.loaded tail) = omega arith
  call_rank-le (Consumer.moved tail value) = omega arith

  load_pop-none :
      (r : SpscRing T) → load_pop zero_item capacity r ≡ none → is_empty zero_item capacity r ≡ true
  unfolding is_empty
  load_pop-none r e = ground (arith, e)

  load_push-none :
      (r : SpscRing T)
      → load_push zero_item capacity r ≡ none
      → capacity ≤ size zero_item capacity r
  unfolding size
  load_push-none r e = ground (arith, e)

  module _ (positive : 0 < capacity) (small : capacity < word) (divides : capacity ∣ word)
      (s : Threads T W) (v : IsRunning zero_item capacity work all w s) where
    sizes :
        (length s.system.popped + size zero_item capacity s.system.ring ≡ length s.system.pushed)
        × (is_empty zero_item capacity s.system.ring
            ≡ (length s.system.pushed == length s.system.popped))
    sizes =
        let (_, count, empty) =
          Reach-size zero_item capacity positive small divides s.system v.reached zero_item in
        (count, empty)

    within : length s.system.pushed ≤ length all
    within = omega (
      arith,
      ap length v.sent,
      length-append s.system.pushed (in_hand s.system.producer ++ s.todo),
    )

    reading :
        (tail : ℕ) (value : T)
        → s.system.consumer ≡ Consumer.moved tail value
        → length s.system.popped < length s.system.pushed
    reading tail value c =
        let fifo : IsFifo zero_item capacity s.system =
          Reach-IsFifo zero_item capacity positive small divides v.reached in
        let read : Reading zero_item capacity s.system.pushed s.system.popped tail =
          (rw c at fifo.consumer_fits).0 in
        read.1

    body_rank : s.phase ≡ in_body → (c : Consumer T) → turn_rank s.phase c ≡ call_rank c
    body_rank p c = ap (λ x. turn_rank x c) p

    -- An end of the loop that is only turned to.
    last_turn :
        s.phase ≡ in_body
        → s.system.consumer ≡ Consumer.idle
        → load_pop zero_item capacity s.system.ring ≡ none
        → s.producer_done ≡ true
        → Ends s
    last_turn p idle nothing done = (
      _,
      then_step (then_step (then_step here (find_nothing s p idle nothing)) (see_done _ refl done))
          (leave _ refl (load_pop-none s.system.ring nothing)),
      refl,
    )

    -- The consumer moves on when there is an item to take, or the producer is done.
    abbrev Turns : Type 0
    Turns = (length s.system.popped < length s.system.pushed) ⊎ (s.producer_done ≡ true)

    idle_turn : s.phase ≡ in_body → s.system.consumer ≡ Consumer.idle → Turns → Advance s ⊎ Ends s
    idle_turn p idle why = elim (Option-cases (load_pop zero_item capacity s.system.ring)) [
      | inr (tail, some_item) ↦ inl (
        _,
        find_item s tail p idle some_item,
        omega (
          arith,
          body_rank p s.system.consumer,
          ap call_rank idle,
          body_rank p (Consumer.loaded tail),
        ),
      )
      | inl nothing ↦ elim why [
        | inl more ↦
            let even : length s.system.pushed ≡ length s.system.popped =
              ==→eq (length s.system.pushed) (length s.system.popped)
                (sym sizes.1 ∙ load_pop-none s.system.ring nothing) in
            absurd (omega (arith, even, more))
        | inr done ↦ inr (last_turn p idle nothing done)
      ]
    ]

    body_turn :
        (c : Consumer T) → s.system.consumer ≡ c → s.phase ≡ in_body → Turns → Advance s ⊎ Ends s
    body_turn Consumer.idle e p why = idle_turn p e why
    body_turn (Consumer.loaded tail) e p why = inl (
      _,
      read_item s tail p e,
      omega (
        arith,
        body_rank p s.system.consumer,
        ap call_rank e,
        body_rank p (Consumer.moved tail (read_slot zero_item capacity s.system.ring tail)),
      ),
    )
    body_turn (Consumer.moved tail value) e p why = inl (
      _,
      process_item s tail value p e,
      omega (
        arith,
        reading tail value e,
        within,
        body_rank p s.system.consumer,
        ap call_rank e,
        length-append s.system.popped (value ∷ []),
      ),
    )

    turn : (p : Phase) → s.phase ≡ p → p ≢ finished → Turns → Advance s ⊎ Ends s
    turn at_done e on why = elim (Bool-cases s.producer_done) [
      | inl done ↦
          inl (_, see_done s e done, omega (arith, ap (λ x. turn_rank x s.system.consumer) e))
      | inr running ↦ inl (
        _,
        see_running s e running,
        omega (arith, ap (λ x. turn_rank x s.system.consumer) e, call_rank-le s.system.consumer),
      )
    ]
    turn at_empty e on why = elim (Bool-cases (is_empty zero_item capacity s.system.ring)) [
      | inl out ↦ inl (_, leave s e out, omega (arith, ap (λ x. turn_rank x s.system.consumer) e))
      | inr more ↦ inl (
        _,
        see_items s e more,
        omega (arith, ap (λ x. turn_rank x s.system.consumer) e, call_rank-le s.system.consumer),
      )
    ]
    turn in_body e on why = body_turn s.system.consumer refl e why
    turn finished e on why = absurd (on refl)

    full_turns : load_push zero_item capacity s.system.ring ≡ none → Turns
    full_turns full = inl (omega (arith, load_push-none s.system.ring full, sizes.0, positive))

    idle_advances :
        (todo : List T)
        → s.todo ≡ todo
        → s.system.producer ≡ Producer.idle
        → s.phase ≢ finished
        → Advance s ⊎ Ends s
    idle_advances [] e idle on = elim (Bool-cases s.producer_done) [
      | inl done ↦ turn s.phase refl on (inr done)
      | inr running ↦ inl (signal_advances s e idle running)
    ]
    idle_advances (value ∷ rest) e idle on =
        elim (Option-cases (load_push zero_item capacity s.system.ring)) [
          | inl full ↦ turn s.phase refl on (full_turns full)
          | inr (head, room) ↦ inl (message_advances s value rest head e idle room)
        ]

    pub advances :
        (p : Producer T) → s.system.producer ≡ p → s.phase ≢ finished → Advance s ⊎ Ends s
    advances Producer.idle e on = idle_advances s.todo refl e on
    advances (Producer.loaded head value) e on =
        inl (hand_advances s (Producer.loaded head value) e (loaded_busy head value))
    advances (Producer.written head value) e on =
        inl (hand_advances s (Producer.written head value) e (written_busy head value))
