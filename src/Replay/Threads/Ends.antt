-- ===== src/Replay/Threads/Ends.antt =====
-- The two threads of src/replay.cpp never lock each other out.
use Prim.Native.Nat.{◌∣◌}
use stock_data_engine.Base.{ℕ, zero, suc, ◌+◌, ◌<◌, ◌≡◌, ◌≢◌, ◌⊎◌, inl, inr, refl, arith, List}
use stock_data_engine.Spsc.{word}
use stock_data_engine.Replay.Threads.{
  Phase, at_done, at_empty, in_body, finished, Threads, launch, Runs, here, then_step,
}
use stock_data_engine.Replay.Threads.Order.{
  work_all, IsRunning, ThreadStep-IsRunning, Runs-IsRunning, finished-work_all,
}
use stock_data_engine.Replay.Threads.Turns.{measure, Ends, first_step, advances}

module _ {T W : Type 0} (zero_item : T) (capacity : ℕ) (work : W → T → W) (all : List T)
    (w : W) where
  is_finished : (p : Phase) → (p ≡ finished) ⊎ (p ≢ finished)
  is_finished at_done = inr (λ e. ground (arith, e))
  is_finished at_empty = inr (λ e. ground (arith, e))
  is_finished in_body = inr (λ e. ground (arith, e))
  is_finished finished = inl refl

  Runs-trans :
      {s t u : Threads T W}
      → Runs zero_item capacity work s t
      → Runs zero_item capacity work t u
      → Runs zero_item capacity work s u
  Runs-trans r here = r
  Runs-trans r (then_step q last) = then_step (Runs-trans r q) last

  module _ (positive : 0 < capacity) (small : capacity < word) (divides : capacity ∣ word) where
    IsRunning-Ends :
        (n : ℕ) (s : Threads T W)
        → IsRunning zero_item capacity work all w s
        → measure zero_item capacity work all w s < n
        → Ends zero_item capacity work all w s
    IsRunning-Ends zero s v h = elim h [ ]
    IsRunning-Ends (suc n) s v h = elim (is_finished s.phase) [
      | inl end ↦ (s, here, end)
      | inr on ↦
          elim (advances zero_item capacity work all w positive small divides s v s.system.producer
            refl on) [
              | inr ends ↦ ends
              | inl (t, step, less) ↦
                  let (u, r, end) =
                    IsRunning-Ends n t
                      (ThreadStep-IsRunning zero_item capacity work all w positive small divides
                        step v)
                      (omega (arith, h, less)) in
                  (u, first_step zero_item capacity work all w step r, end)
            ]
    ]

    -- For a positive capacity below 2^64 that divides it: from every state that the two threads can
    -- reach, with the ring full or empty, they can go on to a state in which the consumer's loop has
    -- ended, and there every message has been processed once, in the producer's order.
    pub Runs-Ends :
        (s : Threads T W)
        → Runs zero_item capacity work (launch zero_item capacity work all w) s
        → (t : Threads T W) × Runs zero_item capacity work s t
          × (t.phase ≡ finished)
          × (t.worker ≡ work_all work w all)
    Runs-Ends s r =
        let (t, q, end) =
          IsRunning-Ends (measure zero_item capacity work all w s + 1) s
            (Runs-IsRunning zero_item capacity work all w positive small divides r) (omega arith) in
        (
          t,
          q,
          end,
          (finished-work_all zero_item capacity work all w positive small divides t (Runs-trans r q)
              end).0,
        )
