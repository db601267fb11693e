-- ===== src/Itch/Sequence/Tests.antt =====
-- `SequenceTracker` of src/moldudp64.cpp on short streams.
use stock_data_engine.Base.{◌≡◌, refl, true, List, [], ◌∷◌, ℕ, max, arith}
use stock_data_engine.Itch.Mold.{MoldHeader}
use stock_data_engine.Itch.Sequence.{SequenceTracker, gap, observe}
use stock_data_engine.Itch.Sequence.Gaps.{
  Reports, AllInOrder, Tracks, observe_all, observe-same, observe_all-Contiguous, observe-lost,
}

abbrev name : List ℕ
name = 48 ∷ 49 ∷ []

abbrev tracker : SequenceTracker
tracker = record { session = name; expected = 5; initialized = true }

abbrev packet : ℕ → ℕ → MoldHeader
packet n count = record { session = name; sequence = n; message_count = count }

observe-same_example :
    Reports 5 (observe tracker (packet 8 2)).0 (packet 8 2)
    × ((observe tracker (packet 8 2)).1.expected ≡ max 5 10)
    × ((observe tracker (packet 8 2)).1.session ≡ name)
    × ((observe tracker (packet 8 2)).1.initialized ≡ true)
observe-same_example = observe-same tracker (packet 8 2) refl refl (omega arith)

observe_all-Contiguous_example :
    AllInOrder tracker (packet 5 2 ∷ packet 7 1 ∷ [])
    × Tracks (observe_all tracker (packet 5 2 ∷ packet 7 1 ∷ [])) name 8
observe_all-Contiguous_example =
    observe_all-Contiguous (packet 5 2 ∷ packet 7 1 ∷ []) tracker name 5 (refl, refl, refl)
      (refl, refl, (refl, refl, tt)) (omega arith)

observe-lost_example :
    ((observe (observe_all tracker (packet 5 2 ∷ [])) (packet 10 1)).0.status ≡ gap)
    × ((observe (observe_all tracker (packet 5 2 ∷ [])) (packet 10 1)).0.missing ≡ 3)
observe-lost_example =
    observe-lost (packet 5 2 ∷ []) (packet 7 3 ∷ []) (packet 10 1) tracker name 5 (refl, refl, refl)
      (refl, refl, tt) (refl, refl, tt) refl refl (omega arith) (omega arith)
