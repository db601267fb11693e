-- ===== src/Itch/Mold/Dispatch.antt =====
-- What `MoldDecoder::decode` does with a packet: all of its messages or none of them.
use stock_data_engine.Base.{
  ℕ, ◌+◌, ◌%◌, ◌^◌, ◌<◌, ◌≡◌, ◌≢◌, ap, List, [], ◌∷◌, length, arith, drop-append, take-append, Bool,
}
use stock_data_engine.Itch.Mold.{MoldHeader, none, decode, dispatch}
use stock_data_engine.Itch.Mold.Frames.{frames, read_u16-frame}

module _ {S : Type 0} (callback : S → List ℕ → ℕ → S) (gate : S → MoldHeader → Bool × S) where
  -- The messages handed over one by one, with consecutive sequence numbers.
  abbrev pub hand_over : List (List ℕ) → ℕ → ℕ → S → S
  hand_over [] sequence index s = s
  hand_over (m ∷ ms) sequence index s =
      hand_over ms sequence (index + 1) (callback s m ((sequence + index) % 2 ^ 64))

  pub dispatch-frames :
      (ms : List (List ℕ)) (sequence index : ℕ) (s : S)
      → index + length ms < 2 ^ 16
      → dispatch callback gate (length ms) (frames ms) sequence index s
        ≡ (index + length ms, hand_over ms sequence index s)
  unfolding dispatch
  dispatch-frames [] sequence index s h = ap (λ n. (n, s)) (omega arith)
  dispatch-frames (m ∷ ms) sequence index s h = ground (
    arith,
    read_u16-frame m (frames ms),
    drop-append m (frames ms),
    take-append m (frames ms),
    dispatch-frames ms sequence (index + 1) (callback s m ((sequence + index) % 2 ^ 64)),
  )

  -- An erroneous packet of any kind leaves the state as it was: no message of it is delivered, and
  -- the gate does not see it.
  pub decode-atomic :
      (packet : List ℕ) (s : S)
      → (decode callback gate packet s).0.error ≢ none
      → ((decode callback gate packet s).1 ≡ s)
        × ((decode callback gate packet s).0.messages_decoded ≡ 0)
  unfolding decode
  decode-atomic packet s h = ground arith
