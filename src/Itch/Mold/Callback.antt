-- ===== src/Itch/Mold/Callback.antt =====
-- What the callables of `MoldDecoder::decode` in include/itch/moldudp64.hpp do with their state does
-- not touch the decoding: two pairs of them that agree up to a function on their states lead to
-- states that do.
use stock_data_engine.Base.{
  ℕ, zero, suc, ◌+◌, ◌%◌, ◌^◌, ◌≡◌, refl, ap, ◌∙◌, Bool, List, length, take, drop, ltb, ◌==◌, ◌||◌,
  Bool-cases, inl, inr,
}
use stock_data_engine.Itch.Mold.{
  MoldHeader, MoldResult, read_u16, read_header, header_size, heartbeat, end_of_session, validate,
  is_none, dispatch, decode, stopped, none,
}

module _ {S T : Type 0} (f : S → List ℕ → ℕ → S) (g : T → List ℕ → ℕ → T)
    (gate : S → MoldHeader → Bool × S) (gate' : T → MoldHeader → Bool × T) (h : S → T)
    (agree : (s : S) (m : List ℕ) (n : ℕ) → g (h s) m n ≡ h (f s m n))
    (gates : (s : S) (header : MoldHeader)
      → gate' (h s) header ≡ ((gate s header).0, h (gate s header).1)) where
  dispatch-over :
      (n : ℕ) (rest : List ℕ) (sequence index : ℕ) (s : S)
      → dispatch g gate' n rest sequence index (h s) ≡ (
        (dispatch f gate n rest sequence index s).0,
        h (dispatch f gate n rest sequence index s).1,
      )
  unfolding dispatch
  dispatch-over zero rest sequence index s = refl
  dispatch-over (suc n) rest sequence index s =
      ap (dispatch g gate' n (drop (read_u16 rest) (drop 2 rest)) sequence ((index + 1) % 2 ^ 16))
        (agree s (take (read_u16 rest) (drop 2 rest)) ((sequence + index) % 2 ^ 64))
      ∙ dispatch-over n (drop (read_u16 rest) (drop 2 rest)) sequence ((index + 1) % 2 ^ 16)
          (f s (take (read_u16 rest) (drop 2 rest)) ((sequence + index) % 2 ^ 64))

  -- The result as it is, and the state under the function.
  abbrev pub over : MoldResult × S → MoldResult × T
  over (r, s) = (r, h s)

  pub decode-over :
      (packet : List ℕ) (s : S) → decode g gate' packet (h s) ≡ over (decode f gate packet s)
  unfolding decode
  decode-over packet s = elim (Bool-cases (ltb (length packet) header_size)) [
    | inl short ↦ rw short refl
    | inr long ↦
        elim (Bool-cases (heartbeat (read_header packet) || end_of_session (read_header packet))) [
          | inl alone ↦ elim (Bool-cases (length packet == header_size)) [
            | inl exact ↦
                rw (long, alone, exact)
                  (ap (λ (r : Bool × T). (stopped none (read_header packet), r.1))
                    (gates s (read_header packet)))
            | inr more ↦ rw (long, alone, more) refl
          ]
          | inr several ↦
              elim (Bool-cases
                (is_none (validate (read_header packet).message_count (drop header_size packet)))) [
                  | inr bad ↦ rw (long, several, bad) refl
                  | inl good ↦ elim (Bool-cases (gate s (read_header packet)).0) [
                    | inl open_lem ↦
                        rw
                          (
                            long,
                            several,
                            good,
                            gates s (read_header packet),
                            open_lem,
                            dispatch-over (read_header packet).message_count
                                (drop header_size packet) (read_header packet).sequence 0
                                (gate s (read_header packet)).1,
                          )
                          refl
                    | inr shut ↦ rw (long, several, good, gates s (read_header packet), shut) refl
                  ]
                ]
        ]
  ]
