-- ===== src/Replay/Runner/Whole.antt =====
-- What a run of src/replay.cpp, and of src/pcap.cpp on one thread, makes of a whole file.
use stock_data_engine.Base.{
  ℕ, zero, suc, ◌+◌, ◌≤◌, ◌<◌, ◌≡◌, refl, sym, ap, ◌∙◌, Bool, true, false, Option, some, List, [],
  ◌∷◌, length, take, drop, ltb, not, if◌then◌else◌, arith, length-take, length-drop,
  take-append-drop, ne→==, inl, inr, Bool-cases, ltb→lt, ltb→ge, ◌⊎◌,
}
use stock_data_engine.Itch.Messages.{Message}
use stock_data_engine.Itch.Framed.{FramedDecoder, consume}
use stock_data_engine.Itch.Framed.Bytewise.{IsDecoder, and_then}
use stock_data_engine.Itch.Framed.Chunks.{consume-append, consume-IsDecoder}
use stock_data_engine.Replay.Runner.{read_loop}

module _ {S : Type 0} (callback : S → Message → S) (buffer_size : ℕ) (room : 0 < buffer_size) where
  -- The decoder and the state that a call leaves.
  abbrev pub left : Bool × FramedDecoder × S → FramedDecoder × S
  left (go, d, s) = (d, s)

  continue :
      (r : Bool × FramedDecoder × S) (next : FramedDecoder → S → Option (FramedDecoder × S))
      (k : FramedDecoder → S → Bool × FramedDecoder × S)
      → IsDecoder r.1
      → ((d : FramedDecoder) (s : S) → IsDecoder d → next d s ≡ some (left (k d s)))
      → (if r.0 then next r.1 r.2 else some (r.1, r.2)) ≡ some (left (and_then callback r k))
  continue (true, d, s) next k v h = h d s v
  continue (false, d, s) next k v h = refl

  take_nil : (n : ℕ) → take {A = ℕ} n [] ≡ []
  take_nil zero = refl
  take_nil (suc n) = refl

  drop_all : (n : ℕ) (xs : List ℕ) → length xs ≤ n → drop n xs ≡ []
  drop_all zero [] h = refl
  drop_all zero (x ∷ xs) h = absurd (omega (arith, h))
  drop_all (suc n) [] h = refl
  drop_all (suc n) (x ∷ xs) h = drop_all n xs (omega (arith, h))

  stop :
      (n : ℕ) (d : FramedDecoder) (s : S)
      → 0 < n
      → read_loop callback buffer_size n false [] d s ≡ some (left (consume callback [] d s))
  unfolding read_loop consume
  stop zero d s h = elim h [ ]
  stop (suc n) d s h = refl

  -- From a decoder within its bounds and with a buffer that is not empty, the loop over the parts
  -- of a file amounts to one call on the whole file, whatever the size of the buffer is: the same
  -- messages go to the callback and the decoder ends in the same state. The loop ends within two
  -- rounds more than the file has bytes.
  pub read_loop-consume :
      (n : ℕ) (input : List ℕ) (d : FramedDecoder) (s : S)
      → IsDecoder d
      → length input + 1 < n
      → read_loop callback buffer_size n true input d s ≡ some (left (consume callback input d s))
  unfolding read_loop
  read_loop-consume zero input d s v h = elim h [ ]
  read_loop-consume (suc n) [] d s v h = rw (take_nil buffer_size) (unfold consume in refl)
  read_loop-consume (suc n) (b ∷ bs) d s v h =
      rw
        (ne→== (length (take buffer_size (b ∷ bs))) 0
          (λ e. omega (arith, e, room, length-take buffer_size (b ∷ bs))))
        (continue (consume callback (take buffer_size (b ∷ bs)) d s)
            (read_loop callback buffer_size n (not (ltb (length (b ∷ bs)) buffer_size))
              (drop buffer_size (b ∷ bs)))
            (consume callback (drop buffer_size (b ∷ bs)))
            (consume-IsDecoder callback (take buffer_size (b ∷ bs)) d s v)
            (rest (Bool-cases (ltb (length (b ∷ bs)) buffer_size))
              (λ d' s' v' l. read_loop-consume n (drop buffer_size (b ∷ bs)) d' s' v' l))
          ∙ (ap (λ r. some (left r))
                (sym (
                  consume-append callback (take buffer_size (b ∷ bs)) (drop buffer_size (b ∷ bs)) d
                    s v))
              ∙ ap (λ xs. some (left (consume callback xs d s)))
                  (take-append-drop buffer_size (b ∷ bs))))
    where
      rest :
          (ltb (length (b ∷ bs)) buffer_size ≡ true) ⊎ (ltb (length (b ∷ bs)) buffer_size ≡ false)
          → ((d : FramedDecoder) (s : S)
              → IsDecoder d
              → length (drop buffer_size (b ∷ bs)) + 1 < n
              → read_loop callback buffer_size n true (drop buffer_size (b ∷ bs)) d s
                ≡ some (left (consume callback (drop buffer_size (b ∷ bs)) d s)))
          → (d : FramedDecoder) (s : S) → IsDecoder d
          → read_loop callback buffer_size n
              (not (ltb (length (b ∷ bs)) buffer_size))
              (drop buffer_size (b ∷ bs))
              d
              s
            ≡ some (left (consume callback (drop buffer_size (b ∷ bs)) d s))
      rest (inl short) more d' s' v' =
          rw
            (
              short,
              drop_all buffer_size (b ∷ bs)
                  (omega (arith, ltb→lt (length (b ∷ bs)) buffer_size short)),
            )
            (stop n d' s' (omega (arith, h)))
      rest (inr long) more d' s' v' = rw long (
          more d' s' v' (
            omega (
              arith,
              h,
              room,
              length-drop buffer_size (b ∷ bs),
              ltb→ge (length (b ∷ bs)) buffer_size long,
            )))
