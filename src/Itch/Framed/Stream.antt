-- ===== src/Itch/Framed/Stream.antt =====
-- `FramedDecoder` of include/itch/parser.hpp on streams of whole frames, and on a bad length.
use stock_data_engine.Base.{
  ℕ, ◌+◌, ◌*◌, ◌/◌, ◌%◌, ◌<◌, ◌≡◌, ◌⊎◌, refl, sym, ap, ◌∙◌, Bool, true, false, List, [], ◌∷◌, ◌++◌,
  length, arith, All, append-nil, append_assoc, length-set, ltb, ◌==◌, ◌||◌,
}
use stock_data_engine.Itch.Messages.{Message}
use stock_data_engine.Itch.Mold.Frames.{frame, frames}
use stock_data_engine.Itch.Framed.{
  DecoderStats, FramedDecoder, put_length, max_message_size, put_bytes, bad_length, refuse,
  complete, count_malformed, consume,
}
use stock_data_engine.Itch.Framed.Bytewise.{
  reset-IsDecoder, feed_all, feed_all-cons, feed_all-nil, and_then, Outcome, feed_first, feed_bad,
  feed_all-append_part, complete-IsDecoder,
}
use stock_data_engine.Itch.Framed.Chunks.{consume-feed_all}
use stock_data_engine.Itch.Framed.Frame.{
  hear, hear_all, tally, tally_all, IsFrame, AtStart, begun, begun-length, begun-IsDecoder,
  feed_all-begin, good_length, complete-hear,
}

module _ {S : Type 0} (callback : S → Message → S) where
  -- The decoder and the state after the frame of `m`.
  abbrev framed : List ℕ → FramedDecoder → S → FramedDecoder × S
  framed m d s =
      complete callback (put_bytes (begun callback d (length m / 256) (length m % 256)) m) s

  frame_good :
      (m : List ℕ) (d : FramedDecoder)
      → AtStart d
      → IsFrame m
      → bad_length (begun callback d (length m / 256) (length m % 256)) ≡ false
  frame_good m d v h =
      good_length callback d (length m / 256) (length m % 256) v (omega (arith, h.0, h.1))
        (omega (arith, h.0, h.1))

  feed_all-frame :
      (m rest : List ℕ) (d : FramedDecoder) (s : S)
      → AtStart d
      → IsFrame m
      → feed_all callback (frame m ++ rest) d s
        ≡ feed_all callback rest (framed m d s).0 (framed m d s).1
  feed_all-frame m rest d s v h =
      let good = frame_good m d v h in
      let valid = begun-IsDecoder callback d (length m / 256) (length m % 256) v good in
      let size : (begun callback d (length m / 256) (length m % 256)).expected ≡ length m =
        begun-length callback d (length m / 256) (length m % 256) v ∙ omega arith in
      feed_all-begin callback d (length m / 256) (length m % 256) (m ++ rest) s v good
      ∙ feed_all-append_part callback m rest (begun callback d (length m / 256) (length m % 256)) s
          (omega (arith, v.no_length)) (omega (arith, size, h.0, v.no_length, v.valid.in_length))
          (omega (arith, size, v.no_length, v.valid.in_length))

  framed-hear :
      (m : List ℕ) (d : FramedDecoder) (s : S)
      → AtStart d
      → IsFrame m
      → AtStart (framed m d s).0
        × ((framed m d s).1 ≡ hear callback s m)
        × ((framed m d s).0.stats ≡ tally d.stats m)
  framed-hear m d s v h =
      let good = frame_good m d v h in
      let valid = begun-IsDecoder callback d (length m / 256) (length m % 256) v good in
      let size : (begun callback d (length m / 256) (length m % 256)).expected ≡ length m =
        begun-length callback d (length m / 256) (length m % 256) v ∙ omega arith in
      let full : (begun callback d (length m / 256) (length m % 256)).length_bytes ≡ 2 =
        omega (arith, v.no_length) in
      let empty : d.used ≡ 0 = v.valid.in_length (omega (arith, v.no_length)) in
      let (heard, counted, start) =
        complete-hear callback (begun callback d (length m / 256) (length m % 256)) m s valid full
          empty size in
      (
        record {
          valid =
              complete-IsDecoder callback (begun callback d (length m / 256) (length m % 256)) m s
                valid full (omega (arith, size, empty));
          no_length = start;
        },
        heard,
        counted,
      )

  -- What a run leaves: its result, the caller's state, the counters, and no frame begun.
  pub record Leaves (r : Outcome callback) (ok : Bool) (s : S) (c : DecoderStats) : Type 0 where
    pub ok_is : r.0 ≡ ok
    pub state_is : r.2 ≡ s
    pub stats_are : r.1.stats ≡ c
    pub at_start : AtStart r.1

  pub feed_all-frames :
      (ms : List (List ℕ)) (rest : List ℕ) (d : FramedDecoder) (s : S)
      → AtStart d
      → All IsFrame ms
      → (d' : FramedDecoder) × (feed_all callback (frames ms ++ rest) d s
          ≡ feed_all callback rest d' (hear_all callback s ms))
        × (d'.stats ≡ tally_all d.stats ms)
        × AtStart d'
  feed_all-frames [] rest d s v h = (d, refl, refl, v)
  feed_all-frames (m ∷ ms) rest d s v h =
      let (start, heard, counted) = framed-hear m d s v h.0 in
      let (d', e, stats, start') =
        feed_all-frames ms rest (framed m d s).0 (framed m d s).1 start h.1 in
      (
        d',
        ap (λ bs. feed_all callback bs d s) (append_assoc (frame m) (frames ms) rest)
            ∙ (feed_all-frame m (frames ms ++ rest) d s v h.0
                ∙ (e ∙ ap (λ x. feed_all callback rest d' (hear_all callback x ms)) heard)),
        stats ∙ ap (λ c. tally_all c ms) counted,
        start',
      )

  -- On a stream of whole frames of 1 to 64 bytes each, from a state where no frame is begun, every
  -- message that parses reaches the callback, in order, and every other is counted as unsupported or
  -- malformed and disturbs none of the others; the result is true, and no frame is begun then.
  pub consume-frames :
      (ms : List (List ℕ)) (d : FramedDecoder) (s : S)
      → AtStart d
      → All IsFrame ms
      → Leaves
          (consume callback (frames ms) d s)
          true
          (hear_all callback s ms)
          (tally_all d.stats ms)
  consume-frames ms d s v h =
      let (d', e, stats, start) = feed_all-frames ms [] d s v h in
      rw
        (
          consume-feed_all callback (frames ms) d s v.valid,
          (ap (λ bs. feed_all callback bs d s) (sym (append-nil (frames ms)))
              ∙ (e ∙ feed_all-nil callback d' (hear_all callback s ms))),
        )
        (record { ok_is = refl; state_is = refl; stats_are = stats; at_start = start })

  -- From a decoder with no frame begun, a length of 0 or above 64 stops it, after the frames
  -- before it have been heard: the result is false, it is counted as malformed, and no byte behind
  -- it is read.
  pub consume-bad_length :
      (ms : List (List ℕ)) (a b : ℕ) (rest : List ℕ) (d : FramedDecoder) (s : S)
      → AtStart d
      → All IsFrame ms
      → (a * 256 + b ≡ 0) ⊎ (max_message_size < a * 256 + b)
      → Leaves
          (consume callback (frames ms ++ a ∷ b ∷ rest) d s)
          false
          (hear_all callback s ms)
          (count_malformed (tally_all d.stats ms))
  consume-bad_length ms a b rest d s v h bad =
      let (d', e, stats, start) = feed_all-frames ms (a ∷ b ∷ rest) d s v h in
      rw
        (
          consume-feed_all callback (frames ms ++ a ∷ b ∷ rest) d s v.valid,
          e,
          stop d' start (hear_all callback s ms),
        )
        (record {
          ok_is = refl;
          state_is = refl;
          stats_are = ap count_malformed stats;
          at_start = record {
            valid = reset-IsDecoder (begun callback d' a b) (buffers d' start) _;
            no_length = refl;
          };
        })
    where
      buffers :
          (d' : FramedDecoder)
          → AtStart d'
          → (length (begun callback d' a b).length_buf ≡ 2)
            × (length (begun callback d' a b).message_buf ≡ max_message_size)
      buffers d' start = (
        length-set _ _ b ∙ (length-set _ _ a ∙ start.valid.length_room),
        start.valid.message_room,
      )

      refused : (d' : FramedDecoder) → AtStart d' → bad_length (begun callback d' a b) ≡ true
      refused d' start =
          ap (λ n. n == 0 || ltb max_message_size n) (begun-length callback d' a b start)
          ∙ ground (arith, bad)

      stop :
          (d' : FramedDecoder)
          → AtStart d'
          → (s' : S)
          → feed_all callback (a ∷ b ∷ rest) d' s' ≡ (false, refuse (begun callback d' a b), s')
      stop d' start s' =
          feed_all-cons callback a (b ∷ rest) d' s'
          ∙ (ap (λ r. and_then callback r (feed_all callback (b ∷ rest)))
                (feed_first callback a d' s' (omega (arith, start.no_length))
                  (λ e. ground (arith, e, start.no_length)))
              ∙ (feed_all-cons callback b rest (put_length d' a) s'
                  ∙ ap (λ r. and_then callback r (feed_all callback rest))
                      (feed_bad callback b (put_length d' a) s' (omega (arith, start.no_length))
                        (omega (arith, start.no_length)) (refused d' start))))
