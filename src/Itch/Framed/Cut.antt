-- ===== src/Itch/Framed/Cut.antt =====
-- `finish` of `FramedDecoder` in include/itch/parser.hpp: it tells whether a stream ends between frames.
use stock_data_engine.Base.{
  ℕ, zero, suc, ◌+◌, ◌/◌, ◌%◌, ◌<◌, ◌≡◌, ◌≢◌, refl, sym, ap, ◌∙◌, true, false, List, [], ◌++◌,
  length, arith, take, All, length-take, append-nil, ne→==, eq→==,
}
use stock_data_engine.Itch.Messages.{Message}
use stock_data_engine.Itch.Mold.Frames.{frame, frames}
use stock_data_engine.Itch.Framed.{
  FramedDecoder, put_bytes, put_length, refuse, count_malformed, consume, finish,
}
use stock_data_engine.Itch.Framed.Bytewise.{
  feed_all, feed_all-cons, feed_all-nil, and_then, feed_first, feed_all-append_part, complete_later,
}
use stock_data_engine.Itch.Framed.Chunks.{consume-feed_all}
use stock_data_engine.Itch.Framed.Frame.{
  hear_all, tally_all, IsFrame, AtStart, begun, begun-length, feed_all-begin, good_length,
}
use stock_data_engine.Itch.Framed.Stream.{feed_all-frames, consume-frames}

finish-begun : (d : FramedDecoder) → d.length_bytes ≢ 0 → finish d ≡ (false, refuse d)
unfolding finish
finish-begun d h = rw (ne→== d.length_bytes 0 h) refl

pub finish-AtStart : (d : FramedDecoder) → AtStart d → finish d ≡ (true, d)
unfolding finish
finish-AtStart d v =
    rw
      (
        eq→== d.length_bytes 0 v.no_length,
        eq→== d.used 0 (v.valid.in_length (omega (arith, v.no_length))),
      )
      refl

module _ {S : Type 0} (callback : S → Message → S) where
  -- The first bytes of a frame, and not all of it.
  record Begun (d d' : FramedDecoder) (s : S) (bs : List ℕ) : Type 0 where
    runs : feed_all callback bs d s ≡ (true, d', s)
    begun_frame : d'.length_bytes ≢ 0
    same_stats : d'.stats ≡ d.stats

  feed_all-part :
      (m : List ℕ) (k : ℕ) (d : FramedDecoder) (s : S)
      → AtStart d
      → IsFrame m
      → k < length m + 1
      → (d' : FramedDecoder) × Begun d d' s (take (suc k) (frame m))
  feed_all-part m zero d s v h less = (
    put_length d (length m / 256),
    record {
      runs =
          feed_all-cons callback (length m / 256) [] d s
          ∙ (ap (λ r. and_then callback r (feed_all callback []))
                (feed_first callback (length m / 256) d s (omega (arith, v.no_length))
                  (λ e. ground (arith, e, v.no_length)))
              ∙ feed_all-nil callback (put_length d (length m / 256)) s);
      begun_frame = λ e. ground (arith, e);
      same_stats = refl;
    },
  )
  feed_all-part m (suc k) d s v h less =
      let good =
        good_length callback d (length m / 256) (length m % 256) v (omega (arith, h.0, h.1))
          (omega (arith, h.0, h.1)) in
      let b = begun callback d (length m / 256) (length m % 256) in
      let size : (begun callback d (length m / 256) (length m % 256)).expected ≡ length m =
        begun-length callback d (length m / 256) (length m % 256) v ∙ omega arith in
      let empty : d.used ≡ 0 = v.valid.in_length (omega (arith, v.no_length)) in
      let part = take k m in
      let short : d.used + length (take k m)
          < (begun callback d (length m / 256) (length m % 256)).expected =
        omega (arith, length-take k m, size, empty) in
      (
        put_bytes (begun callback d (length m / 256) (length m % 256)) (take k m),
        record {
          runs =
              feed_all-begin callback d (length m / 256) (length m % 256) (take k m) s v good
              ∙ (ap
                    (λ bs.
                      feed_all callback bs (begun callback d (length m / 256) (length m % 256)) s)
                    (sym (append-nil (take k m)))
                  ∙ (feed_all-append_part callback (take k m) []
                        (begun callback d (length m / 256) (length m % 256)) s
                        (omega (arith, v.no_length)) (omega (arith, short)) (omega (arith, short))
                      ∙ (ap (λ (r : FramedDecoder × S). feed_all callback [] r.0 r.1)
                            (complete_later callback
                              (put_bytes (begun callback d (length m / 256) (length m % 256))
                                (take k m))
                              s short)
                          ∙ feed_all-nil callback
                              (put_bytes (begun callback d (length m / 256) (length m % 256))
                                (take k m))
                              s)));
          begun_frame = λ e. ground (arith, e);
          same_stats = refl;
        },
      )

  -- `finish` after whole frames is true and changes nothing.
  finish-frames :
      (ms : List (List ℕ)) (d : FramedDecoder) (s : S)
      → AtStart d
      → All IsFrame ms
      → finish (consume callback (frames ms) d s).1 ≡ (true, (consume callback (frames ms) d s).1)
  finish-frames ms d s v h = finish-AtStart _ (consume-frames callback ms d s v h).at_start

  -- From a decoder with no frame begun, a stream that ends inside a frame, at least one byte after
  -- its beginning and at least one before its end: the frames before it are heard and nothing of
  -- it is, `consume` returns true, and `finish` returns false, with one more count of malformed.
  pub finish-cut :
      (ms : List (List ℕ)) (m : List ℕ) (k : ℕ) (d : FramedDecoder) (s : S)
      → AtStart d
      → All IsFrame ms
      → IsFrame m
      → k < length m + 1
      → ((consume callback (frames ms ++ take (suc k) (frame m)) d s).0 ≡ true)
        × ((consume callback (frames ms ++ take (suc k) (frame m)) d s).2 ≡ hear_all callback s ms)
        × ((finish (consume callback (frames ms ++ take (suc k) (frame m)) d s).1).0 ≡ false)
        × ((finish (consume callback (frames ms ++ take (suc k) (frame m)) d s).1).1.stats
            ≡ count_malformed (tally_all d.stats ms))
  finish-cut ms m k d s v h hm less =
      let (d', e, stats, start) = feed_all-frames callback ms (take (suc k) (frame m)) d s v h in
      let (d'', b) = feed_all-part m k d' (hear_all callback s ms) start hm less in
      rw
        (
          consume-feed_all callback (frames ms ++ take (suc k) (frame m)) d s v.valid,
          e,
          b.runs,
          finish-begun d'' b.begun_frame,
        )
        (refl, refl, refl, ap count_malformed (b.same_stats ∙ stats))
