-- ===== src/Itch/Framed/Frame.antt =====
-- `FramedDecoder` of include/itch/parser.hpp on one frame: its two length bytes and its message.
use stock_data_engine.Base.{
  ℕ, zero, suc, ◌+◌, ◌*◌, ◌≤◌, ◌<◌, ◌≡◌, refl, ap, ◌∙◌, false, List, [], ◌∷◌, ◌++◌, length, arith,
  take, set, Option, none, some, eq→==, length-set, append-nil, append_assoc, ltb, ◌==◌, ◌||◌,
}
use stock_data_engine.Itch.Messages.{Message, ParseError, ParseResult}
use stock_data_engine.Itch.Parser.{parse_message}
use stock_data_engine.Itch.Framed.{
  DecoderStats, FramedDecoder, max_message_size, copy_to, put_length, put_bytes, with_expected,
  bad_length, complete, report, deliver, count_decoded, count_failure, frame_length,
}
use stock_data_engine.Itch.Framed.Bytewise.{
  IsDecoder, feed_all, feed_all-cons, and_then, feed_first, feed_good, put_length-IsDecoder,
  with_expected-IsDecoder,
}

-- What one frame with the bytes `m` does to the caller's state and to the counters.
module _ {S : Type 0} (callback : S → Message → S) where
  abbrev pub hear_result : S → ParseError → Message → S
  hear_result s ParseError.none m = callback s m
  hear_result s e m = s

  abbrev pub hear_parsed : S → Option ParseResult → S
  hear_parsed s none = s
  hear_parsed s (some r) = hear_result s r.error r.message

  abbrev pub hear : S → List ℕ → S
  hear s m = hear_parsed s (parse_message m)

  abbrev pub hear_all : S → List (List ℕ) → S
  hear_all s [] = s
  hear_all s (m ∷ ms) = hear_all (hear s m) ms

abbrev pub tally_result : DecoderStats → ParseError → DecoderStats
tally_result c ParseError.none = count_decoded c
tally_result c e = count_failure e c

abbrev pub tally_parsed : DecoderStats → Option ParseResult → DecoderStats
tally_parsed c none = c
tally_parsed c (some r) = tally_result c r.error

abbrev pub tally : DecoderStats → List ℕ → DecoderStats
tally c m = tally_parsed c (parse_message m)

abbrev pub tally_all : DecoderStats → List (List ℕ) → DecoderStats
tally_all c [] = c
tally_all c (m ∷ ms) = tally_all (tally c m) ms

-- A frame that the decoder has room for.
abbrev pub IsFrame : List ℕ → Type 0
IsFrame m = (0 < length m) × (length m ≤ max_message_size)

-- No frame is begun.
pub record AtStart (d : FramedDecoder) : Type 0 where
  pub valid : IsDecoder d
  pub no_length : d.length_bytes ≡ 0

take-set :
    (buf : List ℕ) (i b : ℕ) → i < length buf → take (i + 1) (set buf i b) ≡ take i buf ++ b ∷ []
take-set [] i b h = absurd (omega arith)
take-set (x ∷ buf) zero b h = refl
take-set (x ∷ buf) (suc i) b h =
    let e : suc i + 1 ≡ suc (i + 1) = omega arith in
    rw e (ap (λ t. x ∷ t) (take-set buf i b (omega arith)))

take-copy_to :
    (buf : List ℕ) (i : ℕ) (bs : List ℕ)
    → i + length bs ≤ length buf
    → take (i + length bs) (copy_to buf i bs) ≡ take i buf ++ bs
unfolding copy_to
take-copy_to buf i [] h = let e : i + 0 ≡ i = omega arith in rw (e, append-nil)
take-copy_to buf i (b ∷ bs) h =
    let e : i + suc (length bs) ≡ i + 1 + length bs = omega arith in
    let size = length-set buf i b in
    ap (λ n. take n (copy_to (set buf i b) (i + 1) bs)) e
    ∙ (take-copy_to (set buf i b) (i + 1) bs (omega (arith, size))
        ∙ (ap (λ t. t ++ bs) (take-set buf i b (omega arith))
            ∙ append_assoc (take i buf) (b ∷ []) bs))

-- The message of a frame is what is parsed.
parsed-copy_to :
    (buf : List ℕ) (used expected : ℕ) (m : List ℕ)
    → used ≡ 0
    → expected ≡ length m
    → length m ≤ length buf
    → take expected (copy_to buf used m) ≡ m
parsed-copy_to buf used expected m e q h =
    ap (λ n. take n (copy_to buf used m)) (q ∙ omega (arith, e))
    ∙ (take-copy_to buf used m (omega (arith, e)) ∙ rw e refl)

-- The length that two bytes give.
frame_length-set :
    (buf : List ℕ) (a b : ℕ) → length buf ≡ 2 → frame_length (set (set buf 0 a) 1 b) ≡ a * 256 + b
frame_length-set [] a b h = absurd (omega arith)
frame_length-set (x ∷ []) a b h = absurd (omega arith)
frame_length-set (x ∷ y ∷ buf) a b h = refl

module _ {S : Type 0} (callback : S → Message → S) where
  deliver-hear_result :
      (e : ParseError) (m : Message) (d : FramedDecoder) (s : S)
      → ((deliver callback e m d s).1 ≡ hear_result callback s e m)
        × ((deliver callback e m d s).0.stats ≡ tally_result d.stats e)
  deliver-hear_result ParseError.none m d s = (refl, refl)
  deliver-hear_result e m d s = (refl, refl)

  report-hear_parsed :
      (r : Option ParseResult) (d : FramedDecoder) (s : S)
      → ((report callback r d s).1 ≡ hear_parsed callback s r)
        × ((report callback r d s).0.stats ≡ tally_parsed d.stats r)
  report-hear_parsed none d s = (refl, refl)
  report-hear_parsed (some r) d s = deliver-hear_result r.error r.message d s

  pub complete-hear :
      (d : FramedDecoder) (m : List ℕ) (s : S)
      → IsDecoder d
      → d.length_bytes ≡ 2
      → d.used ≡ 0
      → d.expected ≡ length m
      → ((complete callback (put_bytes d m) s).1 ≡ hear callback s m)
        × ((complete callback (put_bytes d m) s).0.stats ≡ tally d.stats m)
        × ((complete callback (put_bytes d m) s).0.length_bytes ≡ 0)
  unfolding complete
  complete-hear d m s v full u q =
      let room : length m ≤ length d.message_buf =
        omega (arith, v.message_room, (v.in_message full).1, q) in
      let parsed : take d.expected (copy_to d.message_buf d.used m) ≡ m =
        parsed-copy_to d.message_buf d.used d.expected m u q room in
      rw (eq→== (d.used + length m) d.expected (omega (arith, u, q)), parsed)
        (
          (report-hear_parsed (parse_message m) (put_bytes d m) s).0,
          (report-hear_parsed (parse_message m) (put_bytes d m) s).1,
          refl,
        )

  -- After the two bytes of a length.
  abbrev pub begun : FramedDecoder → ℕ → ℕ → FramedDecoder
  begun d a b = with_expected (put_length (put_length d a) b)

  pub begun-length :
      (d : FramedDecoder) (a b : ℕ) → AtStart d → (begun d a b).expected ≡ a * 256 + b
  begun-length d a b v = rw v.no_length (frame_length-set d.length_buf a b v.valid.length_room)

  pub begun-IsDecoder :
      (d : FramedDecoder) (a b : ℕ)
      → AtStart d
      → bad_length (begun d a b) ≡ false
      → IsDecoder (begun d a b)
  begun-IsDecoder d a b v good =
      with_expected-IsDecoder (put_length d a) b
        (put_length-IsDecoder d a v.valid (omega (arith, v.no_length))) (omega (arith, v.no_length))
        good

  pub feed_all-begin :
      (d : FramedDecoder) (a b : ℕ) (rest : List ℕ) (s : S)
      → AtStart d
      → bad_length (begun d a b) ≡ false
      → feed_all callback (a ∷ b ∷ rest) d s ≡ feed_all callback rest (begun d a b) s
  feed_all-begin d a b rest s v good =
      feed_all-cons callback a (b ∷ rest) d s
      ∙ (ap (λ r. and_then callback r (feed_all callback (b ∷ rest)))
            (feed_first callback a d s (omega (arith, v.no_length))
              (λ e. ground (arith, e, v.no_length)))
          ∙ (feed_all-cons callback b rest (put_length d a) s
              ∙ ap (λ r. and_then callback r (feed_all callback rest))
                  (feed_good callback b (put_length d a) s (omega (arith, v.no_length))
                    (omega (arith, v.no_length)) good)))

  pub good_length :
      (d : FramedDecoder) (a b : ℕ)
      → AtStart d
      → 0 < a * 256 + b
      → a * 256 + b ≤ max_message_size
      → bad_length (begun d a b) ≡ false
  good_length d a b v lo hi =
      ap (λ n. n == 0 || ltb max_message_size n) (begun-length d a b v) ∙ ground arith
