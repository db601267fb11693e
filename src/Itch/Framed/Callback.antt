-- ===== src/Itch/Framed/Callback.antt =====
-- What the callback of `FramedDecoder` of include/itch/parser.hpp does with its state does not touch
-- the decoder: two callbacks that agree up to a function on their states lead to states that do.
use stock_data_engine.Base.{
  ℕ, zero, suc, ◌-◌, ◌≡◌, refl, sym, ap, ◌∙◌, min, Bool, Option, none, some, List, [], ◌∷◌, length,
  take, drop, ltb, ◌==◌, Bool-cases, inl, inr,
}
use stock_data_engine.Itch.Messages.{Message, ParseError, ParseResult}
use stock_data_engine.Itch.Parser.{parse_message}
use stock_data_engine.Itch.Framed.{
  FramedDecoder, count_decoded, deliver, report, reset_after, complete, put_bytes, put_length,
  with_expected, bad_length, Loop, fill, checked_length, length_byte, round, consume_from, consume,
}

module _ {S T : Type 0} (f : S → Message → S) (g : T → Message → T) (h : S → T)
    (agree : (s : S) (m : Message) → h (f s m) ≡ g (h s) m) where
  abbrev pub over : Bool × FramedDecoder × S → Bool × FramedDecoder × T
  over (go, d, s) = (go, d, h s)

  abbrev over_pair : FramedDecoder × S → FramedDecoder × T
  over_pair (d, s) = (d, h s)

  deliver-over :
      (e : ParseError) (m : Message) (d : FramedDecoder) (s : S)
      → deliver g e m d (h s) ≡ over_pair (deliver f e m d s)
  deliver-over ParseError.none m d s =
      ap (λ t. (record d { stats = count_decoded d.stats }, t)) (sym (agree s m))
  deliver-over ParseError.empty m d s = refl
  deliver-over ParseError.unsupported_type m d s = refl
  deliver-over ParseError.wrong_length m d s = refl
  deliver-over ParseError.invalid_side m d s = refl

  report-over :
      (r : Option ParseResult) (d : FramedDecoder) (s : S)
      → report g r d (h s) ≡ over_pair (report f r d s)
  report-over none d s = refl
  report-over (some r) d s = deliver-over r.error r.message d s

  reset_after-over :
      (r : FramedDecoder × S) → reset_after g (over_pair r) ≡ over_pair (reset_after f r)
  reset_after-over (d, s) = refl

  complete-over : (d : FramedDecoder) (s : S) → complete g d (h s) ≡ over_pair (complete f d s)
  unfolding complete
  complete-over d s = elim (Bool-cases (d.used == d.expected)) [
    | inl full ↦ rw full (
        ap (reset_after g) (report-over (parse_message (take d.expected d.message_buf)) d s)
        ∙ reset_after-over (report f (parse_message (take d.expected d.message_buf)) d s))
    | inr part ↦ rw part refl
  ]

  module _ (next : Loop f) (next' : Loop g)
      (same : (input : List ℕ) (d : FramedDecoder) (s : S)
        → next' input d (h s) ≡ over (next input d s)) where
    after-over :
        (rest : List ℕ) (r : FramedDecoder × S)
        → next' rest (over_pair r).0 (over_pair r).1 ≡ over (next rest r.0 r.1)
    after-over rest (d, s) = same rest d s

    fill-over :
        (input : List ℕ) (d : FramedDecoder) (s : S)
        → fill g next' input d (h s) ≡ over (fill f next input d s)
    fill-over input d s =
        let n = min (d.expected - d.used) (length input) in
        ap (λ (r : FramedDecoder × T). next' (drop n input) r.0 r.1)
          (complete-over (put_bytes d (take n input)) s)
        ∙ after-over (drop n input) (complete f (put_bytes d (take n input)) s)

    checked_length-over :
        (input : List ℕ) (d : FramedDecoder) (s : S)
        → checked_length g next' input d (h s) ≡ over (checked_length f next input d s)
    checked_length-over input d s = elim (Bool-cases (bad_length d)) [
      | inl bad ↦ rw bad refl
      | inr good ↦ rw good (fill-over input d s)
    ]

    length_byte-over :
        (b : ℕ) (rest : List ℕ) (d : FramedDecoder) (s : S)
        → length_byte g next' b rest d (h s) ≡ over (length_byte f next b rest d s)
    length_byte-over b rest d s = elim (Bool-cases ((put_length d b).length_bytes == 2)) [
      | inl two ↦ rw two (checked_length-over rest (with_expected (put_length d b)) s)
      | inr one ↦ rw one (same rest (put_length d b) s)
    ]

    round-over :
        (b : ℕ) (rest : List ℕ) (d : FramedDecoder) (s : S)
        → round g next' b rest d (h s) ≡ over (round f next b rest d s)
    round-over b rest d s = elim (Bool-cases (ltb d.length_bytes 2)) [
      | inl short ↦ rw short (length_byte-over b rest d s)
      | inr full ↦ rw full (fill-over (b ∷ rest) d s)
    ]

  consume_from-over :
      (n : ℕ) (input : List ℕ) (d : FramedDecoder) (s : S)
      → consume_from g n input d (h s) ≡ over (consume_from f n input d s)
  unfolding consume_from
  consume_from-over zero input d s = refl
  consume_from-over (suc n) [] d s = refl
  consume_from-over (suc n) (b ∷ rest) d s =
      round-over (consume_from f n) (consume_from g n) (consume_from-over n) b rest d s

  pub consume-over :
      (input : List ℕ) (d : FramedDecoder) (s : S)
      → consume g input d (h s) ≡ over (consume f input d s)
  unfolding consume
  consume-over input d s = consume_from-over (length input) input d s
