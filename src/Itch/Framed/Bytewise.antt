-- ===== src/Itch/Framed/Bytewise.antt =====
-- `FramedDecoder::consume` of include/itch/parser.hpp against a decoder that takes one byte at a time.
use stock_data_engine.Base.{
  ℕ, zero, suc, ◌+◌, ◌-◌, ◌≤◌, ◌<◌, ◌≡◌, ◌≢◌, inl, inr, refl, sym, ap, ◌∙◌, min, Bool, true, false,
  List, [], ◌∷◌, ◌++◌, length, take, drop, set, arith, ltb, ◌==◌, if◌then◌else◌, length-set,
  Bool-cases, ne→==, ge→ltb, eq→==, ==→ne, length-take, length-drop, take-append-drop, Option, none,
  some, lt→ltb,
}
use native.Mathlib.Decide.{dec_lt, ℕ_discrete}
use stock_data_engine.Itch.Parser.{parse_message}
use stock_data_engine.Itch.Messages.{Message, ParseError, ParseResult}
use stock_data_engine.Itch.Framed.{
  DecoderStats, FramedDecoder, reset, max_message_size, copy_to, put_bytes, put_length,
  with_expected, bad_length, refuse, complete, deliver, report, fill, round, Loop, frame_length,
  consume_from,
}

-- Between two bytes: the length is incomplete and nothing of the message is there, or the length is
-- known, and some of the message is missing.
pub record IsDecoder (d : FramedDecoder) : Type 0 where
  pub length_room : length d.length_buf ≡ 2
  pub message_room : length d.message_buf ≡ max_message_size
  pub in_length : d.length_bytes < 2 → d.used ≡ 0
  pub at_most : d.length_bytes ≤ 2
  pub in_message : d.length_bytes ≡ 2 → (d.used < d.expected) × (d.expected ≤ max_message_size)

length-copy_to : (buf : List ℕ) (i : ℕ) (bs : List ℕ) → length (copy_to buf i bs) ≡ length buf
unfolding copy_to
length-copy_to buf i [] = refl
length-copy_to buf i (b ∷ bs) = length-copy_to (set buf i b) (i + 1) bs ∙ length-set buf i b

pub put_length-IsDecoder :
    (d : FramedDecoder) (b : ℕ) → IsDecoder d → d.length_bytes + 1 < 2 → IsDecoder (put_length d b)
put_length-IsDecoder d b v h = record {
  length_room = length-set d.length_buf d.length_bytes b ∙ v.length_room;
  message_room = v.message_room;
  in_length = λ _. v.in_length (omega arith);
  at_most = omega arith;
  in_message = λ e. absurd (omega arith);
}

pub with_expected-IsDecoder :
    (d : FramedDecoder) (b : ℕ)
    → IsDecoder d
    → d.length_bytes + 1 ≡ 2
    → bad_length (with_expected (put_length d b)) ≡ false
    → IsDecoder (with_expected (put_length d b))
with_expected-IsDecoder d b v h good = record {
  length_room = length-set d.length_buf d.length_bytes b ∙ v.length_room;
  message_room = v.message_room;
  in_length = λ e. absurd (omega arith);
  at_most = omega arith;
  in_message = λ _. ground (arith, good, v.in_length (omega arith));
}

pub reset-IsDecoder :
    (d : FramedDecoder)
    → (length d.length_buf ≡ 2) × (length d.message_buf ≡ max_message_size)
    → (s : DecoderStats) → IsDecoder (reset (record d { stats = s }))
reset-IsDecoder d v s = record {
  length_room = v.0;
  message_room = v.1;
  in_length = λ _. refl;
  at_most = omega arith;
  in_message = λ e. absurd (omega arith);
}

pub put_bytes-IsDecoder :
    (d : FramedDecoder) (bs : List ℕ)
    → IsDecoder d
    → d.length_bytes ≡ 2
    → d.used + length bs < d.expected
    → IsDecoder (put_bytes d bs)
put_bytes-IsDecoder d bs v full h = record {
  length_room = v.length_room;
  message_room = length-copy_to d.message_buf d.used bs ∙ v.message_room;
  in_length = λ e. absurd (omega arith);
  at_most = v.at_most;
  in_message = λ e. (h, (v.in_message e).1);
}

put_bytes-buffers :
    (d : FramedDecoder) (bs : List ℕ)
    → IsDecoder d
    → (length (put_bytes d bs).length_buf ≡ 2)
      × (length (put_bytes d bs).message_buf ≡ max_message_size)
put_bytes-buffers d bs v = (v.length_room, length-copy_to d.message_buf d.used bs ∙ v.message_room)

put_nothing : (d : FramedDecoder) → put_bytes d [] ≡ d
unfolding copy_to
put_nothing d = ap (λ u. record d { used = u }) (omega arith)

put_more :
    (d : FramedDecoder) (b : ℕ) (bs : List ℕ)
    → put_bytes (put_bytes d (b ∷ [])) bs ≡ put_bytes d (b ∷ bs)
unfolding copy_to
put_more d b bs = ap (λ u. record (put_bytes d (b ∷ bs)) { used = u }) (omega arith)

module _ {S : Type 0} (callback : S → Message → S) where
  abbrev pub Outcome : Type 0
  Outcome = Bool × FramedDecoder × S

  -- Go on only after success.
  abbrev pub and_then : Outcome → (FramedDecoder → S → Outcome) → Outcome
  and_then (true, d, s) k = k d s
  and_then (false, d, s) k = (false, d, s)

  abbrev pub go_on : FramedDecoder × S → Outcome
  go_on (d, s) = (true, d, s)

  -- One byte.
  unfoldable pub feed : ℕ → FramedDecoder → S → Outcome
  feed b d s =
      if ltb d.length_bytes 2
      then (if d.length_bytes + 1 == 2
          then (if bad_length (with_expected (put_length d b))
              then (false, refuse (with_expected (put_length d b)), s)
              else (true, with_expected (put_length d b), s))
          else (true, put_length d b, s))
      else go_on (complete callback (put_bytes d (b ∷ [])) s)

  unfoldable pub feed_all : List ℕ → FramedDecoder → S → Outcome
  feed_all [] d s = (true, d, s)
  feed_all (b ∷ bs) d s = and_then (feed b d s) (feed_all bs)

  pub complete_later :
      (d : FramedDecoder) (s : S) → d.used < d.expected → complete callback d s ≡ (d, s)
  unfolding complete
  complete_later d s h = rw (ne→== d.used d.expected (omega arith)) refl

  pub feed_in_message :
      (b : ℕ) (d : FramedDecoder) (s : S)
      → d.length_bytes ≡ 2
      → feed b d s ≡ go_on (complete callback (put_bytes d (b ∷ [])) s)
  unfolding feed
  feed_in_message b d s full = rw (ge→ltb d.length_bytes 2 (omega arith)) refl

  pub feed_all-nil : (d : FramedDecoder) (s : S) → feed_all [] d s ≡ (true, d, s)
  unfolding feed_all
  feed_all-nil d s = refl

  pub feed_all-cons :
      (b : ℕ) (bs : List ℕ) (d : FramedDecoder) (s : S)
      → feed_all (b ∷ bs) d s ≡ and_then (feed b d s) (feed_all bs)
  unfolding feed_all
  feed_all-cons b bs d s = refl

  -- A part of a message at once is the same as its bytes one by one.
  pub feed_all-append_part :
      (xs rest : List ℕ) (d : FramedDecoder) (s : S)
      → d.length_bytes ≡ 2
      → d.used < d.expected
      → d.used + length xs ≤ d.expected
      → feed_all (xs ++ rest) d s
        ≡ feed_all rest
            (complete callback (put_bytes d xs) s).0
            (complete callback (put_bytes d xs) s).1
  feed_all-append_part [] rest d s full more h = rw (put_nothing d, complete_later d s more) refl
  feed_all-append_part (b ∷ []) rest d s full more h =
      feed_all-cons b rest d s ∙ ap (λ r. and_then r (feed_all rest)) (feed_in_message b d s full)
  feed_all-append_part (b ∷ c ∷ xs) rest d s full more h =
      feed_all-cons b (c ∷ (xs ++ rest)) d s
      ∙ (ap (λ r. and_then r (feed_all (c ∷ (xs ++ rest))))
            (feed_in_message b d s full
              ∙ ap go_on (complete_later (put_bytes d (b ∷ [])) s (omega arith)))
          ∙ (feed_all-append_part (c ∷ xs) rest (put_bytes d (b ∷ [])) s full (omega arith)
                (omega arith)
              ∙ ap (λ e. feed_all rest (complete callback e s).0 (complete callback e s).1)
                  (put_more d b (c ∷ xs))))

  deliver-IsDecoder :
      (e : ParseError) (m : Message) (d : FramedDecoder) (s : S)
      → (length d.length_buf ≡ 2) × (length d.message_buf ≡ max_message_size)
      → IsDecoder (reset (deliver callback e m d s).0)
  deliver-IsDecoder ParseError.none m d s v = reset-IsDecoder d v _
  deliver-IsDecoder e m d s v = reset-IsDecoder d v _

  report-IsDecoder :
      (r : Option ParseResult) (d : FramedDecoder) (s : S)
      → (length d.length_buf ≡ 2) × (length d.message_buf ≡ max_message_size)
      → IsDecoder (reset (report callback r d s).0)
  report-IsDecoder none d s v = reset-IsDecoder d v _
  report-IsDecoder (some r) d s v = deliver-IsDecoder r.error r.message d s v

  pub complete-IsDecoder :
      (d : FramedDecoder) (bs : List ℕ) (s : S)
      → IsDecoder d
      → d.length_bytes ≡ 2
      → d.used + length bs ≤ d.expected
      → IsDecoder (complete callback (put_bytes d bs) s).0
  unfolding complete
  complete-IsDecoder d bs s v full h = elim (Bool-cases (d.used + length bs == d.expected)) [
    | inl e ↦ rw e (
        report-IsDecoder (parse_message (take d.expected (copy_to d.message_buf d.used bs)))
          (put_bytes d bs) s (put_bytes-buffers d bs v))
    | inr e ↦
        rw e (
          put_bytes-IsDecoder d bs v full (ground (arith, ==→ne (d.used + length bs) d.expected e)))
  ]

  fill-feed_all :
      (n : ℕ) (input : List ℕ) (d : FramedDecoder) (s : S)
      → IsDecoder d
      → d.length_bytes ≡ 2
      → length (drop (min (d.expected - d.used) (length input)) input) ≤ n
      → ((rest : List ℕ) (d' : FramedDecoder) (s' : S)
          → IsDecoder d'
          → length rest ≤ n
          → consume_from callback n rest d' s' ≡ feed_all rest d' s')
      → fill callback (consume_from callback n) input d s ≡ feed_all input d s
  fill-feed_all n input d s v full h next =
      let k : ℕ = min (d.expected - d.used) (length input) in
      let part = take k input in
      let fits : d.used + length (take k input) ≤ d.expected =
        omega (arith, length-take k input, (v.in_message full).0) in
      next (drop k input) (complete callback (put_bytes d (take k input)) s).0
        (complete callback (put_bytes d (take k input)) s).1
        (complete-IsDecoder d (take k input) s v full fits) h
      ∙ (sym
            (feed_all-append_part (take k input) (drop k input) d s full (v.in_message full).0 fits)
          ∙ ap (λ x. feed_all x d s) (take-append-drop k input))

  -- One byte, by cases.
  module _ (b : ℕ) (d : FramedDecoder) (s : S) (short : d.length_bytes < 2) where
    pub feed_first : d.length_bytes + 1 ≢ 2 → feed b d s ≡ (true, put_length d b, s)
    unfolding feed
    feed_first h = rw (lt→ltb d.length_bytes 2 short, ne→== (d.length_bytes + 1) 2 h) refl

    pub feed_bad :
        d.length_bytes + 1 ≡ 2
        → bad_length (with_expected (put_length d b)) ≡ true
        → feed b d s ≡ (false, refuse (with_expected (put_length d b)), s)
    unfolding feed
    feed_bad h bad = rw (lt→ltb d.length_bytes 2 short, eq→== (d.length_bytes + 1) 2 h, bad) refl

    pub feed_good :
        d.length_bytes + 1 ≡ 2
        → bad_length (with_expected (put_length d b)) ≡ false
        → feed b d s ≡ (true, with_expected (put_length d b), s)
    unfolding feed
    feed_good h good = rw (lt→ltb d.length_bytes 2 short, eq→== (d.length_bytes + 1) 2 h, good) refl

    module _ (next : Loop callback) (rest : List ℕ) where
      round_first :
          d.length_bytes + 1 ≢ 2 → round callback next b rest d s ≡ next rest (put_length d b) s
      round_first h = rw (lt→ltb d.length_bytes 2 short, ne→== (d.length_bytes + 1) 2 h) refl

      round_bad :
          d.length_bytes + 1 ≡ 2
          → bad_length (with_expected (put_length d b)) ≡ true
          → round callback next b rest d s ≡ (false, refuse (with_expected (put_length d b)), s)
      round_bad h bad = rw (lt→ltb d.length_bytes 2 short, eq→== (d.length_bytes + 1) 2 h, bad) refl

      round_good :
          d.length_bytes + 1 ≡ 2
          → bad_length (with_expected (put_length d b)) ≡ false
          → round callback next b rest d s
            ≡ fill callback next rest (with_expected (put_length d b)) s
      round_good h good =
          rw (lt→ltb d.length_bytes 2 short, eq→== (d.length_bytes + 1) 2 h, good) refl

  round_message :
      (b : ℕ) (d : FramedDecoder) (s : S) (next : Loop callback) (rest : List ℕ)
      → d.length_bytes ≡ 2
      → round callback next b rest d s ≡ fill callback next (b ∷ rest) d s
  round_message b d s next rest h = rw (ge→ltb d.length_bytes 2 (omega arith)) refl

  consume_from-suc :
      (n b : ℕ) (rest : List ℕ) (d : FramedDecoder) (s : S)
      → consume_from callback (suc n) (b ∷ rest) d s
        ≡ round callback (consume_from callback n) b rest d s
  unfolding consume_from
  consume_from-suc n b rest d s = refl

  pub consume_from-feed_all :
      (n : ℕ) (input : List ℕ) (d : FramedDecoder) (s : S)
      → IsDecoder d
      → length input ≤ n
      → consume_from callback n input d s ≡ feed_all input d s
  consume_from-feed_all zero [] d s v h = unfold consume_from feed_all in refl
  consume_from-feed_all zero (b ∷ rest) d s v h = absurd (omega arith)
  consume_from-feed_all (suc n) [] d s v h = unfold consume_from feed_all in refl
  consume_from-feed_all (suc n) (b ∷ rest) d s v h =
      consume_from-suc n b rest d s
      ∙ (elim (dec_lt d.length_bytes 2) [
        | yes short ↦ elim (ℕ_discrete (d.length_bytes + 1) 2) [
          | no one ↦
              rw
                (
                  round_first b d s short (consume_from callback n) rest one,
                  feed_first b d s short one,
                )
                (consume_from-feed_all n rest (put_length d b) s
                  (put_length-IsDecoder d b v (omega arith)) (omega arith))
          | yes two ↦ elim (Bool-cases (bad_length (with_expected (put_length d b)))) [
            | inl bad ↦
                rw
                  (
                    round_bad b d s short (consume_from callback n) rest two bad,
                    feed_bad b d s short two bad,
                  )
                  refl
            | inr good ↦
                rw
                  (
                    round_good b d s short (consume_from callback n) rest two good,
                    feed_good b d s short two good,
                  )
                  (fill-feed_all n rest (with_expected (put_length d b)) s
                    (with_expected-IsDecoder d b v two good) two
                    (omega (
                      arith,
                      length-drop
                          (min (frame_length (put_length d b).length_buf - d.used) (length rest))
                          rest,
                    ))
                    (consume_from-feed_all n))
          ]
        ]
        | no full ↦
            let full' : d.length_bytes ≡ 2 = omega (arith, v.at_most, full) in
            rw (round_message b d s (consume_from callback n) rest full') (
              fill-feed_all n (b ∷ rest) d s v full'
                (omega (
                  arith,
                  length-drop (min (d.expected - d.used) (suc (length rest))) (b ∷ rest),
                  (v.in_message full').0,
                ))
                (consume_from-feed_all n)
              ∙ feed_all-cons b rest d s)
      ]
          ∙ sym (feed_all-cons b rest d s))
