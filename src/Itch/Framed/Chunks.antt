-- ===== src/Itch/Framed/Chunks.antt =====
-- How the input of `FramedDecoder` of include/itch/parser.hpp is cut into parts makes no difference.
use stock_data_engine.Base.{
  ℕ, ◌+◌, ◌≡◌, refl, sym, ap, ◌∙◌, true, false, List, [], ◌∷◌, ◌++◌, length, arith, inl, inr,
  Bool-cases, length-set,
}
use native.Mathlib.Decide.{dec_lt, ℕ_discrete}
use stock_data_engine.Itch.Messages.{Message}
use stock_data_engine.Itch.Framed.{
  FramedDecoder, fresh_decoder, put_length, with_expected, bad_length, consume,
}
use stock_data_engine.Itch.Framed.Bytewise.{
  IsDecoder, feed, feed_all, feed_all-cons, and_then, Outcome, feed_first, feed_bad, feed_good,
  feed_in_message, reset-IsDecoder, put_length-IsDecoder, with_expected-IsDecoder,
  complete-IsDecoder, consume_from-feed_all,
}
use mathlib.Core.Path.{fun_ext}

pub fresh_decoder-IsDecoder : IsDecoder fresh_decoder
fresh_decoder-IsDecoder = record {
  length_room = refl;
  message_room = refl;
  in_length = λ _. refl;
  at_most = omega arith;
  in_message = λ e. absurd (omega arith);
}

module _ {S : Type 0} (callback : S → Message → S) where
  -- All bytes one by one, which the decoder's loop amounts to.
  pub consume-feed_all :
      (input : List ℕ) (d : FramedDecoder) (s : S)
      → IsDecoder d
      → consume callback input d s ≡ feed_all callback input d s
  unfolding consume
  consume-feed_all input d s v =
      consume_from-feed_all callback (length input) input d s v (omega arith)

  pub feed-IsDecoder :
      (b : ℕ) (d : FramedDecoder) (s : S) → IsDecoder d → IsDecoder (feed callback b d s).1
  feed-IsDecoder b d s v = elim (dec_lt d.length_bytes 2) [
    | yes short ↦ elim (ℕ_discrete (d.length_bytes + 1) 2) [
      | no one ↦ rw (feed_first callback b d s short one) (put_length-IsDecoder d b v (omega arith))
      | yes two ↦ elim (Bool-cases (bad_length (with_expected (put_length d b)))) [
        | inl bad ↦ rw (feed_bad callback b d s short two bad) (
            reset-IsDecoder (with_expected (put_length d b))
              (length-set d.length_buf d.length_bytes b ∙ v.length_room, v.message_room) _)
        | inr good ↦
            rw (feed_good callback b d s short two good) (with_expected-IsDecoder d b v two good)
      ]
    ]
    | no full ↦
        let full' : d.length_bytes ≡ 2 = omega (arith, v.at_most, full) in
        rw (feed_in_message callback b d s full')
          (complete-IsDecoder callback d (b ∷ []) s v full' (omega (arith, (v.in_message full').0)))
  ]

  and_then-IsDecoder :
      (r : Outcome callback) (k : FramedDecoder → S → Outcome callback)
      → IsDecoder r.1
      → ((d : FramedDecoder) (s : S) → IsDecoder d → IsDecoder (k d s).1)
      → IsDecoder (and_then callback r k).1
  and_then-IsDecoder (true, d, s) k v keep = keep d s v
  and_then-IsDecoder (false, d, s) k v keep = v

  pub feed_all-IsDecoder :
      (bs : List ℕ) (d : FramedDecoder) (s : S)
      → IsDecoder d
      → IsDecoder (feed_all callback bs d s).1
  feed_all-IsDecoder [] d s v = unfold feed_all in v
  feed_all-IsDecoder (b ∷ bs) d s v = rw (feed_all-cons callback b bs d s) (
      and_then-IsDecoder (feed callback b d s) (feed_all callback bs) (feed-IsDecoder b d s v)
        (λ d' s' v'. feed_all-IsDecoder bs d' s' v'))

  pub and_then_assoc :
      (r : Outcome callback) (f g : FramedDecoder → S → Outcome callback)
      → and_then callback (and_then callback r f) g
        ≡ and_then callback r (λ d s. and_then callback (f d s) g)
  and_then_assoc (true, d, s) f g = refl
  and_then_assoc (false, d, s) f g = refl

  pub feed_all-append :
      (xs ys : List ℕ) (d : FramedDecoder) (s : S)
      → feed_all callback (xs ++ ys) d s
        ≡ and_then callback (feed_all callback xs d s) (feed_all callback ys)
  feed_all-append [] ys d s = unfold feed_all in refl
  feed_all-append (x ∷ xs) ys d s =
      feed_all-cons callback x (xs ++ ys) d s
      ∙ (ap (and_then callback (feed callback x d s))
            (fun_ext λ d'. fun_ext λ s'. feed_all-append xs ys d' s')
          ∙ (sym
                (and_then_assoc (feed callback x d s) (feed_all callback xs) (feed_all callback ys))
              ∙ ap (λ r. and_then callback r (feed_all callback ys))
                  (sym (feed_all-cons callback x xs d s))))

  -- Consuming keeps a decoder within the bounds of its buffers, whatever the input: between two
  -- calls at most one byte of the length is kept, or fewer than `expected` bytes of a message of
  -- at most 64.
  pub consume-IsDecoder :
      (input : List ℕ) (d : FramedDecoder) (s : S)
      → IsDecoder d
      → IsDecoder (consume callback input d s).1
  consume-IsDecoder input d s v = rw (consume-feed_all input d s v) (feed_all-IsDecoder input d s v)

  and_then_same :
      (r : Outcome callback) (f g : FramedDecoder → S → Outcome callback)
      → IsDecoder r.1
      → ((d : FramedDecoder) (s : S) → IsDecoder d → f d s ≡ g d s)
      → and_then callback r f ≡ and_then callback r g
  and_then_same (true, d, s) f g v h = h d s v
  and_then_same (false, d, s) f g v h = refl

  -- From a decoder within its bounds, an input in two calls has the effect of one call on the
  -- whole: the same messages go to the callback, the decoder ends in the same state, and the
  -- result is the same. If the first call returns false, there is no second.
  pub consume-append :
      (xs ys : List ℕ) (d : FramedDecoder) (s : S)
      → IsDecoder d
      → consume callback (xs ++ ys) d s
        ≡ and_then callback (consume callback xs d s) (consume callback ys)
  consume-append xs ys d s v =
      consume-feed_all (xs ++ ys) d s v
      ∙ (feed_all-append xs ys d s
          ∙ (ap (λ r. and_then callback r (feed_all callback ys)) (sym (consume-feed_all xs d s v))
              ∙ sym (
                  and_then_same (consume callback xs d s) (consume callback ys)
                    (feed_all callback ys) (consume-IsDecoder xs d s v)
                    (λ d' s' v'. consume-feed_all ys d' s' v'))))
