-- ===== src/Generate/Decoded.antt =====
-- The loop of tools/generate_feed.cpp, and what the decoder makes of the file.
use stock_data_engine.Base.{
  ℕ, zero, suc, ◌+◌, ◌%◌, ◌^◌, ◌≤◌, ◌<◌, ◌≡◌, refl, sym, ap, ◌∙◌, Bool, true, false, some, List, [],
  ◌∷◌, ◌++◌, length, map, ltb, ◌==◌, ◌||◌, arith, All, length-append, append_assoc, append-nil,
  ltb→lt, ltb→ge, Bool-cases, inl, inr,
}
use stock_data_engine.Itch.Messages.{Message}
use stock_data_engine.Itch.Parser.Encode.{encode, Fits}
use stock_data_engine.Itch.Framed.{fresh_decoder, consume}
use stock_data_engine.Itch.Framed.Chunks.{fresh_decoder-IsDecoder}
use stock_data_engine.Itch.Framed.Stream.{Leaves}
use stock_data_engine.Itch.Framed.Encoded.{call_all, count_all, consume-encode}
use stock_data_engine.Itch.Mold.Frames.{frame, frames}
use stock_data_engine.Generate.{
  Feed, side_of, quantity_of, price_of, after_add, after_second, next_id, generate_round,
  generate_from, generate,
}
use stock_data_engine.Generate.Messages.{
  first_message, second_message, first_message-Fits, second_message-Fits, write_add-frame,
  write_second-frame,
}

-- What holds in the loop: the messages that are written, with `k` more identifiers at most than there
-- are messages.
record IsWriting (count k : ℕ) (s : Feed) (ms : List Message) : Type 0 where
  wrote : s.output ≡ frames (map encode ms)
  emitted_is : s.emitted ≡ length ms
  bound : s.emitted ≤ count
  id_small : s.id ≤ s.emitted + k
  time_is : s.timestamp ≡ s.emitted + 1
  fit : All Fits ms

frames-append :
    (ms : List Message) (m : Message)
    → frames (map encode (ms ++ m ∷ [])) ≡ frames (map encode ms) ++ frame (encode m)
frames-append [] m = append-nil (frame (encode m))
frames-append (x ∷ ms) m =
    ap (λ bs. frame (encode x) ++ bs) (frames-append ms m)
    ∙ sym (append_assoc (frame (encode x)) (frames (map encode ms)) (frame (encode m)))

fit_more : (ms : List Message) (m : Message) → All Fits ms → Fits m → All Fits (ms ++ m ∷ [])
fit_more [] m f g = (g, tt)
fit_more (x ∷ ms) m f g = (f.0, fit_more ms m f.1 g)

module _ (count : ℕ) (few : count < 2 ^ 47) where
  -- A message is written, and counted in both counters.
  one_more :
      (k j : ℕ) (s : Feed) (ms : List Message) (m : Message) (output : List ℕ)
      → IsWriting count k s ms
      → s.emitted < count
      → output ≡ s.output ++ frame (encode m)
      → Fits m
      → k ≤ j + 1
      → IsWriting count j
          (record {
            emitted = (s.emitted + 1) % 2 ^ 64;
            id = s.id;
            timestamp = (s.timestamp + 1) % 2 ^ 64;
            output = output;
          })
          (ms ++ m ∷ [])
  one_more k j s ms m output v more wrote_m f less = record {
    wrote = wrote_m ∙ (ap (λ bs. bs ++ frame (encode m)) v.wrote ∙ sym (frames-append ms m));
    emitted_is = omega (arith, v.emitted_is, more, few, length-append ms (m ∷ []));
    bound = omega (arith, more, few);
    id_small = omega (arith, v.id_small, more, few, less);
    time_is = omega (arith, v.time_is, more, few);
    fit = fit_more ms m v.fit f;
  }

  turn_id :
      (s : Feed) (ms : List Message) → IsWriting count 0 s ms → IsWriting count 1 (next_id s) ms
  turn_id s ms v = record {
    wrote = v.wrote;
    emitted_is = v.emitted_is;
    bound = v.bound;
    id_small = omega (arith, v.id_small, v.bound, few);
    time_is = v.time_is;
    fit = v.fit;
  }

  add-IsWriting :
      (s : Feed) (ms : List Message)
      → IsWriting count 1 s ms
      → s.emitted < count
      → IsWriting count 0 (after_add s) (ms ++ first_message s.id s.timestamp ∷ [])
  add-IsWriting s ms v more =
      one_more 1 0 s ms (first_message s.id s.timestamp) _ v more
        (write_add-frame (side_of s.id) s.id s.timestamp (quantity_of s.id)
          (price_of (side_of s.id) s.id) s.output)
        (first_message-Fits s.id s.timestamp (omega (arith, v.id_small, v.bound, few))
          (omega (arith, v.time_is, v.bound, few)))
        (omega arith)

  second-IsWriting :
      (s : Feed) (ms : List Message)
      → IsWriting count 0 s ms
      → s.emitted < count
      → IsWriting count 0 (after_second s) (ms ++ second_message s.id s.timestamp ∷ [])
  second-IsWriting s ms v more =
      one_more 0 0 s ms (second_message s.id s.timestamp) _ v more
        (write_second-frame s.id s.timestamp s.output)
        (second_message-Fits s.id s.timestamp (omega (arith, v.id_small, v.bound, few))
          (omega (arith, v.time_is, v.bound, few)))
        (omega arith)

  -- What a round leaves.
  abbrev Wrote : ℕ → Feed → Type 0
  Wrote n s = (ms : List Message) × IsWriting count 1 s ms × (n < length ms)

  not_all : (sequential : Bool) (a b : ℕ) → (sequential || a == b) ≡ false → a ≤ b → a < b
  not_all true a b e h = absurd (ground (arith, e))
  not_all false a b e h = ground (arith, e, h)

  round-Wrote :
      (sequential : Bool) (s : Feed) (ms : List Message)
      → IsWriting count 1 s ms
      → s.emitted < count
      → Wrote (length ms) (generate_round sequential count s)
  round-Wrote sequential s ms v more =
      let v' = add-IsWriting s ms v more in
      elim (Bool-cases (sequential || (after_add s).emitted == count)) [
        | inl stop ↦ rw stop (
          ms ++ first_message s.id s.timestamp ∷ [],
          turn_id (after_add s) _ v',
          omega (arith, length-append ms (first_message s.id s.timestamp ∷ [])),
        )
        | inr on ↦
            let ms' = ms ++ first_message s.id s.timestamp ∷ [] in
            let less : (after_add s).emitted < count =
              not_all sequential (after_add s).emitted count on v'.bound in
            rw on (
              ms' ++ second_message (after_add s).id (after_add s).timestamp ∷ [],
              turn_id (after_second (after_add s)) _ (second-IsWriting (after_add s) ms' v' less),
              omega (
                arith,
                length-append ms (first_message s.id s.timestamp ∷ []),
                length-append ms' (second_message (after_add s).id (after_add s).timestamp ∷ []),
              ),
            )
      ]

  generate_from-decoded :
      (n : ℕ) (sequential : Bool) (s : Feed) (ms : List Message)
      → IsWriting count 1 s ms
      → count < n + length ms
      → (all : List Message) × (generate_from n sequential count s ≡ some (frames (map encode all)))
        × (length all ≡ count)
        × All Fits all
  unfolding generate_from
  generate_from-decoded zero sequential s ms v enough =
      absurd (omega (arith, enough, v.emitted_is, v.bound))
  generate_from-decoded (suc n) sequential s ms v enough = elim (Bool-cases (ltb s.emitted count)) [
    | inl more ↦
        let (ms', v', grown) = round-Wrote sequential s ms v (ltb→lt s.emitted count more) in
        rw more (
          generate_from-decoded n sequential (generate_round sequential count s) ms' v'
            (omega (arith, enough, grown)))
    | inr end ↦ rw end (
      ms,
      ap some v.wrote,
      omega (arith, ltb→ge s.emitted count end, v.emitted_is, v.bound),
      v.fit,
    )
  ]

  start-IsWriting :
      IsWriting count 1 (record { emitted = 0; id = 1; timestamp = 1; output = [] }) []
  start-IsWriting = record {
    wrote = refl;
    emitted_is = refl;
    bound = omega arith;
    id_small = omega arith;
    time_is = refl;
    fit = tt;
  }

  generate-frames :
      (sequential : Bool)
      → (all : List Message) × (generate sequential count ≡ some (frames (map encode all)))
        × (length all ≡ count)
        × All Fits all
  unfolding generate
  generate-frames sequential =
      generate_from-decoded (count + 1) sequential
        (record { emitted = 0; id = 1; timestamp = 1; output = [] }) [] start-IsWriting
        (omega arith)

-- For fewer than 2^47 messages and both workloads, the generator ends, and what it writes is decoded in
-- full: the callback gets as many messages as were asked for, each is counted as decoded, none is
-- refused, and no frame is left begun.
pub generate-consume :
    {S : Type 0} (callback : S → Message → S) (s : S) (sequential : Bool) (count : ℕ)
    → count < 2 ^ 47
    → (output : List ℕ) × (all : List Message) × (generate sequential count ≡ some output)
      × (length all ≡ count)
      × Leaves callback
          (consume callback output fresh_decoder s)
          true
          (call_all callback s all)
          (record { decoded = count; malformed = 0; unsupported = 0 })
generate-consume callback s sequential count few =
    let (all, wrote, long, fit) = generate-frames count few sequential in
    (
      frames (map encode all),
      all,
      wrote,
      long,
      rw (← counted all 0 count (omega (arith, long)) (omega (arith, few))) (
          consume-encode callback all fresh_decoder s
            (record { valid = fresh_decoder-IsDecoder; no_length = refl }) fit),
    )
  where
    counted :
        (ms : List Message) (n m : ℕ)
        → n + length ms ≡ m
        → m < 2 ^ 64
        → count_all (record { decoded = n; malformed = 0; unsupported = 0 }) ms
          ≡ record { decoded = m; malformed = 0; unsupported = 0 }
    counted [] n m e small =
        ap (λ k. record { decoded = k; malformed = 0; unsupported = 0 }) (omega (arith, e))
    counted (x ∷ ms) n m e small =
        ap (λ k. count_all (record { decoded = k; malformed = 0; unsupported = 0 }) ms)
          (omega (arith, e, small))
        ∙ counted ms (n + 1) m (omega (arith, e)) small
