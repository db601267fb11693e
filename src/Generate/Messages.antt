-- ===== src/Generate/Messages.antt =====
-- The messages that tools/generate_feed.cpp writes: their bytes are their encoding, and their fields fit.
use stock_data_engine.Base.{
  ℕ, ◌+◌, ◌%◌, ◌^◌, ◌≤◌, ◌<◌, ◌≡◌, refl, List, [], ◌∷◌, ◌++◌, ◌==◌, if◌then◌else◌, arith,
  Bool-cases, inl, inr, IsU64,
}
use stock_data_engine.Itch.Messages.{
  Side, buy, sell, Message, Header, add_order, order_cancel, order_delete, order_replace,
  order_executed,
}
use stock_data_engine.Itch.Parser.Encode.{encode, Fits}
use stock_data_engine.Itch.Mold.Frames.{frame}
use stock_data_engine.Generate.{
  side_of, quantity_of, price_of, price_after, write_add, write_second,
}

abbrev pub header_at : ℕ → Header
header_at timestamp = record { stock_locate = 1; tracking_number = 0; timestamp = timestamp }

abbrev pub first_message : ℕ → ℕ → Message
first_message id timestamp = add_order (record {
  header = header_at timestamp;
  order_id = id;
  side = side_of id;
  quantity = quantity_of id;
  stock = b'A' ∷ b'A' ∷ b'P' ∷ b'L' ∷ b' ' ∷ b' ' ∷ b' ' ∷ b' ' ∷ [];
  price = price_of (side_of id) id;
})

pub write_add-frame :
    (side : Side) (id timestamp quantity price : ℕ) (output : List ℕ)
    → write_add id timestamp side quantity price output
      ≡ output
        ++ frame (
            encode (
              add_order (record {
                header = header_at timestamp;
                order_id = id;
                side = side;
                quantity = quantity;
                stock = b'A' ∷ b'A' ∷ b'P' ∷ b'L' ∷ b' ' ∷ b' ' ∷ b' ' ∷ b' ' ∷ [];
                price = price;
              })))
write_add-frame buy id timestamp quantity price output = refl
write_add-frame sell id timestamp quantity price output = refl

abbrev pub second_message : ℕ → ℕ → Message
second_message id timestamp =
    if id % 4 == 0
    then order_cancel
        (record { header = header_at timestamp; order_id = id; canceled = quantity_of id })
    else if id % 4 == 1
    then order_executed (record {
      header = header_at timestamp;
      order_id = id;
      executed = quantity_of id;
      match_number = (id + 9000000) % 2 ^ 64;
    })
    else if id % 4 == 2
    then order_delete (record { header = header_at timestamp; order_id = id })
    else order_replace (record {
      header = header_at timestamp;
      original_order_id = id;
      new_order_id = (id + 1000000000) % 2 ^ 64;
      quantity = 50;
      price = price_after (side_of id) (price_of (side_of id) id);
    })

pub write_second-frame :
    (id timestamp : ℕ) (output : List ℕ)
    → write_second id timestamp output ≡ output ++ frame (encode (second_message id timestamp))
write_second-frame id timestamp output = elim (Bool-cases (id % 4 == 0)) [
  | inl a ↦ rw a refl
  | inr a ↦ elim (Bool-cases (id % 4 == 1)) [
    | inl b ↦ rw (a, b) refl
    | inr b ↦ elim (Bool-cases (id % 4 == 2)) [
      | inl c ↦ rw (a, b, c) refl
      | inr c ↦ rw (a, b, c) refl
    ]
  ]
]

price_of-le : (side : Side) (id : ℕ) → price_of side id ≤ 1860000
price_of-le buy id = omega arith
price_of-le sell id = omega arith

price_after-lt : (side : Side) (price : ℕ) → price ≤ 1860000 → price_after side price < 2 ^ 32
price_after-lt buy price h = omega (arith, h)
price_after-lt sell price h = omega (arith, h)

pub first_message-Fits :
    (id timestamp : ℕ) → IsU64 id → timestamp < 2 ^ 48 → Fits (first_message id timestamp)
first_message-Fits id timestamp small now = (
  (omega arith, omega arith, now),
  (small, omega arith, refl, omega (arith, price_of-le (side_of id) id)),
)

pub second_message-Fits :
    (id timestamp : ℕ) → IsU64 id → timestamp < 2 ^ 48 → Fits (second_message id timestamp)
second_message-Fits id timestamp small now = elim (Bool-cases (id % 4 == 0)) [
  | inl a ↦ rw a ((omega arith, omega arith, now), (small, omega arith))
  | inr a ↦ elim (Bool-cases (id % 4 == 1)) [
    | inl b ↦ rw (a, b) ((omega arith, omega arith, now), (small, omega arith, omega arith))
    | inr b ↦ elim (Bool-cases (id % 4 == 2)) [
      | inl c ↦ rw (a, b, c) ((omega arith, omega arith, now), small)
      | inr c ↦
          rw (a, b, c)
            (
              (omega arith, omega arith, now),
              (
                small,
                omega arith,
                omega arith,
                price_after-lt (side_of id) (price_of (side_of id) id)
                    (price_of-le (side_of id) id),
              ),
            )
    ]
  ]
]
