-- ===== src/Itch/Sequence/Gaps.antt =====
-- What `SequenceTracker` reports of a stream of packets: src/moldudp64.cpp.
use stock_data_engine.Base.{
  sym, ◌∙◌, ℕ, ◌+◌, ◌<◌, ◌≡◌, ◌⊎◌, refl, true, false, List, [], ◌∷◌, max, arith, IsU64,
}
use stock_data_engine.Itch.Mold.{MoldHeader}
use stock_data_engine.Itch.Sequence.{
  SequenceTracker, SequenceResult, in_order, gap, rewind, same_session, advances, observe,
}

pub same_session_refl : (xs : List ℕ) → same_session xs xs ≡ true
unfolding same_session
same_session_refl [] = refl
same_session_refl (x ∷ xs) = ground (arith, same_session_refl xs)

-- Every status is what the sequence number says, and `missing` is how far it is ahead.
pub record Reports (expected : ℕ) (r : SequenceResult) (h : MoldHeader) : Type 0 where
  pub ahead : expected < h.sequence → (r.status ≡ gap) × (expected + r.missing ≡ h.sequence)
  pub behind : h.sequence < expected → (r.status ≡ rewind) × (r.missing ≡ 0)
  pub on_time : h.sequence ≡ expected → (r.status ≡ in_order) × (r.missing ≡ 0)

-- In the session that is tracked, with 64-bit sequence numbers that do not wrap, a packet is reported
-- as ahead, behind or on time by its sequence number alone; the number expected next becomes the
-- end of the packet, unless that is behind; the session stays.
pub observe-same :
    (t : SequenceTracker) (h : MoldHeader)
    → t.initialized ≡ true
    → h.session ≡ t.session
    → IsU64 (h.sequence + advances h)
    → Reports t.expected (observe t h).0 h
      × ((observe t h).1.expected ≡ max t.expected (h.sequence + advances h))
      × ((observe t h).1.session ≡ t.session)
      × ((observe t h).1.initialized ≡ true)
unfolding observe
observe-same t h on same fits = ground (arith, agree)
  where
    agree : same_session h.session t.session ≡ true
    agree = rw same (same_session_refl t.session)

-- The first packet, and the first of another session, within 64-bit sequence numbers, set the
-- tracker to the packet's session and end, whatever was expected; nothing is missing then.
pub observe-fresh :
    (t : SequenceTracker) (h : MoldHeader)
    → IsU64 (h.sequence + advances h)
    → (t.initialized ≡ false) ⊎ (same_session h.session t.session ≡ false)
    → ((observe t h).1
        ≡ record { session = h.session; expected = h.sequence + advances h; initialized = true })
      × ((observe t h).0.missing ≡ 0)
unfolding observe
observe-fresh t h fits fresh = ground arith

-- The packets of one session, each beginning where the one before it ended.
abbrev pub Contiguous : List ℕ → ℕ → List MoldHeader → Type 0
Contiguous session n [] = Unit {0}
Contiguous session n (h ∷ hs) =
    (h.session ≡ session) × (h.sequence ≡ n) × Contiguous session (n + advances h) hs

abbrev pub total : List MoldHeader → ℕ
total [] = 0
total (h ∷ hs) = advances h + total hs

unfoldable pub observe_all : SequenceTracker → List MoldHeader → SequenceTracker
observe_all t [] = t
observe_all t (h ∷ hs) = observe_all (observe t h).1 hs

abbrev pub AllInOrder : SequenceTracker → List MoldHeader → Type 0
AllInOrder t [] = Unit {0}
AllInOrder t (h ∷ hs) = ((observe t h).0.status ≡ in_order) × AllInOrder (observe t h).1 hs

abbrev pub Tracks : SequenceTracker → List ℕ → ℕ → Type 0
Tracks t session n = (t.initialized ≡ true) × (t.session ≡ session) × (t.expected ≡ n)

pub observe-Tracks :
    (t : SequenceTracker) (session : List ℕ) (n : ℕ) (h : MoldHeader)
    → Tracks t session n
    → h.session ≡ session
    → h.sequence ≡ n
    → IsU64 (n + advances h)
    → ((observe t h).0.status ≡ in_order) × Tracks (observe t h).1 session (n + advances h)
observe-Tracks t session n h (on, s, e) hs hn fits =
    let same = observe-same t h on (hs ∙ sym s) (rw hn fits) in
    ((same.0.on_time (hn ∙ sym e)).0, (same.3, same.2 ∙ s, omega (arith, same.1, hn, e)))

-- Packets of the tracked session that begin at the expected number and follow one another without
-- a hole, within 64-bit sequence numbers, are all reported in order, and the tracker then expects
-- the number after the last message.
pub observe_all-Contiguous :
    (hs : List MoldHeader) (t : SequenceTracker) (session : List ℕ) (n : ℕ)
    → Tracks t session n
    → Contiguous session n hs
    → IsU64 (n + total hs)
    → AllInOrder t hs × Tracks (observe_all t hs) session (n + total hs)
unfolding observe_all
observe_all-Contiguous [] t session n tr c fits = (tt, (tr.0, tr.1, omega (arith, tr.2)))
observe_all-Contiguous (h ∷ hs) t session n tr c fits =
    let step = observe-Tracks t session n h tr c.0 c.1 (omega arith) in
    let rest =
      observe_all-Contiguous hs (observe t h).1 session (n + advances h) step.1 c.2 (omega arith) in
    ((step.0, rest.0), (rest.1.0, rest.1.1, omega (arith, rest.1.2)))

-- Packets that are lost on the way show in the next one: after contiguous packets of the tracked
-- session that are seen and contiguous ones that are not, within 64-bit sequence numbers, the
-- packet that follows is reported as a gap, and `missing` is exactly the number of messages that
-- the lost packets held, if they held any.
pub observe-lost :
    (seen lost : List MoldHeader) (h : MoldHeader) (t : SequenceTracker) (session : List ℕ) (n : ℕ)
    → Tracks t session n
    → Contiguous session n seen
    → Contiguous session (n + total seen) lost
    → h.session ≡ session
    → h.sequence ≡ n + total seen + total lost
    → 0 < total lost
    → IsU64 (h.sequence + advances h)
    → ((observe (observe_all t seen) h).0.status ≡ gap)
      × ((observe (observe_all t seen) h).0.missing ≡ total lost)
observe-lost seen lost h t session n tr c _ hs hn pos fits =
    let after = observe_all-Contiguous seen t session n tr c (omega arith) in
    let report =
      (observe-same (observe_all t seen) h after.1.0 (hs ∙ sym after.1.1) fits).0.ahead
        (omega (arith, after.1.2)) in
    (report.0, omega (arith, report.1, after.1.2))
