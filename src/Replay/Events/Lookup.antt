-- ===== src/Replay/Events/Lookup.antt =====
-- Every sequence number of the day names exactly its event.
use full_shelf.Prelude.{
  ℕ, zero, suc, ◌+◌, ◌≤◌, ◌<◌, ◌≡◌, refl, some, List, [], ◌∷◌, map, first, select, nat_eq,
  nat_eq→eq, Bool-cases, inl, inr, arith,
}
use full_shelf.Replay.Frames.{range_from}
use full_shelf.Replay.Events.{
  CanonicalEvent, canonical_events, morning_events, recall_events, by_sequence, last_sequence,
}

-- A search that succeeds answers with an element that passes the test.
find_numbered :
    (n : ℕ) (start count : ℕ) (xs : List CanonicalEvent)
    → map (λ e. e.sequence) xs ≡ range_from start count
    → start ≤ n
    → n < start + count
    → (e : CanonicalEvent) × (first (select (λ e. nat_eq e.sequence n) xs) ≡ some e)
      × (e.sequence ≡ n)
unfolding range_from
find_numbered n start zero xs h low high = absurd (omega arith)
find_numbered n start (suc count) [] h low high = cc
find_numbered n start (suc count) (e ∷ xs) h low high = elim (Bool-cases (nat_eq e.sequence n)) [
  | inl hit ↦ (e, rw hit refl, nat_eq→eq e.sequence n hit)
  | inr miss ↦
      let tail : map (λ e. e.sequence) xs ≡ range_from (suc start) count = cc in
      let same : e.sequence ≡ start = cc in
      let next : suc start ≤ n = ground arith in
      let rest = find_numbered n (suc start) count xs tail next (omega arith) in
      (rest.0, rw miss (rest.1), rest.2)
]

events_numbered : map (λ e. e.sequence) canonical_events ≡ range_from 1 25
unfolding canonical_events morning_events recall_events range_from
events_numbered = refl

pub by_sequence-some :
    (n : ℕ)
    → 1 ≤ n
    → n ≤ last_sequence
    → (e : CanonicalEvent) × (by_sequence n ≡ some e) × (e.sequence ≡ n)
unfolding by_sequence
by_sequence-some n low high =
    find_numbered n 1 25 canonical_events events_numbered low (omega arith)
