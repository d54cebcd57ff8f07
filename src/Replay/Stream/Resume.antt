-- ===== src/Replay/Stream/Resume.antt =====
-- A stream resumes strictly after its cursor, without a gap or a repetition.
use full_shelf.Prelude.{
  ℕ, zero, suc, ◌+◌, ◌-◌, ◌≤◌, ◌<◌, ◌≡◌, refl, ap, subst, none, some, sym, true, false, ltb, List,
  [], ◌∷◌, ◌++◌, map, select, All, Bool-cases, inl, inr, arith,
}
use full_shelf.Replay.Events.{Envelope}
use full_shelf.Replay.Frames.{range_from}
use full_shelf.Replay.Session.{Session}
use full_shelf.Replay.Session.Sound.{IsSound, sequences}
use full_shelf.Replay.Session.Commits.{map-append}
use full_shelf.Replay.Stream.{
  Round, Chunk, event, keep_alive, pending, last_sent, stream_after, sent, round_result,
}

-- The events of what a stream yields.
unfoldable pub events_of : List Chunk → List (Envelope ℕ)
events_of [] = []
events_of (event frame ∷ rest) = frame ∷ events_of rest
events_of (keep_alive ∷ rest) = events_of rest

events_of-append :
    (chunks rest : List Chunk) → events_of (chunks ++ rest) ≡ events_of chunks ++ events_of rest
unfolding events_of
events_of-append [] rest = refl
events_of-append (event frame ∷ chunks) rest = ap (λ r. frame ∷ r) (events_of-append chunks rest)
events_of-append (keep_alive ∷ chunks) rest = events_of-append chunks rest

events_of-map : (batch : List (Envelope ℕ)) → events_of (map event batch) ≡ batch
unfolding events_of
events_of-map [] = refl
events_of-map (frame ∷ batch) = ap (λ r. frame ∷ r) (events_of-map batch)

range_from-append :
    (start a b : ℕ) → range_from start (a + b) ≡ range_from start a ++ range_from (start + a) b
unfolding range_from
range_from-append start zero b =
    let left : zero + b ≡ b = omega arith in
    let right : start + zero ≡ start = omega arith in rw (left, right) refl
range_from-append start (suc a) b =
    let left : suc a + b ≡ suc (a + b) = omega arith in
    let right : start + suc a ≡ suc start + a = omega arith in
    rw (left, right, range_from-append (suc start) a b) refl

range_from-empty : (start n : ℕ) → [] ≡ range_from start n → n ≡ 0
unfolding range_from
range_from-empty start zero h = refl
range_from-empty start (suc n) h = cc

-- What is sent brings the cursor to the last of it.
last_sent-range :
    (after n : ℕ) (batch : List (Envelope ℕ))
    → sequences batch ≡ range_from (1 + after) n
    → last_sent after batch ≡ after + n
unfolding range_from last_sent
last_sent-range after zero [] h = omega arith
last_sent-range after zero (frame ∷ batch) h = cc
last_sent-range after (suc n) [] h = cc
last_sent-range after (suc n) (frame ∷ batch) h =
    let here : frame.sequence ≡ 1 + after = cc in
    let up : suc (1 + after) ≡ 1 + frame.sequence = omega arith in
    let tail : sequences batch ≡ range_from (suc (1 + after)) n = cc in
    omega (arith, last_sent-range frame.sequence n batch (rw up at tail), here)

module _ (after : ℕ) where
  later_than : List (Envelope ℕ) → List (Envelope ℕ)
  later_than feed = select (λ frame. ltb after frame.sequence) feed

  select-all :
      (start count : ℕ) (feed : List (Envelope ℕ))
      → sequences feed ≡ range_from start count
      → after < start
      → later_than feed ≡ feed
  unfolding range_from later_than
  select-all start count [] h above = refl
  select-all start zero (frame ∷ feed) h above = cc
  select-all start (suc count) (frame ∷ feed) h above =
      let here : frame.sequence ≡ start = cc in
      let tail : sequences feed ≡ range_from (suc start) count = cc in
      let kept : ltb after frame.sequence ≡ true = ground arith in
      rw (kept, select-all (suc start) count feed tail (omega arith)) refl

  -- Of events in order, those after the cursor.
  select-above :
      (start count skipped : ℕ) (feed : List (Envelope ℕ))
      → sequences feed ≡ range_from start count
      → start + skipped ≡ 1 + after
      → sequences (later_than feed) ≡ range_from (1 + after) (count - skipped)
  unfolding range_from later_than
  select-above start count zero feed h meet =
      let first : 1 + after ≡ start = omega arith in
      let size : count - zero ≡ count = omega arith in
      rw (select-all start count feed h (omega arith), first, size) h
  select-above start zero (suc skipped) [] h meet =
      let size : zero - suc skipped ≡ zero = omega arith in rw size refl
  select-above start zero (suc skipped) (frame ∷ feed) h meet = cc
  select-above start (suc count) (suc skipped) [] h meet = cc
  select-above start (suc count) (suc skipped) (frame ∷ feed) h meet =
      let here : frame.sequence ≡ start = cc in
      let tail : sequences feed ≡ range_from (suc start) count = cc in
      let dropped : ltb after frame.sequence ≡ false = ground arith in
      let size : suc count - suc skipped ≡ count - skipped = omega arith in
      rw (dropped, size) (select-above (suc start) count skipped feed tail (omega arith))

  pending_lem :
      (s : Session)
      → IsSound s
      → sequences (pending after s) ≡ range_from (1 + after) (s.cursor - after)
  unfolding pending later_than
  pending_lem s sound = select-above 1 s.cursor after s.emitted sound.gapless refl

-- What one round sends continues the feed after the cursor and reaches the cursor of the session.
Continues : ℕ → List Chunk → ℕ → Type 0
Continues after chunks next =
    (n : ℕ) × (sequences (events_of chunks) ≡ range_from (1 + after) n) × (next ≡ after + n)

abbrev IsOpen : Round → Type 0
IsOpen round =
    IsSound round.head
    × IsSound round.awake
    × (round.head.closed ≡ false)
    × (round.awake.closed ≡ false)

sent_lem :
    (after : ℕ) (batch : List (Envelope ℕ)) (n : ℕ)
    → sequences batch ≡ range_from (1 + after) n
    → (chunks : List Chunk) × (next : ℕ) × (sent after batch ≡ some (chunks, next))
      × Continues after chunks next
      × (next ≡ after + n)
unfolding sent Continues
sent_lem after batch n h = (
  map event batch,
  last_sent after batch,
  refl,
  (n, rw (events_of-map batch) h, last_sent-range after n batch h),
  last_sent-range after n batch h,
)

-- A round whose reader waits: nothing new, or what the wait brought.
waiting_lem :
    (after : ℕ) (round : Round)
    → IsOpen round
    → (chunks : List Chunk) × (next : ℕ) × (round_result after [] round ≡ some (chunks, next))
      × Continues after chunks next
unfolding round_result Continues events_of range_from
waiting_lem after round (head_sound, awake_sound, head_open, awake_open) =
    elim (Bool-cases round.woke) [
      | inl woken ↦
          let result =
            sent_lem after (pending after round.awake) (round.awake.cursor - after)
              (pending_lem after round.awake awake_sound) in
          (result.0, result.1, rw (head_open, awake_open, woken) (result.2), result.3)
      | inr idle ↦
          (keep_alive ∷ [], after, rw (head_open, awake_open, idle) refl, (0, refl, omega arith))
    ]

round_lem :
    (after : ℕ) (round : Round) (batch : List (Envelope ℕ))
    → IsOpen round
    → sequences batch ≡ range_from (1 + after) (round.head.cursor - after)
    → (chunks : List Chunk) × (next : ℕ) × (round_result after batch round ≡ some (chunks, next))
      × Continues after chunks next
      × (round.head.cursor ≤ next)
unfolding round_result Continues
round_lem after round [] open_ h =
    let result = waiting_lem after round open_ in
    let nothing : round.head.cursor - after ≡ 0 =
      range_from-empty (1 + after) (round.head.cursor - after) h in
    (result.0, result.1, result.2, result.3, omega (arith, result.3.2, nothing))
round_lem after round (frame ∷ rest) open_ h =
    let result = sent_lem after (frame ∷ rest) (round.head.cursor - after) h in
    (result.0, result.1, result.2, result.3, omega (arith, result.4))

stream_after-step :
    (after : ℕ) (round : Round) (later : List Round) {chunks : List Chunk} {next : ℕ}
    → round_result after (pending after round.head) round ≡ some (chunks, next)
    → stream_after after (round ∷ later) ≡ chunks ++ stream_after next later
unfolding stream_after
stream_after-step after round later e =
    ap (λ r. elim r [ none ↦ [] | some p ↦ p.0 ++ stream_after p.1 later ]) e

Continues-append :
    (after next : ℕ) (chunks rest : List Chunk) (n : ℕ)
    → Continues after chunks next
    → sequences (events_of rest) ≡ range_from (1 + next) n
    → (m : ℕ) × (sequences (events_of (chunks ++ rest)) ≡ range_from (1 + after) m)
      × (after + m ≡ next + n)
unfolding Continues
Continues-append after next chunks rest n (k, sent_range, reach) h =
    let shift : 1 + next ≡ (1 + after) + k = omega arith in
    (
      k + n,
      rw
          (
            events_of-append chunks rest,
            map-append (λ f. f.sequence) (events_of chunks) (events_of rest),
            sent_range,
            h,
            shift,
            range_from-append (1 + after) k n,
          )
          refl,
      omega arith,
    )

-- While the session is open, the stream yields exactly the events after the given cursor, in
-- order, without a gap or a repetition, and at least all that were there at the head of every round.
pub stream_after-resumes :
    (after : ℕ) (rounds : List Round)
    → All IsOpen rounds
    → (n : ℕ) × (sequences (events_of (stream_after after rounds)) ≡ range_from (1 + after) n)
      × All (λ round. round.head.cursor ≤ after + n) rounds
unfolding stream_after range_from events_of
stream_after-resumes after [] _ = (0, refl, tt)
stream_after-resumes after (round ∷ later) (open_, rest_open) =
    let here =
      round_lem after round (pending after round.head) open_
        (pending_lem after round.head (open_.0)) in
    let rest = stream_after-resumes (here.1) later rest_open in
    let joined =
      Continues-append after (here.1) (here.0) (stream_after (here.1) later) (rest.0) (here.3)
        (rest.1) in
    let bound : here.1 + rest.0 ≡ after + joined.0 = sym (joined.2) in
    (
      joined.0,
      rw (stream_after-step after round later (here.2)) (joined.1),
      (
        omega (arith, here.4, bound),
        subst (λ m. All (λ round. round.head.cursor ≤ m) later) bound (rest.2),
      ),
    )
