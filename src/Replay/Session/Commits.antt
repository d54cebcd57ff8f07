-- ===== src/Replay/Session/Commits.antt =====
-- A commit keeps a session well formed.
use full_shelf.Prelude.{
  ℕ, zero, suc, String, ◌+◌, ◌≤◌, ◌<◌, ◌≡◌, refl, ap, true, some, List, [], ◌∷◌, ◌++◌, All, map,
  is_none, leb, if◌then◌else◌, arith,
}
use full_shelf.Replay.Events.{Envelope, last_sequence, human_gate_sequence, by_sequence, envelope}
use full_shelf.Replay.Events.Lookup.{by_sequence-some}
use full_shelf.Replay.Frames.{range_from}
use full_shelf.Replay.Session.{complete, Session, granted, commit_locked, emit}
use full_shelf.Replay.Session.Sound.{IsSound, IsCanonical, sequences}

pub range_from-suc :
    (start count : ℕ)
    → range_from start (suc count) ≡ range_from start count ++ ((start + count) ∷ [])
unfolding range_from
range_from-suc start zero = ap (λ n. n ∷ []) (omega arith)
range_from-suc start (suc count) =
    let rest = range_from-suc (suc start) count in
    let last : suc start + count ≡ start + suc count = omega arith in rw (rest, last) refl

pub map-append {ℓ κ} :
    {A : Type ℓ} {B : Type κ} (f : A → B) (xs ys : List A) → map f (xs ++ ys) ≡ map f xs ++ map f ys
map-append f [] ys = refl
map-append f (x ∷ xs) ys = ap (λ rest. f x ∷ rest) (map-append f xs ys)

pub All-append {ℓ κ} :
    {A : Type ℓ} (P : A → Type κ) (xs : List A) (x : A) → All P xs → P x → All P (xs ++ (x ∷ []))
All-append P [] x h p = (p, tt)
All-append P (y ∷ ys) x h p = (h.0, All-append P ys x (h.1) p)

-- A feed that grows by the next event.
pub gapless-append :
    (feed : List (Envelope ℕ)) (frame : Envelope ℕ) (cursor : ℕ)
    → sequences feed ≡ range_from 1 cursor
    → frame.sequence ≡ 1 + cursor
    → sequences (feed ++ (frame ∷ [])) ≡ range_from 1 (1 + cursor)
gapless-append feed frame cursor h next =
    let up : 1 + cursor ≡ suc cursor = omega arith in
    rw (map-append (λ f. f.sequence) feed (frame ∷ []), h, next, up, range_from-suc 1 cursor, up)
      refl

-- A sequence of the day has its event, so the lookup does not raise.
pub commit_locked_lem :
    (now : String) (n : ℕ) (s : Session)
    → 1 ≤ n
    → n ≤ last_sequence
    → (frame : Envelope ℕ) × IsCanonical frame
      × (frame.sequence ≡ n)
      × (commit_locked now n s
          ≡ (record s { emitted = s.emitted ++ (frame ∷ []); cursor = n }, granted frame))
unfolding commit_locked emit envelope
commit_locked_lem now n s low high =
    let found = by_sequence-some n low high in
    let same : by_sequence (found.0).sequence ≡ some (found.0) = rw (found.2) (found.1) in
    (envelope found.0 s.session_id now, (found.0, same, refl, refl), found.2, rw (found.1) refl)

-- The session after a commit of the next event.
abbrev pub extended : Session → Envelope ℕ → Session
extended s frame = record s {
  emitted = s.emitted ++ (frame ∷ []);
  cursor = 1 + s.cursor;
  mode = if leb last_sequence (1 + s.cursor) then complete else s.mode;
}

pub extended-IsSound :
    (s : Session) (frame : Envelope ℕ)
    → IsSound s
    → s.cursor < last_sequence
    → (is_none s.approval ≡ true → 1 + s.cursor < human_gate_sequence)
    → IsCanonical frame
    → frame.sequence ≡ 1 + s.cursor
    → IsSound (extended s frame)
extended-IsSound s frame sound low allowed canonical next = record {
  gapless = gapless-append s.emitted frame s.cursor sound.gapless next;
  authentic = All-append IsCanonical s.emitted frame sound.authentic canonical;
  opened = omega (arith, sound.opened);
  ended = omega arith;
  gated = ground (arith, sound.gated);
  isolated = λ name e. omega (arith, sound.isolated name e);
  finished = ground (arith, sound.finished);
  waiting = ground (arith, sound.gated, sound.waiting);
}
