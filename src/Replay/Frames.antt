-- ===== src/Replay/Frames.antt =====
-- The lists that a session keeps its frames in.
use full_shelf.Prelude.{ℕ, suc, zero, String, Option, none, some, List, [], ◌∷◌}
use full_shelf.Replay.Events.{CanonicalEvent, Envelope, by_sequence, envelope}

-- `range(start, start + count)`
unfoldable pub range_from : ℕ → ℕ → List ℕ
range_from start zero = []
range_from start (suc count) = start ∷ range_from (suc start) count

-- `xs[-1] = f(xs[-1])`
unfoldable pub update_last {ℓ} : {A : Type ℓ} → (A → A) → List A → List A
update_last f [] = []
update_last f (x ∷ []) = f x ∷ []
update_last f (x ∷ y ∷ rest) = x ∷ update_last f (y ∷ rest)

frame_before : String → String → Option CanonicalEvent → List (Envelope ℕ) → List (Envelope ℕ)
unfolding envelope
frame_before session_id now none rest = rest
frame_before session_id now (some e) rest = envelope e session_id now ∷ rest

-- The frames of the events of these sequences, all of which exist.
unfoldable pub frames_of : String → String → List ℕ → List (Envelope ℕ)
unfolding frame_before by_sequence
frames_of session_id now [] = []
frames_of session_id now (n ∷ rest) =
    frame_before session_id now (by_sequence n) (frames_of session_id now rest)

-- `xs[:n]`
unfoldable pub take_frames {ℓ} : {A : Type ℓ} → ℕ → List A → List A
take_frames zero xs = []
take_frames (suc n) [] = []
take_frames (suc n) (x ∷ xs) = x ∷ take_frames n xs
