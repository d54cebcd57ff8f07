-- ===== src/Replay/Stream.antt =====
-- tools/replay/session.py: the resume cursor and the stream of server-sent events.
pub mod Resume
use full_shelf.Prelude.{
  ℕ, String, Bool, true, false, not, ltb, Option, none, some, List, [], ◌∷◌, ◌++◌, map, select,
  is_none, concat, str_nat, ◌==◌, or_else, if◌then◌else◌,
}
use full_shelf.Prelude.Int.{ℤ, pos, negsuc}
use full_shelf.Replay.Events.{Envelope, last_sequence}
use full_shelf.Replay.Session.{Reply, refused, granted, Session}

-- `str.strip`, `int(text)` where it does not raise, and `json.dumps`.
pub record TextLibrary : Type 0 where
  pub strip : String → String
  pub int : String → Option ℤ
  pub dumps : Envelope ℕ → String

bounded_event_id : Option ℤ → Reply (Option ℕ)
bounded_event_id none = refused 400 "INVALID_LAST_EVENT_ID"
bounded_event_id (some (negsuc n)) = refused 400 "INVALID_LAST_EVENT_ID"
bounded_event_id (some (pos n)) =
    if ltb last_sequence n then refused 400 "INVALID_LAST_EVENT_ID" else granted (some n)

parse_stripped : (String → Option ℤ) → String → Reply (Option ℕ)
unfolding bounded_event_id
parse_stripped int raw = if raw == "" then granted none else bounded_event_id (int raw)

unfoldable pub parse_last_event_id : TextLibrary → Option String → Reply (Option ℕ)
unfolding parse_stripped
parse_last_event_id x none = granted none
parse_last_event_id x (some raw) = parse_stripped x.int (x.strip raw)

unfoldable pub sse_frame : TextLibrary → Envelope ℕ → String
sse_frame x frame = concat (
    "id: " ∷ str_nat frame.sequence ∷ "\nevent: replay_event\ndata: " ∷ x.dumps frame ∷ "\n\n" ∷ [])

-- One round of the loop: the session under the lock at its head and, where the reader waits, whether
-- it was woken and the session when the wait ends. Between rounds any calls may happen.
pub record Round : Type 0 where
  pub head : Session
  pub woke : Bool
  pub awake : Session

-- What the stream yields: the frame of an event, or the heartbeat.
pub data Chunk : Type 0 where
  event : Envelope ℕ → Chunk
  keep_alive : Chunk

unfoldable pub pending : ℕ → Session → List (Envelope ℕ)
pending after s = select (λ frame. ltb after frame.sequence) s.emitted

-- `after = frame["sequence"]` for each frame of a batch in turn.
unfoldable pub last_sent : ℕ → List (Envelope ℕ) → ℕ
last_sent after [] = after
last_sent after (frame ∷ rest) = last_sent frame.sequence rest

-- The answer to the frames that are pending: they are sent, and the last of them is the new cursor.
unfoldable pub sent : ℕ → List (Envelope ℕ) → Option (List Chunk × ℕ)
unfolding last_sent
sent after batch = some (map event batch, last_sent after batch)

-- One round: what it yields and the cursor after it, or nothing where the stream returns.
unfoldable pub round_result : ℕ → List (Envelope ℕ) → Round → Option (List Chunk × ℕ)
unfolding pending sent
round_result after [] round =
    if round.head.closed
    then none
    else if round.awake.closed
    then none
    else if round.woke
    then sent after (pending after round.awake)
    else some (keep_alive ∷ [], after)
round_result after (frame ∷ rest) round = sent after (frame ∷ rest)

-- The default stream, with neither a limit of frames nor an idle timeout. It is cut off where the
-- rounds end.
unfoldable pub stream_after : ℕ → List Round → List Chunk
unfolding round_result pending
stream_after after [] = []
stream_after after (round ∷ later) = elim (round_result after (pending after round.head) round) [
  | none ↦ []
  | some (chunks, next) ↦ chunks ++ stream_after next later
]

-- `stream(session, last_event_id=…)`: an absent cursor is 0.
stream_parsed : Reply (Option ℕ) → List Round → Reply (List Chunk)
stream_parsed (granted after) rounds = granted (stream_after (or_else after 0) rounds)
stream_parsed (refused status code) rounds = refused status code
stream_parsed Reply.key_error rounds = Reply.key_error

unfoldable pub stream : TextLibrary → Option String → List Round → Reply (List Chunk)
unfolding stream_parsed parse_last_event_id
stream x last_event_id rounds = stream_parsed (parse_last_event_id x last_event_id) rounds
