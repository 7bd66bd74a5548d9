-- ===== src/LiveFiles/Sessions.antt =====
-- What happens within one session: `_offer`, `acknowledge`, the recording of a change, `replay`, and
-- `push` of a raw stream.
use docker_volume_backup.Base.{
  ℕ, ◌+◌, ltb, leb, Option, none, some, List, [], ◌∷◌, ◌++◌, Dict, map, keep_if, length, take_last,
  if◌then◌else◌,
}
use docker_volume_backup.LiveFiles.Defs.{
  Change, LiveChange, changed, resync_required, LiveSubscription, LiveRawStream, Session, Limits,
  bad_cursor, chunk_limit, stream_bytes, backpressure, Answer, good, bad,
}

-- `_Session`
unfoldable pub new_session : ℕ → Session
new_session now = record {
  events = [];
  next_id = 1;
  created_at = now;
  last_activity = now;
  subscribers = [];
  streams = [];
}

-- `LiveSubscription._offer` to an open subscription: a queue that is full gives way to one message
-- that asks the client to start over.
unfoldable pub offer : ℕ → LiveChange → LiveSubscription → LiveSubscription
offer queue_size event s =
    if ltb (length s.queue) queue_size
    then record s { queue = s.queue ++ changed event ∷ [] }
    else record s { queue = if ltb 0 queue_size then resync_required ∷ [] else [] }

-- `acknowledge`
unfoldable pub acknowledge : ℕ → LiveSubscription → Answer LiveSubscription
acknowledge event_id s =
    if ltb event_id s.cursor then bad bad_cursor else good (record s { cursor = event_id })

unfoldable pub offer_all : ℕ → LiveChange → Dict LiveSubscription → Dict LiveSubscription
unfolding offer
offer_all queue_size event subscribers = map (λ (k, s). (k, offer queue_size event s)) subscribers

-- What `publish_change` does to its session; `events` is a deque of at most `max_events`.
unfoldable pub record_change : Limits → Change → Session → LiveChange × Session
unfolding offer_all
record_change limits change s =
    let event : LiveChange = record { event_id = s.next_id; change = change } in
    (
      event,
      record s {
        next_id = s.next_id + 1;
        events = take_last limits.max_events (s.events ++ event ∷ []);
        subscribers = offer_all limits.queue_size event s.subscribers;
      },
    )

abbrev pub oldest_id : List LiveChange → ℕ → ℕ
oldest_id [] next_id = next_id
oldest_id (event ∷ events) next_id = event.event_id

-- `replay` in its session, after the event that the cursor names: `none` where it answers that a
-- resynchronisation is required.
unfoldable pub replay_session : ℕ → Session → Option (List LiveChange)
replay_session after s =
    if ltb (after + 1) (oldest_id s.events s.next_id)
    then none
    else some (keep_if (λ event. ltb after event.event_id) s.events)

-- `push` on an open stream; an error cancels the stream.
unfoldable pub push : Limits → List ℕ → LiveRawStream → Answer LiveRawStream
push limits chunk stream =
    let pushed = stream.pushed + length chunk in
    if ltb limits.max_chunk_bytes (length chunk)
    then bad chunk_limit
    else if ltb limits.max_stream_bytes pushed
    then bad stream_bytes
    else if leb limits.stream_queue_size (length stream.queue)
    then bad backpressure
    else good (record { queue = stream.queue ++ chunk ∷ []; pushed = pushed })
