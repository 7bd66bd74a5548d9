-- ===== src/LiveFiles/Service.antt =====
-- The methods of `LiveFileService`, over its sessions.
use docker_volume_backup.Base.{
  ℕ, ◌+◌, ◌*◌, ltb, leb, String, Bool, true, false, not, ◌&&◌, ◌||◌, Option, none, some, List, [],
  ◌∷◌, get, put, pop, any_of, get_by, put_by, pop_by, length, str_eq, present, codes, starts_with,
  text_length, if◌then◌else◌, drop, ◌==◌,
}
use docker_volume_backup.LiveFiles.Defs.{
  LiveSessionKey, same_key, Change, LiveChange, LiveSubscription, LiveRawStream, Session, Limits,
  LiveState, session_revoked, session_limit, session_missing, subscriber_limit, stream_limit,
  bad_path, Answer, good, bad,
}
use docker_volume_backup.LiveFiles.Sessions.{new_session, record_change, replay_session, push}

-- Dictionaries whose keys are session keys.
module _ {V : Type 0} where
  abbrev pub get_key : LiveSessionKey → List (LiveSessionKey × V) → Option V
  get_key k d = get_by same_key k d

  abbrev pub put_key : LiveSessionKey → V → List (LiveSessionKey × V) → List (LiveSessionKey × V)
  put_key k v d = put_by same_key k v d

  abbrev pub pop_key : LiveSessionKey → List (LiveSessionKey × V) → List (LiveSessionKey × V)
  pop_key k d = pop_by same_key k d

abbrev pub store : LiveSessionKey → Session → LiveState → LiveState
store key session s = record s { sessions = put_key key session s.sessions }

abbrev pub new_subscription : LiveSubscription
new_subscription = record { queue = []; cursor = 0 }

abbrev pub new_stream : LiveRawStream
new_stream = record { queue = []; pushed = 0 }

-- The checks of `publish_change` on its path.
unfoldable pub is_live_path : String → Bool
is_live_path path =
    starts_with (codes "/") (codes path)
    && (not (any_of (λ c. c == 0) (codes path)) && leb (text_length path) 4096)

abbrev pub keys_where :
    (LiveSessionKey → Session → Bool) → List (LiveSessionKey × Session) → List LiveSessionKey
keys_where p [] = []
keys_where p ((key, session) ∷ d) =
    let rest = keys_where p d in if p key session then key ∷ rest else rest

-- `_detach`
unfoldable pub detach : LiveSessionKey → String → LiveState → LiveState
detach key subscriber_id s = elim (get_key key s.sessions) [
  | none ↦ s
  | some session ↦
      store key (record session { subscribers = pop subscriber_id session.subscribers }) s
]

-- `_close_stream`
unfoldable pub close_stream : LiveSessionKey → String → LiveState → LiveState
close_stream key stream_id s = elim (get_key key s.sessions) [
  | none ↦ s
  | some session ↦ store key (record session { streams = pop stream_id session.streams }) s
]

abbrev pub next_message : LiveSubscription → LiveSubscription
next_message subscription = record subscription { queue = drop 1 subscription.queue }

-- `LiveSubscription.get`, for its effect: the first message is taken out.
unfoldable pub receive : LiveSessionKey → String → LiveState → LiveState
receive key subscriber_id s = elim (get_key key s.sessions) [
  | none ↦ s
  | some session ↦ elim (get subscriber_id session.subscribers) [
    | none ↦ s
    | some subscription ↦
        store key
          (record session {
            subscribers = put subscriber_id (next_message subscription) session.subscribers;
          })
          s
  ]
]

abbrev pub next_chunk : LiveRawStream → LiveRawStream
next_chunk stream = record stream { queue = drop 1 stream.queue }

abbrev pub first_chunk : List (List ℕ) → Option (List ℕ)
first_chunk [] = none
first_chunk (chunk ∷ chunks) = some chunk

-- One round of `LiveRawStream.__iter__` on an open stream: the chunk that it yields, taken out of the
-- queue, or `none` where the queue is empty.
unfoldable pub read_stream : LiveSessionKey → String → LiveState → Option (List ℕ) × LiveState
read_stream key stream_id s = elim (get_key key s.sessions) [
  | none ↦ (none, s)
  | some session ↦ elim (get stream_id session.streams) [
    | none ↦ (none, s)
    | some stream ↦ (
      first_chunk stream.queue,
      store key (record session { streams = put stream_id (next_chunk stream) session.streams }) s,
    )
  ]
]

-- The state after a `push`, whose errors cancel the stream.
unfoldable pub pushed :
    LiveSessionKey → String → Session → LiveState → Answer LiveRawStream → Answer Bool × LiveState
unfolding close_stream
pushed key stream_id session s (bad e) = (bad e, close_stream key stream_id s)
pushed key stream_id session s (good stream) =
    (good true, store key (record session { streams = put stream_id stream session.streams }) s)

module _ (limits : Limits) where
  -- `_session`: the session, touched, which the caller stores again.
  unfoldable pub find_session : LiveSessionKey → Bool → ℕ → LiveState → Answer Session
  unfolding new_session
  find_session key create now s =
      if present (get_key key s.revoked)
      then bad session_revoked
      else elim (get_key key s.sessions) [
        | some session ↦ good (record session { last_activity = now })
        | none ↦
            if not create
            then bad session_missing
            else if leb limits.max_sessions (length s.sessions)
            then bad session_limit
            else good (new_session now)
      ]

  -- `attach`; `subscriber_id` is the random id that its loop ends with.
  unfoldable pub attach : LiveSessionKey → String → ℕ → LiveState → Answer (Unit {0}) × LiveState
  unfolding find_session
  attach key subscriber_id now s = elim (find_session key true now s) [
    | bad e ↦ (bad e, s)
    | good session ↦
        if leb limits.max_subscribers (length session.subscribers)
        then (bad subscriber_limit, store key session s)
        else (
          good tt,
          store key
              (record session {
                subscribers = put subscriber_id new_subscription session.subscribers;
              })
              s,
        )
  ]

  -- `publish_change`
  unfoldable pub publish_change :
      LiveSessionKey → Change → ℕ → LiveState → Answer LiveChange × LiveState
  unfolding find_session record_change is_live_path
  publish_change key change now s =
      if not (is_live_path change.path)
      then (bad bad_path, s)
      else elim (find_session key true now s) [
        | bad e ↦ (bad e, s)
        | good session ↦
            let (event, session') = record_change limits change session in
            (good event, store key session' s)
      ]

  -- `replay`; `after` is the event that the cursor names, or 0.
  unfoldable pub replay :
      LiveSessionKey → ℕ → ℕ → LiveState → Answer (Option (List LiveChange)) × LiveState
  unfolding find_session replay_session
  replay key after now s = elim (find_session key false now s) [
    | bad e ↦ (bad e, s)
    | good session ↦ (good (replay_session after session), store key session s)
  ]

  -- `open_raw_stream`
  unfoldable pub open_raw_stream :
      LiveSessionKey → String → ℕ → LiveState → Answer (Unit {0}) × LiveState
  unfolding find_session
  open_raw_stream key stream_id now s = elim (find_session key true now s) [
    | bad e ↦ (bad e, s)
    | good session ↦
        if leb limits.max_streams (length session.streams)
        then (bad stream_limit, store key session s)
        else (
          good tt,
          store key (record session { streams = put stream_id new_stream session.streams }) s,
        )
  ]

  -- A dictionary that is too long loses its oldest entry.
  abbrev pub bounded_revoked : List (LiveSessionKey × String) → List (LiveSessionKey × String)
  bounded_revoked revoked =
      if ltb (limits.max_sessions * 4) (length revoked) then drop 1 revoked else revoked

  -- `invalidate`
  unfoldable pub invalidate : LiveSessionKey → String → LiveState → Bool × LiveState
  invalidate key reason s = (
    present (get_key key s.sessions),
    record {
      sessions = pop_key key s.sessions;
      revoked = bounded_revoked (put_key key reason s.revoked);
    },
  )

  unfoldable pub invalidate_all : List LiveSessionKey → String → LiveState → LiveState
  unfolding invalidate
  invalidate_all [] reason s = s
  invalidate_all (key ∷ keys) reason s = invalidate_all keys reason (invalidate key reason s).1

  -- `invalidate_target`: the keys that it invalidates, and the state
  unfoldable pub invalidate_target : String → String → LiveState → List LiveSessionKey × LiveState
  unfolding invalidate_all
  invalidate_target target_id reason s =
      let keys = keys_where (λ key _. str_eq key.target_id target_id) s.sessions in
      (keys, invalidate_all keys reason s)

  -- Whether `reap` takes the session away.
  abbrev pub is_stale : ℕ → Session → Bool
  is_stale now session =
      leb (session.created_at + limits.max_age) now
      || (length session.subscribers == 0 && leb (session.last_activity + limits.idle_ttl) now)

  -- `reap`
  unfoldable pub reap : ℕ → LiveState → List LiveSessionKey × LiveState
  unfolding invalidate_all
  reap now s =
      let keys = keys_where (λ _ session. is_stale now session) s.sessions in
      (keys, invalidate_all keys "expired" s)

  -- `push` on a stream of the service: false where the stream is closed.
  unfoldable pub push_stream :
      LiveSessionKey → String → List ℕ → LiveState → Answer Bool × LiveState
  unfolding push pushed
  push_stream key stream_id chunk s = elim (get_key key s.sessions) [
    | none ↦ (good false, s)
    | some session ↦ elim (get stream_id session.streams) [
      | none ↦ (good false, s)
      | some stream ↦ pushed key stream_id session s (push limits chunk stream)
    ]
  ]
