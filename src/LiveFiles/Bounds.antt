-- ===== src/LiveFiles/Bounds.antt =====
-- That a live service keeps within its limits, whatever is asked of it.
use docker_volume_backup.Base.{ℕ, String, str_eq, List, [], ◌∷◌, length-drop, arith}
use docker_volume_backup.LiveFiles.{
  LiveSessionKey, Change, Limits, LiveState, put_key, same_key, attach, publish_change, replay,
  open_raw_stream, invalidate, invalidate_all, invalidate_target, reap, detach, close_stream,
  push_stream, receive, read_stream, keys_where, is_stale,
}
use docker_volume_backup.LiveFiles.Tables.{AllValues-pop, length-put, length-pop}
use docker_volume_backup.LiveFiles.Room.{IsLimited, IsLimitedSession}
use docker_volume_backup.LiveFiles.Opening.{
  attach-IsLimited, publish_change-IsLimited, replay-IsLimited, open_raw_stream-IsLimited,
}
use docker_volume_backup.LiveFiles.Open.{
  detach-IsLimited, close_stream-IsLimited, receive-IsLimited, read_stream-IsLimited,
  push_stream-IsLimited,
}

module _ (limits : Limits) where
  invalidate-IsLimited :
      (key : LiveSessionKey) (reason : String) (s : LiveState)
      → IsLimited limits s
      → IsLimited limits (invalidate limits key reason s).1
  unfolding invalidate IsLimited
  invalidate-IsLimited key reason s h = (
    omega (arith, length-pop same_key key s.sessions, h.0),
    AllValues-pop (IsLimitedSession limits) same_key key s.sessions h.1,
    ground (
      arith,
      length-put same_key key reason s.revoked,
      length-drop 1 (put_key key reason s.revoked),
      h.2,
    ),
  )

  invalidate_all-IsLimited :
      (keys : List LiveSessionKey) (reason : String) (s : LiveState)
      → IsLimited limits s
      → IsLimited limits (invalidate_all limits keys reason s)
  unfolding invalidate_all
  invalidate_all-IsLimited [] reason s h = h
  invalidate_all-IsLimited (key ∷ keys) reason s h =
      invalidate_all-IsLimited keys reason (invalidate limits key reason s).1
        (invalidate-IsLimited key reason s h)

  invalidate_target-IsLimited :
      (target_id reason : String) (s : LiveState)
      → IsLimited limits s
      → IsLimited limits (invalidate_target limits target_id reason s).1
  unfolding invalidate_target
  invalidate_target-IsLimited target_id reason s h =
      invalidate_all-IsLimited (keys_where (λ key _. str_eq key.target_id target_id) s.sessions)
        reason s h

  reap-IsLimited :
      (now : ℕ) (s : LiveState) → IsLimited limits s → IsLimited limits (reap limits now s).1
  unfolding reap
  reap-IsLimited now s h =
      invalidate_all-IsLimited (keys_where (λ _ session. is_stale limits now session) s.sessions)
        "expired" s h

  -- One call of the service, with the state that it leaves.
  pub data Call (s : LiveState) : LiveState → Type 0 where
    attached :
        (key : LiveSessionKey) (id : String) (now : ℕ) → Call s (attach limits key id now s).1
    published :
        (key : LiveSessionKey) (change : Change) (now : ℕ)
        → Call s (publish_change limits key change now s).1
    replayed : (key : LiveSessionKey) (after now : ℕ) → Call s (replay limits key after now s).1
    opened :
        (key : LiveSessionKey) (id : String) (now : ℕ)
        → Call s (open_raw_stream limits key id now s).1
    pushed_to :
        (key : LiveSessionKey) (id : String) (chunk : List ℕ)
        → Call s (push_stream limits key id chunk s).1
    read_from : (key : LiveSessionKey) (id : String) → Call s (read_stream key id s).1
    received : (key : LiveSessionKey) (id : String) → Call s (receive key id s)
    detached : (key : LiveSessionKey) (id : String) → Call s (detach key id s)
    closed : (key : LiveSessionKey) (id : String) → Call s (close_stream key id s)
    invalidated :
        (key : LiveSessionKey) (reason : String) → Call s (invalidate limits key reason s).1
    target_invalidated :
        (target_id reason : String) → Call s (invalidate_target limits target_id reason s).1
    reaped : (now : ℕ) → Call s (reap limits now s).1

  pub data History (s : LiveState) : LiveState → Type 0 where
    stay : History s s
    then_call : {t u : LiveState} → History s t → Call t u → History s u

  Call-IsLimited : (s t : LiveState) → IsLimited limits s → Call s t → IsLimited limits t
  Call-IsLimited s _ h (attached key id now) = attach-IsLimited limits key id now s h
  Call-IsLimited s _ h (published key change now) =
      publish_change-IsLimited limits key change now s h
  Call-IsLimited s _ h (replayed key after now) = replay-IsLimited limits key after now s h
  Call-IsLimited s _ h (opened key id now) = open_raw_stream-IsLimited limits key id now s h
  Call-IsLimited s _ h (pushed_to key id chunk) = push_stream-IsLimited limits key id chunk s h
  Call-IsLimited s _ h (read_from key id) = read_stream-IsLimited limits key id s h
  Call-IsLimited s _ h (received key id) = receive-IsLimited limits key id s h
  Call-IsLimited s _ h (detached key id) = detach-IsLimited limits key id s h
  Call-IsLimited s _ h (closed key id) = close_stream-IsLimited limits key id s h
  Call-IsLimited s _ h (invalidated key reason) = invalidate-IsLimited key reason s h
  Call-IsLimited s _ h (target_invalidated target_id reason) =
      invalidate_target-IsLimited target_id reason s h
  Call-IsLimited s _ h (reaped now) = reap-IsLimited now s h

  -- A live service within its limits stays within them over any sequence of attachments, changes,
  -- replays, openings of raw streams, pushes to them and reads from them, reads of subscriptions,
  -- detachments, closings, invalidations (of a session or a target) and reapings: at most
  -- `max_sessions` sessions, at most four times as many revoked keys, and in each session at most
  -- the allowed subscribers, streams and events, with no queue longer than its size and no stream
  -- that took more bytes than allowed.
  pub History-IsLimited : (s t : LiveState) → IsLimited limits s → History s t → IsLimited limits t
  History-IsLimited s _ h stay = h
  History-IsLimited s t h (then_call before call) =
      Call-IsLimited _ t (History-IsLimited s _ h before) call
