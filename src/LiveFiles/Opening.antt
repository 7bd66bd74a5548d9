-- ===== src/LiveFiles/Opening.antt =====
-- The calls that open a session of the live service keep its limits.
use docker_volume_backup.Base.{
  ℕ, leb, String, true, false, str_eq, length, put, arith, Bool-cases, inl, inr,
}
use docker_volume_backup.LiveFiles.{
  LiveSessionKey, Change, Limits, LiveState, new_subscription, new_stream, is_live_path,
  record_change, attach, publish_change, replay, open_raw_stream,
}
use docker_volume_backup.LiveFiles.Tables.{AllValues-put, length-put}
use docker_volume_backup.LiveFiles.Room.{
  IsLimited, IsLimitedSession, store-IsLimited, record_change-IsLimited, session-cases,
}

module _ (limits : Limits) where
  pub attach-IsLimited :
      (key : LiveSessionKey) (id : String) (now : ℕ) (s : LiveState)
      → IsLimited limits s
      → IsLimited limits (attach limits key id now s).1
  unfolding attach IsLimitedSession
  attach-IsLimited key id now s h = elim (session-cases limits key true now s h) [
    | inl f ↦ rw (f.1, attach) h
    | inr (v, e, hv, room) ↦
        rw (e, attach)
          (elim (Bool-cases (leb limits.max_subscribers (length v.subscribers))) [
            | inl d ↦ rw d (store-IsLimited limits key v s room h hv)
            | inr d ↦ rw d (
                store-IsLimited limits key
                  (record v { subscribers = put id new_subscription v.subscribers }) s room h
                  (
                    hv.0,
                    ground (arith, length-put str_eq id new_subscription v.subscribers),
                    hv.2,
                    AllValues-put _ str_eq id new_subscription v.subscribers (omega arith) hv.3,
                    hv.4,
                  ))
          ])
  ]

  pub publish_change-IsLimited :
      (key : LiveSessionKey) (change : Change) (now : ℕ) (s : LiveState)
      → IsLimited limits s
      → IsLimited limits (publish_change limits key change now s).1
  unfolding publish_change
  publish_change-IsLimited key change now s h = elim (session-cases limits key true now s h) [
    | inl f ↦ elim (Bool-cases (is_live_path change.path)) [
      | inr p ↦ rw (p, publish_change) h
      | inl p ↦ rw (p, publish_change) (rw (f.1, publish_change) h)
    ]
    | inr (v, e, hv, room) ↦ elim (Bool-cases (is_live_path change.path)) [
      | inr p ↦ rw (p, publish_change) h
      | inl p ↦
          rw (p, publish_change)
            (rw (e, publish_change)
              (store-IsLimited limits key (record_change limits change v).1 s room h
                (record_change-IsLimited limits change v hv)))
    ]
  ]

  pub replay-IsLimited :
      (key : LiveSessionKey) (after now : ℕ) (s : LiveState)
      → IsLimited limits s
      → IsLimited limits (replay limits key after now s).1
  unfolding replay
  replay-IsLimited key after now s h = elim (session-cases limits key false now s h) [
    | inl f ↦ rw (f.1, replay) h
    | inr (v, e, hv, room) ↦ rw (e, replay) (store-IsLimited limits key v s room h hv)
  ]

  pub open_raw_stream-IsLimited :
      (key : LiveSessionKey) (id : String) (now : ℕ) (s : LiveState)
      → IsLimited limits s
      → IsLimited limits (open_raw_stream limits key id now s).1
  unfolding open_raw_stream IsLimitedSession
  open_raw_stream-IsLimited key id now s h = elim (session-cases limits key true now s h) [
    | inl f ↦ rw (f.1, open_raw_stream) h
    | inr (v, e, hv, room) ↦
        rw (e, open_raw_stream)
          (elim (Bool-cases (leb limits.max_streams (length v.streams))) [
            | inl d ↦ rw d (store-IsLimited limits key v s room h hv)
            | inr d ↦ rw d (
                store-IsLimited limits key (record v { streams = put id new_stream v.streams }) s
                  room h
                  (
                    hv.0,
                    hv.1,
                    ground (arith, length-put str_eq id new_stream v.streams),
                    hv.3,
                    AllValues-put _ str_eq id new_stream v.streams (omega arith, omega arith) hv.4,
                  ))
          ])
  ]
