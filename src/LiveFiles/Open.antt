-- ===== src/LiveFiles/Open.antt =====
-- The calls on a session that is there keep the limits of the live service.
use docker_volume_backup.Base.{
  ℕ, String, str_eq, some, List, ◌≡◌, refl, put, pop, get, length-drop, arith, Option-cases, inl,
  inr,
}
use docker_volume_backup.LiveFiles.{
  pushed, LiveSessionKey, LiveRawStream, Session, Limits, LiveState, push, get_key, same_key, store,
  detach, close_stream, push_stream, receive, read_stream, next_chunk, Answer, good, bad,
  next_message,
}
use docker_volume_backup.LiveFiles.Tables.{
  AllValues-put, AllValues-pop, AllValues-get, length-put_present, length-pop,
}
use docker_volume_backup.LiveFiles.Room.{
  IsLimited, IsLimitedSession, HasRoom, store-IsLimited, push-bound,
}

module _ (limits : Limits) where
  -- A change of a session that is there.
  update-IsLimited :
      (key : LiveSessionKey) (v w : Session) (s : LiveState)
      → get_key key s.sessions ≡ some v
      → (IsLimitedSession limits v → IsLimitedSession limits w)
      → IsLimited limits s
      → IsLimited limits (store key w s)
  unfolding IsLimited HasRoom
  update-IsLimited key v w s e step h =
      store-IsLimited limits key w s (inl (v, e)) h
        (step (AllValues-get (IsLimitedSession limits) same_key key v s.sessions e h.1))

  pub detach-IsLimited :
      (key : LiveSessionKey) (id : String) (s : LiveState)
      → IsLimited limits s
      → IsLimited limits (detach key id s)
  unfolding detach IsLimitedSession
  detach-IsLimited key id s h = elim (Option-cases (get_key key s.sessions)) [
    | inl e ↦ rw (e, detach) h
    | inr (v, e) ↦
        rw (e, detach)
          (update-IsLimited key v (record v { subscribers = pop id v.subscribers }) s e
            (λ hv. (
              hv.0,
              omega (arith, length-pop str_eq id v.subscribers, hv.1),
              hv.2,
              AllValues-pop _ str_eq id v.subscribers hv.3,
              hv.4,
            ))
            h)
  ]

  pub close_stream-IsLimited :
      (key : LiveSessionKey) (id : String) (s : LiveState)
      → IsLimited limits s
      → IsLimited limits (close_stream key id s)
  unfolding close_stream IsLimitedSession
  close_stream-IsLimited key id s h = elim (Option-cases (get_key key s.sessions)) [
    | inl e ↦ rw (e, close_stream) h
    | inr (v, e) ↦
        rw (e, close_stream)
          (update-IsLimited key v (record v { streams = pop id v.streams }) s e
            (λ hv. (
              hv.0,
              hv.1,
              omega (arith, length-pop str_eq id v.streams, hv.2),
              hv.3,
              AllValues-pop _ str_eq id v.streams hv.4,
            ))
            h)
  ]

  pub receive-IsLimited :
      (key : LiveSessionKey) (id : String) (s : LiveState)
      → IsLimited limits s
      → IsLimited limits (receive key id s)
  unfolding receive IsLimitedSession
  receive-IsLimited key id s h = elim (Option-cases (get_key key s.sessions)) [
    | inl e ↦ rw (e, receive) h
    | inr (v, e) ↦ elim (Option-cases (get id v.subscribers)) [
      | inl g ↦ rw (e, receive) (rw (g, receive) h)
      | inr (u, g) ↦
          rw (e, receive)
            (rw (g, receive)
              (update-IsLimited key v
                (record v { subscribers = put id (next_message u) v.subscribers }) s e
                (λ hv. (
                  hv.0,
                  omega (
                    arith,
                    length-put_present str_eq id (next_message u) u v.subscribers g,
                    hv.1,
                  ),
                  hv.2,
                  AllValues-put _ str_eq id (next_message u) v.subscribers
                      (omega (
                        arith,
                        length-drop 1 u.queue,
                        AllValues-get _ str_eq id u v.subscribers g hv.3,
                      ))
                      hv.3,
                  hv.4,
                ))
                h))
    ]
  ]

  pub read_stream-IsLimited :
      (key : LiveSessionKey) (id : String) (s : LiveState)
      → IsLimited limits s
      → IsLimited limits (read_stream key id s).1
  unfolding read_stream IsLimitedSession
  read_stream-IsLimited key id s h = elim (Option-cases (get_key key s.sessions)) [
    | inl e ↦ rw (e, read_stream) h
    | inr (v, e) ↦ elim (Option-cases (get id v.streams)) [
      | inl g ↦ rw (e, read_stream) (rw (g, read_stream) h)
      | inr (u, g) ↦
          rw (e, read_stream)
            (rw (g, read_stream)
              (update-IsLimited key v (record v { streams = put id (next_chunk u) v.streams }) s e
                (λ hv.
                  let old = AllValues-get _ str_eq id u v.streams g hv.4 in
                  (
                    hv.0,
                    hv.1,
                    omega (arith, length-put_present str_eq id (next_chunk u) u v.streams g, hv.2),
                    hv.3,
                    AllValues-put _ str_eq id (next_chunk u) v.streams
                        (omega (arith, length-drop 1 u.queue, old.0), omega (arith, old.1)) hv.4,
                  ))
                h))
    ]
  ]

  pub push_stream-IsLimited :
      (key : LiveSessionKey) (id : String) (chunk : List ℕ) (s : LiveState)
      → IsLimited limits s
      → IsLimited limits (push_stream limits key id chunk s).1
  unfolding push_stream IsLimitedSession
  push_stream-IsLimited key id chunk s h = elim (Option-cases (get_key key s.sessions)) [
    | inl e ↦ rw (e, push_stream) h
    | inr (v, e) ↦ elim (Option-cases (get id v.streams)) [
      | inl g ↦ rw (e, push_stream) (rw (g, push_stream) h)
      | inr (u, g) ↦
          rw (e, push_stream) (rw (g, push_stream) (go v u e g (push limits chunk u) refl))
    ]
  ]
    where
      go :
          (v : Session) (u : LiveRawStream)
          → get_key key s.sessions ≡ some v
          → get id v.streams ≡ some u
          → (r : Answer LiveRawStream) → push limits chunk u ≡ r
          → IsLimited limits (pushed key id v s r).1
      go v u e g (bad f) p = close_stream-IsLimited key id s h
      go v u e g (good w) p =
          update-IsLimited key v (record v { streams = put id w v.streams }) s e
            (λ hv. (
              hv.0,
              hv.1,
              omega (arith, length-put_present str_eq id w u v.streams g, hv.2),
              hv.3,
              AllValues-put _ str_eq id w v.streams (push-bound limits chunk u w p) hv.4,
            ))
            h
