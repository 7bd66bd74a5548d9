-- ===== src/LiveFiles/Room.antt =====
-- The limits of a session, and whether there is room for one more.
use docker_volume_backup.Base.{
  ℕ, ◌*◌, ◌-◌, ◌≤◌, ◌<◌, ◌⊎◌, leb, subst, Bool, some, List, [], ◌∷◌, ◌++◌, ◌≡◌, refl, length, Dict,
  length-append, length-drop, arith, Bool-cases, Option-cases, inl, inr,
}
use docker_volume_backup.LiveFiles.{
  LiveSessionKey, Change, LiveChange, LiveSubscription, LiveRawStream, changed, Session, Limits,
  LiveState, Failure, new_session, record_change, offer, offer_all, push, get_key, same_key, store,
  find_session, Answer, good, bad,
}
use docker_volume_backup.LiveFiles.Tables.{
  AllValues, AllValues-put, AllValues-get, length-put, length-put_present,
}

module _ (limits : Limits) where
  unfoldable pub IsLimitedSession : Session → Type 0
  IsLimitedSession s =
      (length s.events ≤ limits.max_events)
      × (length s.subscribers ≤ limits.max_subscribers)
      × (length s.streams ≤ limits.max_streams)
      × AllValues (λ v. length v.queue ≤ limits.queue_size) s.subscribers
      × AllValues
          (λ v. (length v.queue ≤ limits.stream_queue_size) × (v.pushed ≤ limits.max_stream_bytes))
          s.streams

  unfoldable pub IsLimited : LiveState → Type 0
  IsLimited s =
      (length s.sessions ≤ limits.max_sessions)
      × AllValues IsLimitedSession s.sessions
      × (length s.revoked ≤ limits.max_sessions * 4)

  pub new_session-IsLimited : (now : ℕ) → IsLimitedSession (new_session now)
  unfolding new_session IsLimitedSession
  new_session-IsLimited now = (omega arith, omega arith, omega arith, tt, tt)

  pub offer-bound :
      (event : LiveChange) (v : LiveSubscription)
      → length v.queue ≤ limits.queue_size
      → length (offer limits.queue_size event v).queue ≤ limits.queue_size
  unfolding offer
  offer-bound event v h = ground (arith, length-append v.queue (changed event ∷ []))

  pub offer_all-bound :
      (event : LiveChange) (d : Dict LiveSubscription)
      → AllValues (λ v. length v.queue ≤ limits.queue_size) d
      → AllValues (λ v. length v.queue ≤ limits.queue_size) (offer_all limits.queue_size event d)
        × (length (offer_all limits.queue_size event d) ≡ length d)
  unfolding offer_all
  offer_all-bound event [] h = (tt, refl)
  offer_all-bound event ((k, v) ∷ d) h =
      let rest = offer_all-bound event d h.1 in
      ((offer-bound event v h.0, rest.0), omega (arith, rest.1))

  pub record_change-IsLimited :
      (change : Change) (s : Session)
      → IsLimitedSession s
      → IsLimitedSession (record_change limits change s).1
  unfolding record_change IsLimitedSession
  record_change-IsLimited change s h =
      let event : LiveChange = record { event_id = s.next_id; change = change } in
      let offered = offer_all-bound event s.subscribers h.3 in
      (
        omega (
          arith,
          length-drop (length (s.events ++ event ∷ []) - limits.max_events)
              (s.events ++ event ∷ []),
        ),
        omega (arith, offered.1, h.1),
        h.2,
        offered.0,
        h.4,
      )

  pub push-bound :
      (chunk : List ℕ) (v w : LiveRawStream)
      → push limits chunk v ≡ good w
      → (length w.queue ≤ limits.stream_queue_size) × (w.pushed ≤ limits.max_stream_bytes)
  unfolding push
  push-bound chunk v w e = ground (arith, length-append v.queue (chunk ∷ []))

  -- Whether the session is there, or there is room for it.
  unfoldable pub HasRoom : LiveSessionKey → LiveState → Type 0
  HasRoom key s =
      ((session : Session) × (get_key key s.sessions ≡ some session))
      ⊎ (length s.sessions < limits.max_sessions)

  pub store-IsLimited :
      (key : LiveSessionKey) (v : Session) (s : LiveState)
      → HasRoom key s
      → IsLimited s
      → IsLimitedSession v
      → IsLimited (store key v s)
  unfolding IsLimited HasRoom
  store-IsLimited key v s (inl e) h hv = (
    omega (arith, length-put_present same_key key v e.0 s.sessions e.1, h.0),
    AllValues-put IsLimitedSession same_key key v s.sessions hv h.1,
    h.2,
  )
  store-IsLimited key v s (inr e) h hv = (
    omega (arith, length-put same_key key v s.sessions, e),
    AllValues-put IsLimitedSession same_key key v s.sessions hv h.1,
    h.2,
  )

  unfoldable pub Found : LiveSessionKey → LiveState → Answer Session → Type 0
  Found key s (bad e) = Unit
  Found key s (good session) = IsLimitedSession session × HasRoom key s

  pub touch-IsLimited :
      (now : ℕ) (v : Session)
      → IsLimitedSession v
      → IsLimitedSession (record v { last_activity = now })
  unfolding IsLimitedSession
  touch-IsLimited now v h = h

  pub find_session-Found :
      (key : LiveSessionKey) (create : Bool) (now : ℕ) (s : LiveState)
      → IsLimited s
      → Found key s (find_session limits key create now s)
  unfolding find_session IsLimited Found HasRoom
  find_session-Found key create now s h = elim (Option-cases (get_key key s.revoked)) [
    | inr e ↦ rw e.1 tt
    | inl e ↦ rw e (elim (Option-cases (get_key key s.sessions)) [
      | inr g ↦ rw g.1 (
        touch-IsLimited now g.0
            (AllValues-get IsLimitedSession same_key key g.0 s.sessions g.1 h.1),
        inl g,
      )
      | inl g ↦ rw g (elim (Bool-cases create) [
        | inr c ↦ rw c tt
        | inl c ↦ rw c (elim (Bool-cases (leb limits.max_sessions (length s.sessions))) [
          | inl d ↦ rw d tt
          | inr d ↦ rw d (new_session-IsLimited now, inr (ground arith))
        ])
      ])
    ])
  ]

  -- What holds of a state whose session is found, or that is answered an error.
  pub session-cases :
      (key : LiveSessionKey) (create : Bool) (now : ℕ) (s : LiveState)
      → IsLimited s
      → ((e : Failure) × (find_session limits key create now s ≡ bad e))
        ⊎ ((v : Session) × (find_session limits key create now s ≡ good v)
            × IsLimitedSession v
            × HasRoom key s)
  unfolding Found
  session-cases key create now s h = go (find_session limits key create now s) refl
    where
      go :
          (a : Answer Session)
          → find_session limits key create now s ≡ a
          → ((e : Failure) × (find_session limits key create now s ≡ bad e))
            ⊎ ((v : Session) × (find_session limits key create now s ≡ good v)
                × IsLimitedSession v
                × HasRoom key s)
      go (bad e) p = inl (e, p)
      go (good v) p =
          let found : Found key s (good v) =
            subst (λ a. Found key s a) p (find_session-Found key create now s h) in
          inr (v, p, found.0, found.1)
