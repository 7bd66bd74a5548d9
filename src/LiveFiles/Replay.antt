-- ===== src/LiveFiles/Replay.antt =====
-- That the replay of a session's changes agrees with the log of all of them.
use docker_volume_backup.Base.{
  append_nil, append_assoc, ℕ, zero, suc, ◌+◌, ◌-◌, ◌≤◌, ltb, none, some, List, [], ◌∷◌, ◌++◌, ◌≡◌,
  refl, ap, sym, subst, ◌∙◌, length, drop, take_last, keep_if, length-drop, length-append,
  if◌then◌else◌, arith, ltb→lt, Bool-cases, Bool, inl, inr, ◌<◌,
}
use docker_volume_backup.LiveFiles.{
  Change, LiveChange, Session, Limits, new_session, record_change, replay_session, oldest_id,
}

-- The log of all changes, numbered as they came.
abbrev pub number_from : ℕ → List Change → List LiveChange
number_from i [] = []
number_from i (c ∷ cs) = record { event_id = i; change = c } ∷ number_from (suc i) cs

-- The session after the changes are recorded one by one.
unfoldable pub record_all : Limits → List Change → Session → Session
record_all limits [] s = s
record_all limits (c ∷ cs) s = record_all limits cs (record_change limits c s).1

module _ {ℓ} {A : Type ℓ} where
  drop-same : (j k : ℕ) (xs : List A) → j ≡ k → drop j xs ≡ drop k xs
  drop-same j k xs h = ap (λ n. drop n xs) h

  drop-nil : (k : ℕ) → drop {A = A} k [] ≡ []
  drop-nil zero = refl
  drop-nil (suc k) = refl

  drop-append :
      (j k : ℕ) (xs ys : List A)
      → k ≤ length xs
      → drop j (drop k xs ++ ys) ≡ drop (j + k) (xs ++ ys)
  drop-append j zero xs ys h = ap (λ n. drop n (xs ++ ys)) (omega arith)
  drop-append j (suc k) [] ys h = ground arith
  drop-append j (suc k) (x ∷ xs) ys h =
      drop-append j k xs ys (omega arith)
      ∙ drop-same (suc (j + k)) (j + suc k) (x ∷ xs ++ ys) (omega arith)

  drop-drop : (j k : ℕ) (xs : List A) → drop j (drop k xs) ≡ drop (k + j) xs
  drop-drop j zero xs = drop-same j (0 + j) xs (omega arith)
  drop-drop zero (suc k) [] = sym (drop-nil (suc k + 0))
  drop-drop (suc j) (suc k) [] = sym (drop-nil (suc k + suc j))
  drop-drop j (suc k) (x ∷ xs) =
      drop-drop j k xs ∙ drop-same (suc (k + j)) (suc k + j) (x ∷ xs) (omega arith)

  -- A bounded deque that holds the end of `xs` goes on to hold the end of what follows.
  take_last-append :
      (m : ℕ) (xs : List A) (y : A)
      → take_last m (take_last m xs ++ y ∷ []) ≡ take_last m (xs ++ y ∷ [])
  take_last-append m xs y =
      drop-append (length (take_last m xs ++ y ∷ []) - m) (length xs - m) xs (y ∷ []) (omega arith)
      ∙ ap (λ n. drop n (xs ++ y ∷ []))
          (omega (
            arith,
            length-append (take_last m xs) (y ∷ []),
            length-append xs (y ∷ []),
            length-drop (length xs - m) xs,
          ))

number_from-append :
    (i : ℕ) (cs : List Change) (c : Change)
    → number_from i (cs ++ c ∷ [])
      ≡ number_from i cs ++ record { event_id = i + length cs; change = c } ∷ []
number_from-append i [] c = ap (λ n. record { event_id = n; change = c } ∷ []) (omega arith)
number_from-append i (d ∷ cs) c =
    ap (λ r. record { event_id = i; change = d } ∷ r)
      (number_from-append (suc i) cs c
        ∙ ap (λ n. number_from (suc i) cs ++ record { event_id = n; change = c } ∷ [])
            (omega arith))

drop-number_from :
    (k i : ℕ) (cs : List Change) → drop k (number_from i cs) ≡ number_from (i + k) (drop k cs)
drop-number_from zero i cs = ap (λ n. number_from n cs) (omega arith)
drop-number_from (suc k) i [] = refl
drop-number_from (suc k) i (c ∷ cs) =
    drop-number_from k (suc i) cs ∙ ap (λ n. number_from n (drop k cs)) (omega arith)

length-number_from : (i : ℕ) (cs : List Change) → length (number_from i cs) ≡ length cs
length-number_from i [] = refl
length-number_from i (c ∷ cs) = omega (arith, length-number_from (suc i) cs)

-- What the session holds once the changes `cs` are recorded.
IsLog : Limits → List Change → Session → Type 0
IsLog limits cs s =
    (s.events ≡ take_last limits.max_events (number_from 1 cs)) × (s.next_id ≡ 1 + length cs)

record_change-IsLog :
    (limits : Limits) (cs : List Change) (c : Change) (s : Session)
    → IsLog limits cs s
    → IsLog limits (cs ++ c ∷ []) (record_change limits c s).1
unfolding record_change IsLog
record_change-IsLog limits cs c s h = (
  rw h.0 (
      rw h.1 (
        take_last-append limits.max_events (number_from 1 cs)
          (record { event_id = 1 + length cs; change = c })
        ∙ ap (λ r. take_last limits.max_events r) (sym (number_from-append 1 cs c)))),
  omega (arith, h.1, length-append cs (c ∷ [])),
)

record_all-IsLog :
    (limits : Limits) (cs ds : List Change) (s : Session)
    → IsLog limits cs s
    → IsLog limits (cs ++ ds) (record_all limits ds s)
unfolding record_all
record_all-IsLog limits cs [] s h = subst (λ l. IsLog limits l s) (sym (append_nil cs)) h
record_all-IsLog limits cs (d ∷ ds) s h =
    subst (λ l. IsLog limits l (record_all limits ds (record_change limits d s).1))
      (append_assoc cs d ds)
      (record_all-IsLog limits (cs ++ d ∷ []) ds (record_change limits d s).1
        (record_change-IsLog limits cs d s h))

module _ (after : ℕ) where
  abbrev is_after : LiveChange → Bool
  is_after e = ltb after e.event_id

  keep_if-all :
      (i : ℕ) (cs : List Change)
      → after < i
      → keep_if is_after (number_from i cs) ≡ number_from i cs
  keep_if-all i [] h = refl
  keep_if-all i (c ∷ cs) h = ground (arith, keep_if-all (suc i) cs (omega arith))

  -- The log after an event that it has, or is about to have, numbered.
  keep_if-number_from :
      (i : ℕ) (cs : List Change)
      → i ≤ after + 1
      → keep_if is_after (number_from i cs) ≡ number_from (after + 1) (drop (after + 1 - i) cs)
  keep_if-number_from i [] h = sym (ap (λ r. number_from (after + 1) r) (drop-nil (after + 1 - i)))
  keep_if-number_from i (c ∷ cs) h = elim (Bool-cases (ltb after i)) [
    | inl e ↦
        let same : i ≡ after + 1 = omega (arith, ltb→lt after i e, h) in
        keep_if-all i (c ∷ cs) (ltb→lt after i e)
        ∙ ap (λ n. number_from n (c ∷ cs)) same
        ∙ ap (λ r. number_from (after + 1) r)
            (drop-same 0 (after + 1 - i) (c ∷ cs) (omega (arith, same)))
    | inr e ↦
        let le : i ≤ after = ground arith in
        rw e (
          keep_if-number_from (suc i) cs (omega (arith, le))
          ∙ ap (λ r. number_from (after + 1) r)
              (drop-same (suc (after + 1 - suc i)) (after + 1 - i) (c ∷ cs) (omega (arith, le))))
  ]

  oldest_id-drop :
      (k i next_id : ℕ) (cs : List Change)
      → k < length cs
      → oldest_id (drop k (number_from i cs)) next_id ≡ i + k
  oldest_id-drop k i next_id [] h = ground arith
  oldest_id-drop zero i next_id (c ∷ cs) h = omega arith
  oldest_id-drop (suc k) i next_id (c ∷ cs) h =
      oldest_id-drop k (suc i) next_id cs (omega arith) ∙ omega arith

  oldest_id-log :
      (m : ℕ) (cs : List Change)
      → 1 ≤ m
      → oldest_id (take_last m (number_from 1 cs)) (1 + length cs) ≡ 1 + (length cs - m)
  oldest_id-log m [] h = ap (λ r. oldest_id r (1 + 0)) (drop-nil (0 - m)) ∙ omega arith
  oldest_id-log m (c ∷ cs) h =
      ap (λ j. oldest_id (drop (j - m) (number_from 1 (c ∷ cs))) (1 + suc (length cs)))
        (length-number_from 1 (c ∷ cs))
      ∙ oldest_id-drop (suc (length cs) - m) 1 (1 + suc (length cs)) (c ∷ cs) (omega arith)

  log_after :
      (m : ℕ) (cs : List Change)
      → length cs ≤ after + m
      → keep_if is_after (take_last m (number_from 1 cs)) ≡ number_from (after + 1) (drop after cs)
  log_after m cs h =
      let k : ℕ = length cs - m in
      ap (λ j. keep_if is_after (drop (j - m) (number_from 1 cs))) (length-number_from 1 cs)
      ∙ ap (λ r. keep_if is_after r) (drop-number_from k 1 cs)
      ∙ keep_if-number_from (1 + k) (drop k cs) (omega arith)
      ∙ ap (λ r. number_from (after + 1) r)
          (drop-drop (after + 1 - (1 + k)) k cs
            ∙ drop-same (k + (after + 1 - (1 + k))) after cs (omega arith))

-- Whether events were dropped that are later, from the oldest that is held.
dropped_later : (after m n : ℕ) → 1 ≤ m → ltb (after + 1) (1 + (n - m)) ≡ ltb (after + m) n
dropped_later after m n h = ground arith

-- Let the changes `cs` be recorded, in this order, in a new session whose deque may hold an event. The replay after the event
-- `after` gives all later changes, each with its number and none twice or left out; it asks for a
-- resynchronisation exactly where more than `max_events` changes are later.
pub replay_is_the_log :
    (limits : Limits) (cs : List Change) (after now : ℕ)
    → 1 ≤ limits.max_events
    → replay_session after (record_all limits cs (new_session now)) ≡ (
        if ltb (after + limits.max_events) (length cs)
        then none
        else some (number_from (after + 1) (drop after cs)))
unfolding replay_session new_session IsLog
replay_is_the_log limits cs after now h =
    let s : Session = record_all limits cs (new_session now) in
    let log : IsLog limits cs s =
      record_all-IsLog limits [] cs (new_session now)
        (sym (drop-nil (0 - limits.max_events)), refl) in
    rw log.0 (
      rw log.1 (
        rw (oldest_id-log after limits.max_events cs h) (
          rw (dropped_later after limits.max_events (length cs) h)
            (elim (Bool-cases (ltb (after + limits.max_events) (length cs))) [
              | inl e ↦ rw e refl
              | inr e ↦
                  rw e (ap (λ r. some r) (log_after after limits.max_events cs (ground arith)))
            ]))))
