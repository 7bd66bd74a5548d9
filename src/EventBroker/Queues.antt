-- ===== src/EventBroker/Queues.antt =====
-- A slow client costs a bounded amount of memory and loses only old events.
use docker_volume_backup.Base.{
  ℕ, zero, suc, ◌-◌, ◌≤◌, ◌==◌, ltb, String, true, false, List, [], ◌∷◌, ◌++◌, ◌≡◌, refl, ◌∙◌,
  arith, map, All, All-append, drop, length, length-append, take_last, if◌then◌else◌,
}
use docker_volume_backup.EventBroker.Broker.{
  Subscription, Entry, Broker, offer, take_event, subscribe, unsubscribed, unsubscribe, offered,
  publish,
}

module _ {E : Type 0} where
  drop_zero : (k : ℕ) (xs : List E) → k ≡ 0 → drop k xs ≡ xs
  drop_zero zero xs h = refl
  drop_zero (suc k) xs h = ground arith

  drop_one : (k : ℕ) (x : E) (xs : List E) → k ≡ 1 → drop k (x ∷ xs) ≡ xs
  drop_one zero x xs h = ground arith
  drop_one (suc k) x xs h = drop_zero k xs (omega arith)

  -- What an open subscription's queue becomes.
  latest :
      (n : ℕ) (event : E) (queue : List E)
      → 1 ≤ n
      → length queue ≤ n
      → (if ltb (length queue) n then queue ++ event ∷ [] else drop 1 queue ++ event ∷ [])
        ≡ take_last n (queue ++ event ∷ [])
  latest n event [] positive h = ground (arith, drop_zero (1 - n) (event ∷ []))
  latest n event (oldest ∷ queue) positive h =
      let waiting = queue ++ event ∷ [] in
      let k = suc (length waiting) - n in
      let size = length-append queue (event ∷ []) in
      ground (arith, size, drop_zero k (oldest ∷ waiting), drop_one k oldest waiting)

  offered_queue :
      (n : ℕ) (event : E) (s : Subscription E)
      → s.closed ≡ false
      → 1 ≤ n
      → (offer n event s).queue
        ≡ (if ltb (length s.queue) n then s.queue ++ event ∷ [] else drop 1 s.queue ++ event ∷ [])
  unfolding offer
  offered_queue n event s listening positive = ground arith

  take_bound : (s : Subscription E) → length (take_event s).1.queue ≤ length s.queue
  unfolding take_event
  take_bound s = ground arith

  offer_bound :
      (n : ℕ) (event : E) (s : Subscription E)
      → length s.queue ≤ n
      → length (offer n event s).queue ≤ n
  unfolding offer
  offer_bound n event s h = ground (arith, length-append s.queue (event ∷ []))

  -- To an open subscription whose queue is within its positive bound, an offer leaves the latest
  -- events: those that were waiting and the new one, less the oldest where they are too many.
  pub offer_keeps_latest :
      (n : ℕ) (event : E) (s : Subscription E)
      → s.closed ≡ false
      → 1 ≤ n
      → length s.queue ≤ n
      → (offer n event s).queue ≡ take_last n (s.queue ++ event ∷ [])
  offer_keeps_latest n event s listening positive h =
      offered_queue n event s listening positive ∙ latest n event s.queue positive h

  -- A client's `get` on the subscription of that number.
  unfoldable pub taken : ℕ → Entry E → Entry E
  unfolding take_event
  taken number e =
      if e.subscription.number == number
      then record e { subscription = (take_event e.subscription).1 }
      else e

  abbrev pub IsBounded : Broker E → Type 0
  IsBounded b = All (λ e. length e.subscription.queue ≤ b.max_queue_size) b.entries

  -- One call: of the broker, or of a client that takes events off its queue.
  pub data Call (b : Broker E) : Broker E → Type 0 where
    subscribes : (job_id : String) {b' : Broker E} → b' ≡ (subscribe job_id b).1 → Call b b'
    unsubscribes :
        (job_id : String) (number : ℕ) {b' : Broker E}
        → b' ≡ unsubscribe job_id number b
        → Call b b'
    publishes :
        (job_id : String) (event : E) {b' : Broker E} → b' ≡ publish job_id event b → Call b b'
    takes :
        (number : ℕ) {b' : Broker E}
        → b' ≡ record b { entries = map (taken number) b.entries }
        → Call b b'

  pub data History (b : Broker E) : Broker E → Type 0 where
    start : History b b
    then_call : {b' b'' : Broker E} → History b b' → Call b' b'' → History b b''

  All-map :
      (P : Entry E → Type 0) (f : Entry E → Entry E) (entries : List (Entry E))
      → ((e : Entry E) → P e → P (f e))
      → All P entries
      → All P (map f entries)
  All-map P f [] step h = tt
  All-map P f (e ∷ entries) step (p, h) = (step e p, All-map P f entries step h)

  Call-IsBounded : {b b' : Broker E} → IsBounded b → Call b b' → IsBounded b'
  unfolding subscribe unsubscribe publish taken
  Call-IsBounded {b} h (subscribes job_id e) = rw e (
      All-append (λ x. length x.subscription.queue ≤ b.max_queue_size) b.entries
        (record {
          subscription = record {
            number = length b.entries;
            job_id = job_id;
            queue = [];
            closed = false;
          };
          subscribed = true;
        }
          ∷ [])
        h (ground arith, tt))
  Call-IsBounded {b} h (unsubscribes job_id number e) = rw e (
      All-map (λ x. length x.subscription.queue ≤ b.max_queue_size)
        (λ x. unsubscribed number job_id x) b.entries (λ x p. ground arith) h)
  Call-IsBounded {b} h (publishes job_id event e) = rw e (
      All-map (λ x. length x.subscription.queue ≤ b.max_queue_size)
        (λ x. offered b.max_queue_size job_id event x) b.entries
        (λ x p. ground (arith, offer_bound b.max_queue_size event x.subscription)) h)
  Call-IsBounded {b} h (takes number e) = rw e (
      All-map (λ x. length x.subscription.queue ≤ b.max_queue_size) (taken number) b.entries
        (λ x p. ground (arith, take_bound x.subscription)) h)

  -- Whatever calls follow, in any order, a broker whose queues are within their bound keeps them so.
  pub History-IsBounded : (b b' : Broker E) → IsBounded b → History b b' → IsBounded b'
  History-IsBounded b b' h start = h
  History-IsBounded b b'' h (then_call {b' = b'} before c) =
      Call-IsBounded (History-IsBounded b b' h before) c
