-- ===== src/EventBroker/Broker.antt =====
-- `JobEventSubscription` and `JobEventBroker`. A subscription is an object that the broker and its
-- client share, so subscriptions stand in a store, under the numbers in which they were made. The
-- events are of any type `E`.
use docker_volume_backup.Base.{
  ℕ, zero, suc, ◌==◌, ltb, String, Bool, true, false, not, ◌&&◌, Option, none, some, List, [], ◌∷◌,
  ◌++◌, map, keep_if, str_eq, length, if◌then◌else◌,
}

pub record Subscription (E : Type 0) : Type 0 where
  pub number : ℕ
  pub job_id : String
  pub queue : List E
  pub closed : Bool

-- `subscribed` says whether the set of the job's subscribers holds the subscription.
pub record Entry (E : Type 0) : Type 0 where
  pub subscription : Subscription E
  pub subscribed : Bool

pub record Broker (E : Type 0) : Type 0 where
  pub max_queue_size : ℕ
  pub entries : List (Entry E)

module _ {E : Type 0} where
  -- `JobEventBroker.__init__`; `none` is the `ValueError`.
  unfoldable pub new_broker : ℕ → Option (Broker E)
  new_broker zero = none
  new_broker (suc n) = some (record { max_queue_size = suc n; entries = [] })

  abbrev drop_oldest : List E → List E
  drop_oldest [] = []
  drop_oldest (e ∷ events) = events

  -- `_offer`, without another thread between its steps
  unfoldable pub offer : ℕ → E → Subscription E → Subscription E
  offer max_queue_size event s =
      if s.closed
      then s
      else if ltb (length s.queue) max_queue_size
      then record s { queue = s.queue ++ event ∷ [] }
      else elim s.queue [ [] ↦ s | oldest ∷ events ↦ record s { queue = events ++ event ∷ [] } ]

  -- `get`: the oldest event, or none where it would wait
  unfoldable pub take_event : Subscription E → Option E × Subscription E
  take_event s = elim s.queue [
    | [] ↦ (none, s)
    | e ∷ events ↦ (some e, record s { queue = events })
  ]

  -- `subscribe`: the new subscription's number, and the broker after it
  unfoldable pub subscribe : String → Broker E → ℕ × Broker E
  subscribe job_id b =
      let number = length b.entries in
      let new : Entry E = record {
        subscription = record { number = number; job_id = job_id; queue = []; closed = false };
        subscribed = true;
      } in
      (number, record b { entries = b.entries ++ new ∷ [] })

  abbrev pub unsubscribed : ℕ → String → Entry E → Entry E
  unsubscribed number job_id e =
      if e.subscription.number == number
      then record {
        subscription = record e.subscription { closed = true };
        subscribed = e.subscribed && not (str_eq e.subscription.job_id job_id);
      }
      else e

  -- `unsubscribe`
  unfoldable pub unsubscribe : String → ℕ → Broker E → Broker E
  unsubscribe job_id number b = record b {
    entries = map (λ e. unsubscribed number job_id e) b.entries;
  }

  abbrev pub offered : ℕ → String → E → Entry E → Entry E
  unfolding offer
  offered max_queue_size job_id event e =
      if e.subscribed && str_eq e.subscription.job_id job_id
      then record e { subscription = offer max_queue_size event e.subscription }
      else e

  -- `publish`
  unfoldable pub publish : String → E → Broker E → Broker E
  unfolding offer
  publish job_id event b = record b {
    entries = map (λ e. offered b.max_queue_size job_id event e) b.entries;
  }

  -- `subscriber_count` for one job
  unfoldable pub subscriber_count : String → Broker E → ℕ
  subscriber_count job_id b =
      length (keep_if (λ e. e.subscribed && str_eq e.subscription.job_id job_id) b.entries)
