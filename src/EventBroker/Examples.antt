-- ===== src/EventBroker/Examples.antt =====
-- The broker at concrete subscriptions.
use docker_volume_backup.Base.{ℕ, ◌≡◌, [], ◌∷◌, ◌++◌, false, refl, arith, take_last}
use docker_volume_backup.EventBroker.Broker.{
  Subscription, Broker, offer, subscribe, publish, unsubscribe,
}
use docker_volume_backup.EventBroker.Queues.{
  offer_keeps_latest, IsBounded, start, then_call, subscribes, publishes, unsubscribes,
  History-IsBounded,
}

-- A full queue of two events.
abbrev full : Subscription ℕ
full = record { number = 0; job_id = "j1"; queue = 1 ∷ 2 ∷ []; closed = false }

offer_keeps_latest_example : (offer 2 3 full).queue ≡ take_last 2 ((1 ∷ 2 ∷ []) ++ 3 ∷ [])
offer_keeps_latest_example = offer_keeps_latest 2 3 full refl (omega arith) (omega arith)

oldest_goes : (offer 2 3 full).queue ≡ 2 ∷ 3 ∷ []
unfolding offer
oldest_goes = refl

abbrev empty_broker : Broker ℕ
empty_broker = record { max_queue_size = 1; entries = [] }

abbrev joined : Broker ℕ
joined = (subscribe "j1" empty_broker).1

abbrev flooded : Broker ℕ
flooded = publish "j1" 8 (publish "j1" 7 joined)

History-IsBounded_example : IsBounded (unsubscribe "j1" 0 flooded)
History-IsBounded_example = History-IsBounded empty_broker (unsubscribe "j1" 0 flooded) tt (
    then_call
      (then_call (then_call (then_call start (subscribes "j1" refl)) (publishes "j1" 7 refl))
        (publishes "j1" 8 refl))
      (unsubscribes "j1" 0 refl))
