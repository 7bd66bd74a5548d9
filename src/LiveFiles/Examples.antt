-- ===== src/LiveFiles/Examples.antt =====
-- Concrete live sessions, and the theorems at them.
use docker_volume_backup.Base.{ℕ, true, String, none, some, str_eq, List, [], ◌∷◌, ◌≡◌, refl, arith}
use docker_volume_backup.LiveFiles.{
  LiveSessionKey, Change, Limits, LiveState, new_session, record_change, replay_session, good,
  pushed, push, find_session, is_live_path, attach, open_raw_stream, push_stream, read_stream,
  publish_change,
}
use docker_volume_backup.LiveFiles.Replay.{number_from, record_all, replay_is_the_log}
use docker_volume_backup.LiveFiles.Room.{IsLimited}
use docker_volume_backup.LiveFiles.Bounds.{
  History, stay, then_call, attached, published, opened, pushed_to, read_from, History-IsLimited,
}

abbrev small : Limits
small = record {
  max_sessions = 2;
  max_subscribers = 1;
  queue_size = 1;
  max_events = 2;
  max_streams = 1;
  stream_queue_size = 1;
  max_chunk_bytes = 4;
  max_stream_bytes = 8;
  idle_ttl = 10;
  max_age = 100;
}

abbrev change : String → Change
change path = record {
  kind = "modified";
  path = path;
  entry_type = "file";
  size = none;
  mtime_ns = none;
}

abbrev three : List Change
three = change "/a" ∷ change "/b" ∷ change "/c" ∷ []

-- The first of three changes is gone from a deque of two.
replay_is_the_log_example :
    replay_session 1 (record_all small three (new_session 0))
    ≡ some (number_from 2 (change "/b" ∷ change "/c" ∷ []))
replay_is_the_log_example = replay_is_the_log small three 1 0 (omega arith)

replay_after_nothing : replay_session 0 (record_all small three (new_session 0)) ≡ none
unfolding replay_session record_all new_session record_change
replay_after_nothing = refl

abbrev key : LiveSessionKey
key = record { target_id = "t"; config_revision = "1"; worker_id = "w" }

abbrev empty : LiveState
empty = record { sessions = []; revoked = [] }

abbrev with_subscriber : LiveState
with_subscriber = (attach small key "s" 0 empty).1

abbrev with_change : LiveState
with_change = (publish_change small key (change "/a") 1 with_subscriber).1

abbrev with_stream : LiveState
with_stream = (open_raw_stream small key "r" 2 with_change).1

abbrev chunk : List ℕ
chunk = 1 ∷ 2 ∷ 3 ∷ 4 ∷ []

abbrev with_chunk : LiveState
with_chunk = (push_stream small key "r" chunk with_stream).1

abbrev read_once : LiveState
read_once = (read_stream key "r" with_chunk).1

-- The second push fits only since the first chunk was read.
abbrev with_bytes : LiveState
with_bytes = (push_stream small key "r" chunk read_once).1

history : History small empty with_bytes
history =
    then_call
      (then_call
        (then_call
          (then_call
            (then_call (then_call stay (attached key "s" 0)) (published key (change "/a") 1))
            (opened key "r" 2))
          (pushed_to key "r" chunk))
        (read_from key "r"))
      (pushed_to key "r" chunk)

empty-IsLimited : IsLimited small empty
unfolding IsLimited
empty-IsLimited = (omega arith, tt, omega arith)

History-IsLimited_example : IsLimited small with_bytes
History-IsLimited_example = History-IsLimited small empty with_bytes empty-IsLimited history

second_push : (push_stream small key "r" chunk read_once).0 ≡ good true
unfolding push_stream pushed push read_stream open_raw_stream attach publish_change find_session
    new_session record_change is_live_path str_eq
second_push = refl
