-- ===== src/LiveFiles/Defs.antt =====
-- The data of the live sessions. A subscription or stream is kept by its session as long as it is
-- open; one that is closed is no longer there.
use docker_volume_backup.Base.{ℕ, String, Bool, ◌&&◌, Option, List, Dict, str_eq}

pub record LiveSessionKey : Type 0 where
  pub target_id : String
  pub config_revision : String
  pub worker_id : String

abbrev pub same_key : LiveSessionKey → LiveSessionKey → Bool
same_key a b =
    str_eq a.target_id b.target_id
    && (str_eq a.config_revision b.config_revision && str_eq a.worker_id b.worker_id)

-- What is told of a change: its kind, its path, its entry's type, its size and its time.
pub record Change : Type 0 where
  pub kind : String
  pub path : String
  pub entry_type : String
  pub size : Option ℕ
  pub mtime_ns : Option ℕ

pub record LiveChange : Type 0 where
  pub event_id : ℕ
  pub change : Change

pub data Message : Type 0 where
  changed : LiveChange → Message
  resync_required : Message

pub record LiveSubscription : Type 0 where
  pub queue : List Message
  pub cursor : ℕ

-- `pushed` counts the bytes of all chunks so far.
pub record LiveRawStream : Type 0 where
  pub queue : List (List ℕ)
  pub pushed : ℕ

pub record Session : Type 0 where
  pub events : List LiveChange
  pub next_id : ℕ
  pub created_at : ℕ
  pub last_activity : ℕ
  pub subscribers : Dict LiveSubscription
  pub streams : Dict LiveRawStream

-- The arguments of `LiveFileService`; times are in the clock's unit.
pub record Limits : Type 0 where
  pub max_sessions : ℕ
  pub max_subscribers : ℕ
  pub queue_size : ℕ
  pub max_events : ℕ
  pub max_streams : ℕ
  pub stream_queue_size : ℕ
  pub max_chunk_bytes : ℕ
  pub max_stream_bytes : ℕ
  pub idle_ttl : ℕ
  pub max_age : ℕ

-- `_sessions` and `_revoked`, in insertion order.
pub record LiveState : Type 0 where
  pub sessions : List (LiveSessionKey × Session)
  pub revoked : List (LiveSessionKey × String)

pub data Failure : Type 0 where
  session_revoked session_limit session_missing subscriber_limit stream_limit : Failure
  bad_path bad_cursor chunk_limit stream_bytes backpressure : Failure

pub data Answer (A : Type 0) : Type 0 where
  good : A → Answer A
  bad : Failure → Answer A
