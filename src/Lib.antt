-- ===== src/Lib.antt =====
-- docker-volume-backup: a control plane that schedules backups of Docker volumes, hands them to
-- workers as jobs under leases, and follows their progress to an end.
--
-- The parts and how they meet. The scheduler ticks over the backup targets and asks the control
-- plane's service to dispatch jobs. A worker registers, sends heartbeats, and fetches the jobs that
-- wait for it: the job repository claims them for it, each under a lease with a token. The worker
-- renews the lease, reports progress and completes the job under that token; a lease that runs out
-- is reconciled, which fails the job. Operators cancel jobs and revoke workers. Every change of a
-- job is published to the event broker. On the worker, the runtime command policy says which
-- command lines may run at all; a backup or a restore stops containers, does its work over the ports
-- of storage and containers, and starts them again, and a restore asks the ownership policy first.
-- Workers sign their requests with credentials that they get by enrollment. The live view of a
-- target's files has sessions of its own, with subscribers that may replay what they missed.
--
-- Which file models what (paths from the repository's root):
--   Base          texts, lists, dictionaries in insertion order, Python's `int` and `split`
--   Json          the JSON values of summaries and payloads
--   Jobs          JobRecord and JobStatus of src/control_plane/domain/models.py, and
--                 InMemoryJobRepository with the lease helpers of
--                 src/control_plane/infrastructure/repositories/in_memory.py
--   ControlPlane  the worker and job methods of ControlPlaneService (revoke_worker with the state of
--                 WorkerAuth), of
--                 src/control_plane/application/services/control_plane_service.py
--   Scheduler     src/control_plane/application/services/scheduler_service.py: cron fields and
--                 the tick
--   EventBroker   src/control_plane/application/services/job_event_broker.py
--   CommandPolicy src/worker_agent/application/policies/runtime_command_policy.py
--   Secrets       find_secret_usages and delete_secret of ControlPlaneService, with the
--                 repositories of secrets and storage profiles
--   Metadata      the repositories of snapshots, statistics, cache generations, index statuses
--   WorkerAuth    src/control_plane/infrastructure/security/worker_auth.py, without a database path
--   LiveFiles     src/control_plane/application/services/live_file_service.py
--   RestoreOwnership src/app/domain/restore_ownership.py
--   Backup        src/app/application/services/backup_service.py, with the records it reads of
--                 src/app/domain/models.py; its ports are parameters that may raise at any call
--   Restore       src/app/application/services/restore_service.py, likewise
-- A definition has the name of the function or method that it models, and takes the state that the
-- method reads and returns the state that it leaves.
--
-- How the source is read:
--   * A repository is a dictionary by id in insertion order. The repositories in memory hand out the
--     records that they hold, so a method that changes a record and then raises has changed the
--     repository: `update_job_status` does so where its sync fails, and is modelled so. Every other
--     change of the modelled methods is followed by a `save` of the record, and a status is stored
--     in its normal spelling by each `save`, so that `normalize` of a stored one changes nothing.
--   * A datetime is a number of microseconds since some origin, in UTC without a zone; the
--     scheduler's local times are cut to the minute. A call reads the clock once.
--   * Random tokens and uuids are streams or arguments.
--   * `str` operations are those on ASCII texts; a text is a String, or its list of code points.
--   * The methods under a lock are atomic steps. Several threads are sequences of such steps.
--   * What the service writes into summaries and log lines after redaction is a parameter, the
--     record `Texts` of ControlPlane/Leases.antt, as are the payload builders and the success of the
--     syncs from a result.
-- Fuel: `range_from`, for Python's `range`, gets one more than the distance of its ends, which the
-- proof of `part_values_exact` shows to be enough; `print_digits`, for `str` of a number, gets the
-- number itself, which `print_decimal-IsPrintOf` shows to be enough. All other loops are recursion
-- on a list or on a value.
--
-- Not modelled: the SQLite repositories and the HTTP interface, TLS and encryption, the worker's
-- runtimes (Docker, Kubernetes, subprocesses) and its service loop, the Redis cache, the adapters of
-- backup and restore, which call restic, rclone and Docker, and the user interface; of the worker
-- credentials the variant in SQLite; of the live sessions the signed text of cursors.
--
pub mod Base
pub mod Json
pub mod Jobs
pub mod ControlPlane
pub mod Scheduler
pub mod LiveFiles
pub mod Secrets
pub mod WorkerAuth
pub mod RestoreOwnership
pub mod Backup
pub mod Restore
pub mod Metadata
pub mod EventBroker
pub mod CommandPolicy
