-- ===== src/Jobs/Log.antt =====
-- The bounds on the log that a progress report leaves.
use docker_volume_backup.Base.{List}
use docker_volume_backup.Jobs.Defs.{Jobs}
