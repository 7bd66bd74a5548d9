-- ===== src/Jobs/Queue.antt =====
-- The queue of a valid repository: its jobs in their order of submission, distinct and stored.
use docker_volume_backup.Base.{
  ℕ, String, false, ◌&&◌, none, some, List, [], ◌∷◌, ◌≡◌, refl, arith, ◌∙◌, any_of-insert_by,
  any_of-sort_by, insert_by, sort_by, str_eq, str_eq_iff, get, values,
}
use docker_volume_backup.Jobs.Defs.{JobRecord, Jobs}
use docker_volume_backup.Jobs.Repository.{claimable}
use docker_volume_backup.Jobs.Invariant.{IsValid}
use docker_volume_backup.Jobs.Run.{has_id, takes_id, Distinct, Stored, takes_id-has_id}

-- The jobs of a valid repository, sorted, are distinct, stored, and all there.
has_id-values :
    (k : String) (items : Jobs)
    → IsValid items
    → get k items ≡ none
    → has_id k (values items) ≡ false
has_id-values k [] v h = refl
has_id-values k ((j, job) ∷ items) v h =
    ground (arith, v.0, str_eq_iff j k, str_eq_iff job.id k, has_id-values k items v.3)

Stored-cons :
    (k : String) (job : JobRecord) (items : Jobs) (jobs : List JobRecord)
    → has_id k jobs ≡ false
    → Stored items jobs
    → Stored ((k, job) ∷ items) jobs
Stored-cons k job items [] h s = tt
Stored-cons k job items (job' ∷ jobs) h s =
    ground (arith, str_eq_iff k job'.id, str_eq_iff job'.id k, Stored-cons k job items jobs)

Stored-values : (items : Jobs) → IsValid items → Stored items (values items)
Stored-values [] v = tt
Stored-values ((k, job) ∷ items) v = (
  ground (arith, v.0, str_eq_iff k job.id),
  Stored-cons k job items (values items) (has_id-values k items v.3 v.2) (Stored-values items v.3),
)

Distinct-values : (items : Jobs) → IsValid items → Distinct (values items)
Distinct-values [] v = tt
Distinct-values ((k, job) ∷ items) v =
    (has_id-values job.id items v.3 (rw (← v.0) v.2), Distinct-values items v.3)

module _ (key : JobRecord → ℕ) where
  Distinct-insert :
      (job : JobRecord) (jobs : List JobRecord)
      → has_id job.id jobs ≡ false
      → Distinct jobs
      → Distinct (insert_by key job jobs)
  Distinct-insert job [] h d = (h, tt)
  Distinct-insert job (job' ∷ jobs) h d = ground (
    arith,
    str_eq_iff job.id job'.id,
    str_eq_iff job'.id job.id,
    any_of-insert_by (λ (x : JobRecord). str_eq x.id job'.id) key job jobs,
    Distinct-insert job jobs,
  )

  Distinct-sort : (jobs : List JobRecord) → Distinct jobs → Distinct (sort_by key jobs)
  Distinct-sort [] d = tt
  Distinct-sort (job ∷ jobs) d =
      Distinct-insert job (sort_by key jobs)
        (any_of-sort_by (λ x. str_eq x.id job.id) key jobs ∙ d.0) (Distinct-sort jobs d.1)

  Stored-insert :
      (items : Jobs) (job : JobRecord) (jobs : List JobRecord)
      → get job.id items ≡ some job
      → Stored items jobs
      → Stored items (insert_by key job jobs)
  Stored-insert items job [] h s = (h, tt)
  Stored-insert items job (job' ∷ jobs) h s = ground (arith, Stored-insert items job jobs h s.1)

  Stored-sort :
      (items : Jobs) (jobs : List JobRecord) → Stored items jobs → Stored items (sort_by key jobs)
  Stored-sort items [] s = tt
  Stored-sort items (job ∷ jobs) s =
      Stored-insert items job (sort_by key jobs) s.0 (Stored-sort items jobs s.1)

takes_id-values :
    (worker k : String) (items : Jobs) (job : JobRecord)
    → IsValid items
    → get k items ≡ some job
    → takes_id worker k (values items) ≡ claimable worker job
takes_id-values worker k [] job v h = cc
takes_id-values worker k ((j, job') ∷ items) job v h = ground (
  arith,
  v.0,
  str_eq_iff j k,
  str_eq_iff job'.id k,
  has_id-values j items v.3 v.2,
  takes_id-has_id worker j (values items),
  takes_id-values worker k items job v.3,
)

abbrev pub queue : Jobs → List JobRecord
queue items = sort_by (λ job. job.submitted_at) (values items)

pub takes_id-queue :
    (worker k : String) (items : Jobs) (job : JobRecord)
    → IsValid items
    → get k items ≡ some job
    → takes_id worker k (queue items) ≡ claimable worker job
takes_id-queue worker k items job v found =
    any_of-sort_by (λ x. str_eq x.id k && claimable worker x) (λ x. x.submitted_at) (values items)
    ∙ takes_id-values worker k items job v found

pub Distinct-queue : (items : Jobs) → IsValid items → Distinct (queue items)
Distinct-queue items v =
    Distinct-sort (λ x. x.submitted_at) (values items) (Distinct-values items v)

pub Stored-queue : (items : Jobs) → IsValid items → Stored items (queue items)
Stored-queue items v =
    Stored-sort (λ x. x.submitted_at) items (values items) (Stored-values items v)

pub takes_id-queue_missing :
    (worker k : String) (items : Jobs)
    → IsValid items
    → get k items ≡ none
    → takes_id worker k (queue items) ≡ false
takes_id-queue_missing worker k items v missing =
    any_of-sort_by (λ x. str_eq x.id k && claimable worker x) (λ x. x.submitted_at) (values items)
    ∙ takes_id-has_id worker k (values items) (has_id-values k items v missing)
