-- ===== src/Jobs/Run.antt =====
-- The loop of `claim_pending_for_worker` over a list of distinct jobs that are all stored.
use docker_volume_backup.Base.{
  ℕ, suc, String, Bool, true, false, ◌&&◌, Option, some, find_first, List, [], ◌∷◌, ◌≡◌, refl,
  subst, ap, arith, ◌∙◌, any_of, str_eq, str_eq_iff, str_eq_refl, get, put, get-put, Bool-cases,
  inl, inr,
}
use docker_volume_backup.Jobs.Defs.{JobRecord, Jobs}
use docker_volume_backup.Jobs.Repository.{claimable, claimed, claim_loop}
use docker_volume_backup.Jobs.Cases.{claim_loop_taken, claim_loop_skipped, id-claimed}

-- Some job of the list has the id `k`.
abbrev pub has_id : String → List JobRecord → Bool
has_id k jobs = any_of (λ job. str_eq job.id k) jobs

-- Some job of the list has the id `k` and may be claimed.
abbrev pub takes_id : String → String → List JobRecord → Bool
takes_id worker k jobs = any_of (λ job. str_eq job.id k && claimable worker job) jobs

abbrev pub Distinct : List JobRecord → Type 0
Distinct [] = Unit
Distinct (job ∷ jobs) = (has_id job.id jobs ≡ false) × Distinct jobs

abbrev pub Stored : Jobs → List JobRecord → Type 0
Stored items [] = Unit
Stored items (job ∷ jobs) = (get job.id items ≡ some job) × Stored items jobs

pub takes_id-has_id :
    (worker k : String) (jobs : List JobRecord)
    → has_id k jobs ≡ false
    → takes_id worker k jobs ≡ false
takes_id-has_id worker k [] h = refl
takes_id-has_id worker k (job ∷ jobs) h = ground (arith, takes_id-has_id worker k jobs)

-- A write under an id that no job of the list has.
Stored-put :
    (k : String) (job : JobRecord) (items : Jobs) (jobs : List JobRecord)
    → has_id k jobs ≡ false
    → Stored items jobs
    → Stored (put k job items) jobs
Stored-put k job items [] h s = tt
Stored-put k job items (job' ∷ jobs) h s = ground (
  arith,
  str_eq_iff k job'.id,
  str_eq_iff job'.id k,
  get-put k job'.id job items,
  Stored-put k job items jobs,
)

module _ (worker : String) (tokens : ℕ → String) (expires now : ℕ) where
  abbrev pub run : ℕ → List JobRecord → Jobs → Jobs
  run i jobs items = (claim_loop worker tokens expires now i jobs items).1

  pub run_untouched :
      (k : String) (i : ℕ) (jobs : List JobRecord) (items : Jobs)
      → takes_id worker k jobs ≡ false
      → get k (run i jobs items) ≡ get k items
  run_untouched k i [] items h = unfold claim_loop in refl
  run_untouched k i (job ∷ jobs) items h = elim (Bool-cases (claimable worker job)) [
    | inl free ↦
        ap (λ r. get k r.1) (claim_loop_taken worker tokens expires now i job jobs items free)
        ∙ run_untouched k (suc i) jobs
            (put job.id (claimed worker (tokens i) expires now job) items) (ground arith)
        ∙ get-put job.id k (claimed worker (tokens i) expires now job) items
        ∙ ground arith
    | inr taken ↦
        ap (λ r. get k r.1) (claim_loop_skipped worker tokens expires now i job jobs items taken)
        ∙ run_untouched k i jobs items (ground arith)
  ]

  -- The job at the head is claimed, and no later job of the list has its id.
  run_takes_head :
      (i : ℕ) (job : JobRecord) (jobs : List JobRecord) (items : Jobs)
      → claimable worker job ≡ true
      → has_id job.id jobs ≡ false
      → get job.id (run i (job ∷ jobs) items) ≡ some (claimed worker (tokens i) expires now job)
  run_takes_head i job jobs items free d =
      ap (λ r. get job.id r.1) (claim_loop_taken worker tokens expires now i job jobs items free)
      ∙ run_untouched job.id (suc i) jobs
          (put job.id (claimed worker (tokens i) expires now job) items)
          (takes_id-has_id worker job.id jobs d)
      ∙ get-put job.id job.id (claimed worker (tokens i) expires now job) items
      ∙ ground (arith, str_eq_refl job.id)

  -- The job of the answer with the id `k`.
  abbrev pub answered : String → ℕ → List JobRecord → Jobs → Option JobRecord
  answered k i jobs items =
      find_first (λ job. str_eq job.id k) (claim_loop worker tokens expires now i jobs items).0

  abbrev pub Handout : String → ℕ → List JobRecord → Jobs → Type 0
  Handout k i jobs items =
      (job : JobRecord) × (n : ℕ) × (get k items ≡ some job)
      × (get k (run i jobs items) ≡ some (claimed worker (tokens n) expires now job))
      × (answered k i jobs items ≡ some (claimed worker (tokens n) expires now job))

  answered_head :
      (i : ℕ) (job : JobRecord) (jobs : List JobRecord) (items : Jobs)
      → claimable worker job ≡ true
      → answered job.id i (job ∷ jobs) items ≡ some (claimed worker (tokens i) expires now job)
  answered_head i job jobs items free =
      rw (claim_loop_taken worker tokens expires now i job jobs items free)
        (ground (arith, id-claimed worker (tokens i) expires now job, str_eq_refl job.id))

  answered_tail :
      (k : String) (i : ℕ) (job : JobRecord) (jobs : List JobRecord) (items : Jobs)
      → claimable worker job ≡ true
      → str_eq job.id k ≡ false
      → answered k i (job ∷ jobs) items
        ≡ answered k (suc i) jobs (put job.id (claimed worker (tokens i) expires now job) items)
  answered_tail k i job jobs items free there =
      rw (claim_loop_taken worker tokens expires now i job jobs items free)
        (ground (arith, id-claimed worker (tokens i) expires now job))

  pub run_takes :
      (k : String) (i : ℕ) (jobs : List JobRecord) (items : Jobs)
      → Distinct jobs
      → Stored items jobs
      → takes_id worker k jobs ≡ true
      → Handout k i jobs items
  run_takes k i [] items d s h = cc
  run_takes k i (job ∷ jobs) items d s h = elim (Bool-cases (claimable worker job)) [
    | inl free ↦ elim (Bool-cases (str_eq job.id k)) [
      | inl here ↦
          let e : job.id ≡ k = (str_eq_iff job.id k).0 here in
          subst (λ x. Handout x i (job ∷ jobs) items) e
            (
              job,
              i,
              s.0,
              run_takes_head i job jobs items free d.0,
              answered_head i job jobs items free,
            )
      | inr there ↦
          let job' = claimed worker (tokens i) expires now job in
          let (found, n, at_k, ends, listed) =
            run_takes k (suc i) jobs (put job.id job' items) d.1
              (Stored-put job.id job' items jobs d.0 s.1) (ground arith) in
          (
            found,
            n,
            ground (arith, get-put job.id k job' items),
            ap (λ r. get k r.1) (claim_loop_taken worker tokens expires now i job jobs items free)
                ∙ ends,
            answered_tail k i job jobs items free there ∙ listed,
          )
    ]
    | inr taken ↦
        let (found, n, at_k, ends, listed) = run_takes k i jobs items d.1 s.1 (ground arith) in
        (
          found,
          n,
          at_k,
          ap (λ r. get k r.1) (claim_loop_skipped worker tokens expires now i job jobs items taken)
              ∙ ends,
          ap (λ r. find_first (λ x. str_eq x.id k) r.0)
                (claim_loop_skipped worker tokens expires now i job jobs items taken)
              ∙ listed,
        )
  ]

-- A queue in which nothing may be claimed is left alone.
pub claim_loop_none :
    (worker : String) (tokens : ℕ → String) (expires now i : ℕ) (jobs : List JobRecord)
    (items : Jobs)
    → Stored items jobs
    → ((k : String) (job : JobRecord) → get k items ≡ some job → claimable worker job ≡ false)
    → claim_loop worker tokens expires now i jobs items ≡ ([], items)
claim_loop_none worker tokens expires now i [] items s none_free = unfold claim_loop in refl
claim_loop_none worker tokens expires now i (job ∷ jobs) items s none_free =
    claim_loop_skipped worker tokens expires now i job jobs items (none_free job.id job s.0)
    ∙ claim_loop_none worker tokens expires now i jobs items s.1 none_free
