-- ===== src/CommandPolicy/Locks.antt =====
-- No command that writes runs without the repository's lock.
use docker_volume_backup.Base.{
  ◌==◌, Bool, true, false, not, ◌&&◌, ◌||◌, Option, none, some, List, [], ◌∷◌, ◌≡◌, ◌⊎◌, inl, inr,
  refl, ap, ◌∙◌, arith, any_of, keep_if, Bool-cases, Option-cases, if◌then◌else◌, length,
}
use docker_volume_backup.CommandPolicy.Paths.{Text, is_text}
use docker_volume_backup.CommandPolicy.Commands.{
  Command, is_no_lock, keep_when, restic_argv, is_about, is_read_only, is_read_only_operation,
  apply_lock_policy, restic_args, supported, command_words, validate_words, validate,
}

-- The branches of `restic_args`, over any tests and arguments.
restic_choice :
    (snapshots stats cat ls find dump forget prune ok ok' ok'' : Bool)
    (a b c d : Option (List Text)) (args args' : List Text)
    → (if snapshots
        then keep_when ok args
        else if stats
        then a
        else if cat
        then b
        else if ls || find
        then c
        else if dump
        then d
        else if forget
        then keep_when ok' args
        else if prune
        then keep_when ok'' args
        else none)
      ≡ some args'
    → ((snapshots || (ls || (cat || (dump || (find || stats))))) ≡ true) ⊎ (args' ≡ args)
restic_choice snapshots stats cat ls find dump forget prune ok ok' ok'' a b c d args args' h =
    ground arith

restic_args_kept :
    (operation : Text) (args args' : List Text)
    → restic_args operation args ≡ some args'
    → (is_read_only_operation operation ≡ true) ⊎ (args' ≡ args)
unfolding restic_args
restic_args_kept operation args args' h =
    restic_choice (is_text "snapshots" operation) (is_text "stats" operation)
      (is_text "cat" operation) (is_text "ls" operation) (is_text "find" operation)
      (is_text "dump" operation) (is_text "forget" operation) (is_text "prune" operation) _ _ _ _ _
      _ _ args args' h

-- The branches of `supported` for a command with an operation.
supported_choice :
    (backup rclone restic about reads : Bool) (executable operation : Text) (args argv : List Text)
    (o : Option (List Text))
    → ((args' : List Text) → o ≡ some args' → (reads ≡ true) ⊎ (args' ≡ args))
    → (if backup
        then some (executable ∷ operation ∷ args)
        else if rclone
        then keep_when about (executable ∷ operation ∷ args)
        else if not restic
        then none
        else restic_argv executable operation o)
      ≡ some argv
    → ((args' : List Text) × (argv ≡ executable ∷ operation ∷ args') × ((restic && reads) ≡ true))
      ⊎ (argv ≡ executable ∷ operation ∷ args)
supported_choice backup rclone restic about reads executable operation args argv none kept h =
    ground arith
supported_choice backup rclone restic about reads executable operation args argv (some args') kept
      h =
    elim (kept args' refl) [
      | inr same ↦ inr (ground arith)
      | inl reading ↦ elim (Bool-cases restic) [
        | inr other ↦ inr (ground arith)
        | inl is_restic ↦ elim (Bool-cases (backup || rclone)) [
          | inl other ↦ inr (ground arith)
          | inr neither ↦ inl (args', ground arith, ground arith)
        ]
      ]
    ]

-- And for one without.
single_choice :
    (backup rclone restic about : Bool) (parts argv : List Text)
    → (if backup
        then some parts
        else if rclone
        then keep_when about parts
        else if not restic
        then none
        else none)
      ≡ some argv
    → argv ≡ parts
single_choice backup rclone restic about parts argv h = ground arith

supported_kept :
    (parts argv : List Text)
    → supported parts ≡ some argv
    → (is_read_only argv ≡ true) ⊎ (argv ≡ parts)
unfolding supported is_read_only
supported_kept [] argv h = ground arith
supported_kept (executable ∷ []) argv h = inr (
    single_choice (is_text "/root/backup.sh" executable && true) (is_text "rclone" executable)
      (is_text "restic" executable) (is_about []) (executable ∷ []) argv h)
supported_kept (executable ∷ operation ∷ args) argv h =
    elim (supported_choice (is_text "/root/backup.sh" executable && length (operation ∷ args) == 0)
      (is_text "rclone" executable) (is_text "restic" executable) (is_about (operation ∷ args))
      (is_read_only_operation operation) executable operation args argv (restic_args operation args)
      (restic_args_kept operation args) h) [
        | inl (args', same, reads) ↦ inl (ap (λ r. is_read_only r) same ∙ reads)
        | inr same ↦ inr same
      ]

kept_unlocked :
    (parts : List Text) → any_of is_no_lock (keep_if (λ item. not (is_no_lock item)) parts) ≡ false
kept_unlocked [] = refl
kept_unlocked (part ∷ parts) = ground (arith, kept_unlocked parts)

-- A command that the policy accepts and that carries `--no-lock` once the lock policy has been
-- applied only reads the repository.
pub no_lock_only_reads :
    (command : Command) (no_lock : Bool) (argv : List Text)
    → validate command ≡ some argv
    → any_of is_no_lock (apply_lock_policy argv no_lock) ≡ true
    → is_read_only argv ≡ true
unfolding validate validate_words apply_lock_policy
no_lock_only_reads command no_lock argv accepted unlocked =
    elim (Option-cases (command_words command)) [
      | inl bad ↦ ground arith
      | inr (parts, split) ↦
          let kept = keep_if (λ item. not (is_no_lock item)) parts in
          let e : supported kept ≡ some argv = ground arith in
          elim (supported_kept kept argv e) [
            | inl reads ↦ reads
            | inr same ↦ ground (arith, kept_unlocked parts)
          ]
    ]
