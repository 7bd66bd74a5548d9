-- ===== src/RestoreOwnership/Identity.antt =====
-- That an identity is read back from its text.
use docker_volume_backup.Base.{
  append_nil, ℕ, String, true, List, [], ◌∷◌, ◌++◌, ◌≡◌, refl, ap, ◌∙◌, arith, any_of, codes,
  all_digits, print_decimal, IsPrintOf, print_decimal-IsPrintOf, before, after, ◌==◌,
}
use docker_volume_backup.Json.{text}
use docker_volume_backup.RestoreOwnership.{
  Checked, good, refused, ◌>>=◌, parse_uid_gid_text, parse_uid_gid, print_uid_gid, uid_gid_text,
  is_uid_gid,
}

-- What a chain of checks that succeeds went through.
pub bind_good {ℓ κ} :
    {A : Type ℓ} {B : Type κ} (m : Checked A) (f : A → Checked B) (b : B)
    → (m >>= f) ≡ good b
    → (a : A) × (m ≡ good a) × (f a ≡ good b)
bind_good (good a) f b h = (a, refl, h)
bind_good (refused e) f b h = ground arith

before-append : (ds es : List ℕ) → all_digits ds ≡ true → before b':' (ds ++ b':' ∷ es) ≡ ds
before-append [] es h = refl
before-append (d ∷ ds) es h = ground (arith, before-append ds es)

after-append : (ds es : List ℕ) → all_digits ds ≡ true → after b':' (ds ++ b':' ∷ es) ≡ es
after-append [] es h = refl
after-append (d ∷ ds) es h = ground (arith, after-append ds es)

has_colon : (ds es : List ℕ) → any_of (λ c. c == b':') (ds ++ b':' ∷ es) ≡ true
has_colon [] es = refl
has_colon (d ∷ ds) es = ground (arith, has_colon ds es)

codes-print_uid_gid :
    (uid gid : ℕ)
    → (ds es : List ℕ) × IsPrintOf uid ds
      × IsPrintOf gid es
      × (codes (print_uid_gid (uid, gid)) ≡ ds ++ b':' ∷ es)
unfolding print_uid_gid
codes-print_uid_gid uid gid =
    let (es, he, e) = print_decimal-IsPrintOf gid "" in
    let (ds, hd, d) = print_decimal-IsPrintOf uid (String.◌∷◌ ":" (print_decimal gid "")) in
    (ds, es, hd, he, d ∙ ap (λ r. ds ++ b':' ∷ r) (e ∙ append_nil es))

is_uid_gid-print :
    (uid gid : ℕ) (ds es : List ℕ)
    → IsPrintOf uid ds
    → IsPrintOf gid es
    → is_uid_gid (ds ++ b':' ∷ es) ≡ true
unfolding is_uid_gid
is_uid_gid-print uid gid ds es hd he = rw (before-append ds es hd.only_digits) (
    rw (after-append ds es hd.only_digits) (
      rw (has_colon ds es)
        (rw hd.only_digits (rw he.only_digits (ground (arith, hd.some_digit, he.some_digit))))))

pub parse-print_uid_gid : (ids : ℕ × ℕ) → parse_uid_gid_text (print_uid_gid ids) ≡ good ids
unfolding parse_uid_gid_text
parse-print_uid_gid (uid, gid) =
    let (ds, es, hd, he, same) = codes-print_uid_gid uid gid in
    rw same (
      rw (is_uid_gid-print uid gid ds es hd he) (
        rw (before-append ds es hd.only_digits)
          (rw (after-append ds es hd.only_digits) (rw hd.same_value (rw he.same_value refl)))))

-- An identity that is written is read as itself.
pub uid_gid_text-print :
    (ids : ℕ × ℕ) → uid_gid_text (text (print_uid_gid ids)) ≡ good (print_uid_gid ids)
unfolding uid_gid_text parse_uid_gid
uid_gid_text-print ids = rw (parse-print_uid_gid ids) refl
