-- ===== src/CommandPolicy/Confined.antt =====
-- A normalised snapshot path stays below the snapshot's root.
use docker_volume_backup.Base.{
  ℕ, Bool, true, false, ◌||◌, some, List, [], ◌∷◌, ◌≡◌, ◌⊎◌, inl, inr, refl, sym, subst, arith, All,
  has, split_on,
}
use mathlib.Core.List.{reverse_aux}
use docker_volume_backup.CommandPolicy.Paths.{
  Text, is_text, norm_comps, rooted, normpath, normalize_snapshot_path,
}

-- A name: not empty, neither of the directories `.` and `..`, and without a slash.
abbrev pub IsName : Text → Type 0
IsName part =
    (has b'/' part ≡ false)
    × (is_text "" part ≡ false)
    × (is_text "." part ≡ false)
    × (is_text ".." part ≡ false)

abbrev HasNoSlash : Text → Type 0
HasNoSlash part = has b'/' part ≡ false

split_on-HasNoSlash : (cs : List ℕ) → All HasNoSlash (split_on b'/' cs)
unfolding split_on
split_on-HasNoSlash [] = (refl, tt)
split_on-HasNoSlash (c ∷ cs) = ground (arith, split_on-HasNoSlash cs)

All-reverse_aux :
    (P : Text → Type 0) (parts done : List Text)
    → All P parts
    → All P done
    → All P (reverse_aux parts done)
All-reverse_aux P [] done h k = k
All-reverse_aux P (part ∷ parts) done (p, h) k = All-reverse_aux P parts (part ∷ done) h (p, k)

dropped : List Text → List Text
dropped [] = []
dropped (comp ∷ comps) = comps

All-dropped : (comps : List Text) → All IsName comps → All IsName (dropped comps)
unfolding dropped
All-dropped [] h = tt
All-dropped (comp ∷ comps) (p, h) = h

neither : (a b : Bool) → (a || b) ≡ false → (a ≡ false) × (b ≡ false)
neither a b h = ground arith

-- The branches of `norm_comps`.
norm_choice :
    (sign up : Bool) (x y z : List Text)
    → let r : List Text = elim sign [ true ↦ x | false ↦ elim up [ true ↦ y | false ↦ z ] ] in
      (r ≡ x) ⊎ ((r ≡ y) ⊎ ((r ≡ z) × (sign ≡ false) × (up ≡ false)))
norm_choice true up x y z = inl refl
norm_choice false true x y z = inr (inl refl)
norm_choice false false x y z = inr (inr (refl, refl, refl))

named :
    {A B C : Type 0} (part : Text)
    → A ⊎ (B ⊎ (C × ((is_text "" part || is_text "." part) ≡ false) × (is_text ".." part ≡ false)))
    → A
      ⊎ (B
          ⊎ (C
              × (is_text "" part ≡ false)
              × (is_text "." part ≡ false)
              × (is_text ".." part ≡ false)))
named part (inl a) = inl a
named part (inr (inl b)) = inr (inl b)
named part (inr (inr (c, sign, up))) =
    let (not_empty, not_here) = neither (is_text "" part) (is_text "." part) sign in
    inr (inr (c, not_empty, not_here, up))

-- One round of `norm_comps`, where the part is a directory sign and where it is a name.
norm_round :
    (comps : List Text) (part : Text) (parts : List Text)
    → (norm_comps comps (part ∷ parts) ≡ norm_comps comps parts)
      ⊎ ((norm_comps comps (part ∷ parts) ≡ norm_comps (dropped comps) parts)
          ⊎ ((norm_comps comps (part ∷ parts) ≡ norm_comps (part ∷ comps) parts)
              × (is_text "" part ≡ false)
              × (is_text "." part ≡ false)
              × (is_text ".." part ≡ false)))
unfolding norm_comps dropped
norm_round [] part parts = named part (
    norm_choice (is_text "" part || is_text "." part) (is_text ".." part) (norm_comps [] parts)
      (norm_comps [] parts) (norm_comps (part ∷ []) parts))
norm_round (comp ∷ comps) part parts = named part (
    norm_choice (is_text "" part || is_text "." part) (is_text ".." part)
      (norm_comps (comp ∷ comps) parts) (norm_comps comps parts)
      (norm_comps (part ∷ comp ∷ comps) parts))

norm_comps-IsName :
    (comps parts : List Text)
    → All IsName comps
    → All HasNoSlash parts
    → All IsName (norm_comps comps parts)
norm_comps-IsName comps [] h k = unfold norm_comps in All-reverse_aux IsName comps [] h tt
norm_comps-IsName comps (part ∷ parts) h (p, k) = elim (norm_round comps part parts) [
  | inl same ↦ subst (λ r. All IsName r) (sym same) (norm_comps-IsName comps parts h k)
  | inr (inl up) ↦
      subst (λ r. All IsName r) (sym up)
        (norm_comps-IsName (dropped comps) parts (All-dropped comps h) k)
  | inr (inr (more, not_empty, not_here, not_up)) ↦
      subst (λ r. All IsName r) (sym more)
        (norm_comps-IsName (part ∷ comps) parts ((p, not_empty, not_here, not_up), h) k)
]

-- The normalised path of a snapshot entry is the root followed by plain names, none of them empty,
-- `.` or `..`, so it never leaves the snapshot.
pub normalize_snapshot_path-IsName :
    (value path : Text)
    → normalize_snapshot_path value ≡ some path
    → (names : List Text) × (path ≡ rooted names) × All IsName names
unfolding normalize_snapshot_path normpath
normalize_snapshot_path-IsName [] path h = ([], unfold rooted in ground arith, tt)
normalize_snapshot_path-IsName (c ∷ cs) path h =
    let parts = split_on b'/' (c ∷ cs) in
    (
      norm_comps [] parts,
      ground arith,
      norm_comps-IsName [] parts tt (split_on-HasNoSlash (c ∷ cs)),
    )
