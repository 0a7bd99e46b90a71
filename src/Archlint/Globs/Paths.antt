-- ===== src/Archlint/Globs/Paths.antt =====
-- tools/archlint/src/rules.rs: `segments_match` and `matches`, against what matching means.
use text.Mathlib.Text.{◌==◌}
use angzarr_router.Prelude.{
  String, ◌≡◌, refl, ap, ◌↔◌, inl, inr, Bool, true, Option, none, some, List, [], ◌∷◌, ◌++◌, arith,
  Bool-cases,
}
use angzarr_router.Archlint.Texts.{strip_prefix}
use angzarr_router.Archlint.Globs.{any_tail, segments_match, split, matches_kinds, matches}
use angzarr_router.Archlint.Globs.Wild.{PathMatches}
use angzarr_router.Archlint.Globs.Deciding.{segment_match_iff}

any_tail-true {ℓ} :
    {A : Type ℓ} (test : List A → Bool) (xs : List A)
    → any_tail test xs ≡ true
    → (us : List A) × (vs : List A) × (xs ≡ us ++ vs) × (test vs ≡ true)
unfolding any_tail
any_tail-true test [] h = ([], [], refl, h)
any_tail-true test (x ∷ xs) h = elim (Bool-cases (test (x ∷ xs))) [
  | inl here ↦ ([], x ∷ xs, refl, here)
  | inr below ↦
      let (us, vs, split, holds) = any_tail-true test xs (ground arith) in
      (x ∷ us, vs, ap (λ ys. x ∷ ys) split, holds)
]

any_tail-append {ℓ} :
    {A : Type ℓ} (test : List A → Bool) (us vs : List A)
    → test vs ≡ true
    → any_tail test (us ++ vs) ≡ true
unfolding any_tail
any_tail-append test [] [] h = h
any_tail-append test [] (v ∷ vs) h = ground arith
any_tail-append test (u ∷ us) vs h = ground (arith, any_tail-append test us vs h)

segments_match-PathMatches :
    (pattern path : List String) → segments_match pattern path ≡ true → PathMatches pattern path
unfolding segments_match
segments_match-PathMatches [] [] h = refl
segments_match-PathMatches [] (x ∷ xs) h = absurd (ground arith)
segments_match-PathMatches (seg ∷ rest) [] h = elim (Bool-cases (seg == "**")) [
  | inl deep ↦
      let (us, vs, split, holds) =
        any_tail-true (λ tail. segments_match rest tail) [] (ground arith) in
      rw (deep, PathMatches) (us, vs, split, segments_match-PathMatches rest vs holds)
  | inr single ↦ absurd (ground arith)
]
segments_match-PathMatches (seg ∷ rest) (x ∷ xs) h = elim (Bool-cases (seg == "**")) [
  | inl deep ↦
      let (us, vs, split, holds) =
        any_tail-true (λ tail. segments_match rest tail) (x ∷ xs) (ground arith) in
      rw (deep, PathMatches) (us, vs, split, segments_match-PathMatches rest vs holds)
  | inr single ↦
      rw (single, PathMatches)
        (
          x,
          xs,
          refl,
          (segment_match_iff seg x).0 (ground arith),
          segments_match-PathMatches rest xs (ground arith),
        )
]

PathMatches-segments_match :
    (pattern path : List String) → PathMatches pattern path → segments_match pattern path ≡ true
unfolding segments_match
PathMatches-segments_match [] path h = rw h
PathMatches-segments_match (seg ∷ rest) path h = elim (Bool-cases (seg == "**")) [
  | inl deep ↦
      let (us, vs, split, matched) = rw (deep, PathMatches) at h in
      let holds = PathMatches-segments_match rest vs matched in
      let reached = any_tail-append (λ tail. segments_match rest tail) us vs holds in
      let there = rw (← split) at reached in ground arith
  | inr single ↦
      let (x, xs, split, one, others) = rw (single, PathMatches) at h in
      let here = (segment_match_iff seg x).1 one in
      let below = PathMatches-segments_match rest xs others in
      rw (single, split, segments_match) (ground arith)
]

-- A list of segments matches a pattern exactly when each `**` of the pattern can take a run of the
-- segments, and every other segment pattern one segment that it matches.
pub segments_match_iff :
    (pattern path : List String) → (segments_match pattern path ≡ true) ↔ PathMatches pattern path
segments_match_iff pattern path =
    (segments_match-PathMatches pattern path, PathMatches-segments_match pattern path)

-- On-disk targets are matched by their `/`-separated segments, modules by their `::`-separated ones, and
-- a pattern of the one kind matches nothing of the other.
abbrev pub FitsKinds : Option String → Option String → String → String → Type 0
FitsKinds (some p) (some q) pattern path = PathMatches (split p "/") (split q "/")
FitsKinds none none pattern path = PathMatches (split pattern "::") (split path "::")
FitsKinds (some p) none pattern path = ⊥
FitsKinds none (some q) pattern path = ⊥

abbrev pub Fits : String → String → Type 0
Fits pattern path =
    FitsKinds (strip_prefix "path:" pattern) (strip_prefix "path:" path) pattern path

matches_kinds_iff :
    (p q : Option String) (pattern path : String)
    → (matches_kinds p q pattern path ≡ true) ↔ FitsKinds p q pattern path
matches_kinds_iff (some p) (some q) pattern path = segments_match_iff (split p "/") (split q "/")
matches_kinds_iff none none pattern path = segments_match_iff (split pattern "::") (split path "::")
matches_kinds_iff (some p) none pattern path = (λ h. cc, λ h. absurd h)
matches_kinds_iff none (some q) pattern path = (λ h. cc, λ h. absurd h)

-- `matches` says exactly whether the path fits the pattern.
pub matches_iff : (pattern path : String) → (matches pattern path ≡ true) ↔ Fits pattern path
unfolding matches
matches_iff pattern path =
    matches_kinds_iff (strip_prefix "path:" pattern) (strip_prefix "path:" path) pattern path
