-- ===== src/Archlint/Globs/Deciding.antt =====
-- tools/archlint/src/rules.rs: `segment_match`, `segments_match` and `matches`, against what matching means.
use Prim.Native.Char.{Char, code}
use Prim.Native.String.{◌∷◌ as char_cons, ◌++◌ as append}
use text.Mathlib.TextLemmas.{nil-append, cons-append, append-nil}
use angzarr_router.Prelude.{
  ℕ, zero, suc, ◌+◌, ◌<◌, String, ◌≡◌, refl, ap, sym, ◌∙◌, ◌↔◌, inl, inr, true, nat_eq, arith,
  Option-cases, eq_iff,
}
use angzarr_router.Archlint.Texts.{
  strip_prefix, strip_prefix-append, strip_prefix-eq-some, split_once, split_once-eq-none,
  split_once-eq-some, any_suffix-true, any_suffix-append, Without,
}
use angzarr_router.Archlint.Globs.{chars, segment_match_on, segment_match, split}
use angzarr_router.Archlint.Globs.Wild.{WildMatches, Wild-star, Wild-prefix, prefix-Wild}

-- A pattern without a star matches itself alone.
Without-Wild : (p : String) → Without b'*' p → WildMatches p p
Without-Wild p clean = rw (append-nil p) at (prefix-Wild p "" "" clean refl)

Wild-Without : (p s : String) → Without b'*' p → WildMatches p s → p ≡ s
Wild-Without p s clean h =
    let (t, split, empty) = Wild-prefix p "" s clean (rw (append-nil p) h) in
    sym (split ∙ ap (append p) empty ∙ append-nil p)

chars-append : (p q : String) → chars (append p q) ≡ chars p + chars q
chars-append String.[] q = rw nil-append (omega arith)
chars-append (String.◌∷◌ c p) q = rw cons-append (omega (arith, chars-append p q))

-- A pattern whose first star stands behind `prefix`.
Wild_at_star :
    (c : Char) (prefix rest after u v : String)
    → Without b'*' prefix
    → nat_eq (code c) b'*' ≡ true
    → after ≡ append u v
    → WildMatches rest v
    → WildMatches (append prefix (char_cons c rest)) (append prefix after)
Wild_at_star c prefix rest after u v clean star split h =
    prefix-Wild prefix (char_cons c rest) after clean
      ((Wild-star c rest after star).1 (u, v, split, h))

star_at_Wild :
    (c : Char) (prefix rest s : String)
    → Without b'*' prefix
    → nat_eq (code c) b'*' ≡ true
    → WildMatches (append prefix (char_cons c rest)) s
    → (u : String) × (v : String) × (s ≡ append prefix (append u v)) × WildMatches rest v
star_at_Wild c prefix rest s clean star h =
    let (after, outer, below) = Wild-prefix prefix (char_cons c rest) s clean h in
    let (u, v, inner, matched) = (Wild-star c rest after star).0 below in
    (u, v, outer ∙ ap (append prefix) inner, matched)

segment_match_on-Wild :
    (fuel : ℕ) (p s : String) → segment_match_on fuel p s ≡ true → WildMatches p s
unfolding segment_match_on
segment_match_on-Wild zero p s h = cc
segment_match_on-Wild (suc fuel) p s h = elim (Option-cases (split_once b'*' p)) [
  | inl whole ↦
      let same : p ≡ s = (eq_iff p s).0 (ground arith) in
      rw (← same) (Without-Wild p (split_once-eq-none b'*' p whole))
  | inr ((prefix, rest), found) ↦ elim (Option-cases (strip_prefix prefix s)) [
    | inl off ↦ absurd (ground arith)
    | inr (after, on) ↦
        let (c, clean, star, at) = split_once-eq-some b'*' p prefix rest found in
        let (u, v, split, holds) =
          any_suffix-true (λ tail. segment_match_on fuel rest tail) after (ground arith) in
        rw (at, strip_prefix-eq-some prefix s after on)
          (Wild_at_star c prefix rest after u v clean star split
            (segment_match_on-Wild fuel rest v holds))
  ]
]

Wild-segment_match_on :
    (fuel : ℕ) (p s : String) → chars p < fuel → WildMatches p s → segment_match_on fuel p s ≡ true
unfolding segment_match_on
Wild-segment_match_on zero p s small h = absurd (omega arith)
Wild-segment_match_on (suc fuel) p s small h = elim (Option-cases (split_once b'*' p)) [
  | inl whole ↦
      let same = (eq_iff p s).1 (Wild-Without p s (split_once-eq-none b'*' p whole) h) in
      ground arith
  | inr ((prefix, rest), found) ↦
      let (c, clean, star, at) = split_once-eq-some b'*' p prefix rest found in
      let (u, v, split, matched) = star_at_Wild c prefix rest s clean star (rw at at h) in
      let on = rw (← split) at (strip_prefix-append prefix (append u v)) in
      let shorter = chars-append prefix (char_cons c rest) in
      let less : chars rest < fuel = omega (arith, shorter, ap chars at) in
      let below =
        any_suffix-append (λ tail. segment_match_on fuel rest tail) u v
          (Wild-segment_match_on fuel rest v less matched) in
      ground arith
]

-- A segment matches a pattern exactly when each '*' of the pattern can take a run of its chars and every
-- other char of the pattern itself.
pub segment_match_iff : (p s : String) → (segment_match p s ≡ true) ↔ WildMatches p s
unfolding segment_match
segment_match_iff p s = (
  segment_match_on-Wild (suc (chars p)) p s,
  Wild-segment_match_on (suc (chars p)) p s (omega arith),
)
