-- ===== src/Archlint/Texts.antt =====
-- What tools/archlint uses of Rust's `str`: prefixes, suffixes and splits.
use Prim.Native.Char.{Char, code}
use Prim.Native.String.{◌∷◌ as char_cons, ◌++◌ as append}
use text.Mathlib.TextEquality.{Char-path}
use text.Mathlib.TextLemmas.{nil-append, cons-append}
use angzarr_router.Prelude.{
  ℕ, String, ◌≡◌, ap, sym, ◌∙◌, inl, inr, Bool, true, false, ◌||◌, Option, none, some, map_option,
  nat_eq, if◌then◌else◌, arith, Bool-cases, Option-cases,
}

pub same_char : (c d : Char) → nat_eq (code c) (code d) ≡ true → c ≡ d
same_char c d h = Char-path c d (ground arith)

-- `strip_prefix`, the prefix first.
unfoldable pub strip_prefix : String → String → Option String
strip_prefix String.[] s = some s
strip_prefix (String.◌∷◌ c p) String.[] = none
strip_prefix (String.◌∷◌ c p) (String.◌∷◌ d s) =
    if nat_eq (code c) (code d) then strip_prefix p s else none

-- `split_once` at a char, given by its code point.
unfoldable pub split_once : ℕ → String → Option (String × String)
split_once k String.[] = none
split_once k (String.◌∷◌ c s) =
    if nat_eq (code c) k
    then some ("", s)
    else map_option (λ found. (char_cons c found.0, found.1)) (split_once k s)

-- Whether a test holds of some suffix, the whole text and the empty one included.
unfoldable pub any_suffix : (String → Bool) → String → Bool
any_suffix test String.[] = test ""
any_suffix test (String.◌∷◌ c s) = test (char_cons c s) || any_suffix test s

pub strip_prefix-append : (p t : String) → strip_prefix p (append p t) ≡ some t
unfolding strip_prefix
strip_prefix-append String.[] t = ap some (nil-append t)
strip_prefix-append (String.◌∷◌ c p) t = rw cons-append (ground (arith, strip_prefix-append p t))

pub strip_prefix-eq-some : (p s t : String) → strip_prefix p s ≡ some t → s ≡ append p t
unfolding strip_prefix
strip_prefix-eq-some String.[] s t h = rw nil-append (ground arith)
strip_prefix-eq-some (String.◌∷◌ c p) String.[] t h = cc
strip_prefix-eq-some (String.◌∷◌ c p) (String.◌∷◌ d s) t h =
    elim (Bool-cases (nat_eq (code c) (code d))) [
      | inl same ↦
          let ih : s ≡ append p t = strip_prefix-eq-some p s t (ground arith) in
          let eq : c ≡ d = same_char c d same in rw cons-append (cc)
      | inr differ ↦ absurd (ground arith)
    ]

pub any_suffix-true :
    (test : String → Bool) (s : String)
    → any_suffix test s ≡ true
    → (u : String) × (v : String) × (s ≡ append u v) × (test v ≡ true)
unfolding any_suffix
any_suffix-true test String.[] h = ("", "", sym (nil-append ""), h)
any_suffix-true test (String.◌∷◌ c s) h = elim (Bool-cases (test (char_cons c s))) [
  | inl here ↦ ("", char_cons c s, sym (nil-append (char_cons c s)), here)
  | inr below ↦
      let (u, v, split, holds) = any_suffix-true test s (ground arith) in
      (char_cons c u, v, ap (char_cons c) split ∙ sym (cons-append c u v), holds)
]

pub any_suffix-append :
    (test : String → Bool) (u v : String) → test v ≡ true → any_suffix test (append u v) ≡ true
unfolding any_suffix
any_suffix-append test String.[] String.[] h = h
any_suffix-append test String.[] (String.◌∷◌ c v) h = rw (nil-append) (ground arith)
any_suffix-append test (String.◌∷◌ c u) v h =
    rw cons-append (ground (arith, any_suffix-append test u v h))

-- A text without a char of this code point.
abbrev pub Without : ℕ → String → Type 0
Without k String.[] = Unit
Without k (String.◌∷◌ c s) = (nat_eq (code c) k ≡ false) × Without k s

-- A text and its split at the first such char.
abbrev pub SplitAt : ℕ → String → String → String → Type 0
SplitAt k s before after =
    (c : Char) × Without k before
    × (nat_eq (code c) k ≡ true)
    × (s ≡ append before (char_cons c after))

pub split_once-eq-none : (k : ℕ) (s : String) → split_once k s ≡ none → Without k s
unfolding split_once
split_once-eq-none k String.[] h = tt
split_once-eq-none k (String.◌∷◌ c s) h = elim (Option-cases (split_once k s)) [
  | inl clean ↦ (ground arith, split_once-eq-none k s clean)
  | inr found ↦ absurd (ground arith)
]

pub split_once-eq-some :
    (k : ℕ) (s before after : String)
    → split_once k s ≡ some (before, after)
    → SplitAt k s before after
unfolding split_once
split_once-eq-some k String.[] before after h = absurd (ground arith)
split_once-eq-some k (String.◌∷◌ c s) before after h = elim (Bool-cases (nat_eq (code c) k)) [
  | inl here ↦
      let empty : "" ≡ before = ground arith in
      let rest : s ≡ after = ground arith in
      rw (← empty, ← rest) (c, tt, here, sym (nil-append (char_cons c s)))
  | inr past ↦ elim (Option-cases (split_once k s)) [
    | inl clean ↦ absurd (ground arith)
    | inr ((b, a), found) ↦
        let begins : char_cons c b ≡ before = ground arith in
        let rest : a ≡ after = ground arith in
        let (d, clean, at, split) = split_once-eq-some k s b a found in
        rw (← begins, ← rest)
          (d, (past, clean), at, ap (char_cons c) split ∙ sym (cons-append c b (char_cons d a)))
  ]
]
