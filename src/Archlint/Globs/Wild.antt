-- ===== src/Archlint/Globs/Wild.antt =====
-- tools/archlint/src/rules.rs: what it means for a segment, and for a path, to match a pattern, with no
-- search order in it.
use Prim.Native.Char.{Char, code}
use Prim.Native.String.{◌∷◌ as char_cons, ◌++◌ as append}
use text.Mathlib.Text.{◌==◌}
use text.Mathlib.TextLemmas.{nil-append, cons-append}
use angzarr_router.Prelude.{
  String, ◌≡◌, refl, ap, sym, ◌∙◌, ◌↔◌, true, false, List, [], ◌∷◌, ◌++◌, nat_eq,
}
use angzarr_router.Archlint.Texts.{Without}

-- A '*' matches any run of chars, and any other char itself.
abbrev pub WildMatches : String → String → Type 0
WildMatches String.[] s = s ≡ ""
WildMatches (String.◌∷◌ c p) s = elim (nat_eq (code c) b'*') [
  | true ↦ (u : String) × (v : String) × (s ≡ append u v) × WildMatches p v
  | false ↦ (t : String) × (s ≡ char_cons c t) × WildMatches p t
]

-- A `**` matches any run of segments, and any other pattern one segment.
abbrev pub PathMatches : List String → List String → Type 0
PathMatches [] path = path ≡ []
PathMatches (seg ∷ rest) path = elim (seg == "**") [
  | true ↦ (xs : List String) × (ys : List String) × (path ≡ xs ++ ys) × PathMatches rest ys
  | false ↦
      (head : String) × (tail : List String) × (path ≡ head ∷ tail)
      × WildMatches seg head
      × PathMatches rest tail
]

-- A star at the front.
pub Wild-star :
    (c : Char) (p s : String)
    → nat_eq (code c) b'*' ≡ true
    → WildMatches (char_cons c p) s
      ↔ ((u : String) × (v : String) × (s ≡ append u v) × WildMatches p v)
Wild-star c p s star = rw (star, WildMatches) (λ h. h, λ h. h)

pub Wild-char :
    (c : Char) (p s : String)
    → nat_eq (code c) b'*' ≡ false
    → WildMatches (char_cons c p) s ↔ ((t : String) × (s ≡ char_cons c t) × WildMatches p t)
Wild-char c p s plain = rw (plain, WildMatches) (λ h. h, λ h. h)

-- A prefix without a star matches itself.
pub Wild-prefix :
    (prefix q s : String)
    → Without b'*' prefix
    → WildMatches (append prefix q) s
    → (t : String) × (s ≡ append prefix t) × WildMatches q t
Wild-prefix String.[] q s clean h = (s, sym (nil-append s), rw (nil-append q) at h)
Wild-prefix (String.◌∷◌ c p) q s (plain, clean) h =
    let (t, split, below) = (Wild-char c (append p q) s plain).0 (rw (cons-append c p q) at h) in
    let (u, inner, matched) = Wild-prefix p q t clean below in
    (u, split ∙ ap (char_cons c) inner ∙ sym (cons-append c p u), matched)

pub prefix-Wild :
    (prefix q t : String)
    → Without b'*' prefix
    → WildMatches q t
    → WildMatches (append prefix q) (append prefix t)
prefix-Wild String.[] q t clean h = rw (nil-append, nil-append) h
prefix-Wild (String.◌∷◌ c p) q t (plain, clean) h =
    rw (cons-append, cons-append)
      ((Wild-char c (append p q) (char_cons c (append p t)) plain).1
        (append p t, refl, prefix-Wild p q t clean h))
