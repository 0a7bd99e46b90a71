-- ===== src/Archlint/Scanner/Names.antt =====
-- tools/archlint/src/scan.rs: the paths of modules, a parent's and a child's name joined by `::`.
use Prim.Native.String.{◌∷◌ as char_cons, ◌++◌ as append}
use text.Mathlib.TextLemmas.{nil-append, cons-append}
use angzarr_router.Prelude.{
  String, ◌≡◌, refl, ap, sym, ◌∙◌, inl, inr, none, some, arith, Option-cases,
}
use angzarr_router.Archlint.Texts.{strip_prefix, strip_prefix-eq-some, Without}
use angzarr_router.Archlint.Scanner.{rsplit_once}
use angzarr_router.Archlint.Resolving.{child_of}

-- The parent and the name that a module path is made of.
pub rsplit_once-eq-some :
    (s before after : String) → rsplit_once s ≡ some (before, after) → s ≡ child_of before after
unfolding rsplit_once
rsplit_once-eq-some String.[] before after h = absurd (ground arith)
rsplit_once-eq-some (String.◌∷◌ c s) before after h = elim (Option-cases (rsplit_once s)) [
  | inr ((b, a), found) ↦
      let begins : char_cons c b ≡ before = ground arith in
      let rest : a ≡ after = ground arith in
      rw (← begins, ← rest)
        (ap (char_cons c) (rsplit_once-eq-some s b a found) ∙ sym (cons-append c b (append "::" a)))
  | inl whole ↦ elim (Option-cases (strip_prefix "::" (char_cons c s))) [
    | inl inside ↦ absurd (ground arith)
    | inr (a, here) ↦
        let begins : "" ≡ before = ground arith in
        let rest : a ≡ after = ground arith in
        rw (← begins, ← rest)
          (strip_prefix-eq-some "::" (char_cons c s) a here ∙ sym (nil-append (append "::" a)))
  ]
]

rsplit_once-Without : (name : String) → Without b':' name → rsplit_once name ≡ none
unfolding rsplit_once strip_prefix
rsplit_once-Without String.[] plain = refl
rsplit_once-Without (String.◌∷◌ c s) (other, plain) = ground (arith, rsplit_once-Without s plain)

strip_prefix-colon : (name : String) → Without b':' name → strip_prefix ":" name ≡ none
unfolding strip_prefix
strip_prefix-colon String.[] plain = refl
strip_prefix-colon (String.◌∷◌ c s) (other, plain) = ground arith

rsplit_once-separator :
    (name : String) → Without b':' name → rsplit_once (append "::" name) ≡ some ("", name)
unfolding rsplit_once strip_prefix
rsplit_once-separator name plain =
    rw (cons-append, cons-append, nil-append)
      (rw (rsplit_once-Without name plain) (ground (arith, strip_prefix-colon name plain)))

pub rsplit_once-child_of :
    (parent name : String)
    → Without b':' name
    → rsplit_once (child_of parent name) ≡ some (parent, name)
unfolding rsplit_once
rsplit_once-child_of String.[] name plain =
    rw (nil-append (append "::" name)) (rsplit_once-separator name plain)
rsplit_once-child_of (String.◌∷◌ c s) name plain =
    rw (cons-append c s (append "::" name)) (ground (arith, rsplit_once-child_of s name plain))
