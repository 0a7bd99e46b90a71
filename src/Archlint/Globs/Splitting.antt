-- ===== src/Archlint/Globs/Splitting.antt =====
-- tools/archlint/src/rules.rs: `split`, on the paths that archlint writes: segments joined by `::`.
use Prim.Native.Char.{Char, code}
use Prim.Native.String.compare
use Prim.Native.String.{◌∷◌ as char_cons, ◌++◌ as append}
use text.Mathlib.TextLemmas.{nil-append, cons-append}
use angzarr_router.Prelude.{String, ◌≡◌, refl, ap, ◌∙◌, false, none, List, [], ◌∷◌, nat_eq, arith}
use angzarr_router.Archlint.Texts.{strip_prefix, Without}
use angzarr_router.Archlint.Globs.{pieces, non_empty, split}

-- Segments without a ':'; some may be empty.
abbrev pub AllWithout : List String → Type 0
AllWithout [] = Unit
AllWithout (s ∷ segs) = Without b':' s × AllWithout segs

-- The segments that have a char.
abbrev pub filled : List String → List String
filled [] = []
filled (String.[] ∷ segs) = filled segs
filled ((String.◌∷◌ c s) ∷ segs) = char_cons c s ∷ filled segs

-- Segments joined by `::` behind a first one.
abbrev pub joined : String → List String → String
joined head [] = head
joined head (seg ∷ segs) = append head (append "::" (joined seg segs))

prefix-ne :
    (c : Char) (s : String)
    → nat_eq (code c) b':' ≡ false
    → strip_prefix "::" (char_cons c s) ≡ none
unfolding strip_prefix
prefix-ne c s h = ground arith

pieces_whole : (seg : String) → Without b':' seg → pieces "::" 0 seg ≡ seg ∷ []
unfolding pieces
pieces_whole String.[] h = refl
pieces_whole (String.◌∷◌ c s) (plain, clean) =
    ground (arith, prefix-ne c s plain, pieces_whole s clean)

pieces_at_separator : (rest : String) → pieces "::" 0 (append "::" rest) ≡ "" ∷ pieces "::" 0 rest
unfolding pieces strip_prefix
pieces_at_separator rest = rw (cons-append, cons-append, nil-append) (ground arith)

pieces_behind :
    (seg rest : String)
    → Without b':' seg
    → pieces "::" 0 (append seg (append "::" rest)) ≡ seg ∷ pieces "::" 0 rest
unfolding pieces
pieces_behind String.[] rest h = rw (nil-append (append "::" rest)) (pieces_at_separator rest)
pieces_behind (String.◌∷◌ c s) rest (plain, clean) =
    rw (cons-append c s (append "::" rest))
      (ground (arith, prefix-ne c (append s (append "::" rest)) plain, pieces_behind s rest clean))

pieces-joined :
    (head : String) (segs : List String)
    → Without b':' head
    → AllWithout segs
    → pieces "::" 0 (joined head segs) ≡ head ∷ segs
pieces-joined head [] clean all = pieces_whole head clean
pieces-joined head (seg ∷ segs) clean (inner, all) =
    pieces_behind head (joined seg segs) clean
    ∙ ap (λ ps. head ∷ ps) (pieces-joined seg segs inner all)

non_empty-eq-filled : (segs : List String) → non_empty segs ≡ filled segs
non_empty-eq-filled [] = refl
non_empty-eq-filled (String.[] ∷ segs) = non_empty-eq-filled segs
non_empty-eq-filled ((String.◌∷◌ c s) ∷ segs) =
    ground (arith, compare.cons-nil c s, non_empty-eq-filled segs)

-- Segments joined by `::` split into those of them that are not empty, in their order: a leading, a
-- trailing or a doubled separator adds none. For segments that hold no ':'.
pub split-joined :
    (head : String) (segs : List String)
    → AllWithout (head ∷ segs)
    → split (joined head segs) "::" ≡ filled (head ∷ segs)
unfolding split
split-joined head segs (clean, all) =
    ap non_empty (pieces-joined head segs clean all) ∙ non_empty-eq-filled (head ∷ segs)
