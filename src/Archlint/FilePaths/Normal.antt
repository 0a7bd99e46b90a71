-- ===== src/Archlint/FilePaths/Normal.antt =====
-- tools/archlint/src/scan.rs: the paths that `normalise` answers.
use angzarr_router.Prelude.{◌≡◌, refl, sym, ◌∙◌, [], ◌∷◌, ◌++◌, append_assoc, append-nil}
use angzarr_router.Archlint.Model.{Component, FilePath}
use angzarr_router.Archlint.FilePaths.{pop, push, normalise_onto, normalise}

-- Names only.
abbrev pub AllNames : FilePath → Type 0
AllNames [] = Unit
AllNames (Component.normal name ∷ rest) = AllNames rest
AllNames (_ ∷ rest) = ⊥

-- Names only, but for a root in front.
abbrev pub IsNormal : FilePath → Type 0
IsNormal (Component.root_dir ∷ rest) = AllNames rest
IsNormal path = AllNames path

AllNames-pop : (out : FilePath) → AllNames out → AllNames (pop out)
unfolding pop
AllNames-pop [] h = tt
AllNames-pop (Component.normal name ∷ []) h = tt
AllNames-pop (Component.normal name ∷ d ∷ rest) h = AllNames-pop (d ∷ rest) h
AllNames-pop (Component.root_dir ∷ rest) h = absurd h
AllNames-pop (Component.cur_dir ∷ rest) h = absurd h
AllNames-pop (Component.parent_dir ∷ rest) h = absurd h

IsNormal-pop : (out : FilePath) → IsNormal out → IsNormal (pop out)
unfolding pop
IsNormal-pop [] h = tt
IsNormal-pop (Component.root_dir ∷ []) h = tt
IsNormal-pop (Component.root_dir ∷ d ∷ rest) h = AllNames-pop (d ∷ rest) h
IsNormal-pop (Component.normal name ∷ []) h = tt
IsNormal-pop (Component.normal name ∷ d ∷ rest) h = AllNames-pop (d ∷ rest) h
IsNormal-pop (Component.cur_dir ∷ rest) h = absurd h
IsNormal-pop (Component.parent_dir ∷ rest) h = absurd h

AllNames-append : (out rest : FilePath) → AllNames out → AllNames rest → AllNames (out ++ rest)
AllNames-append [] rest h k = k
AllNames-append (Component.normal name ∷ out) rest h k = AllNames-append out rest h k
AllNames-append (Component.root_dir ∷ out) rest h k = absurd h
AllNames-append (Component.cur_dir ∷ out) rest h k = absurd h
AllNames-append (Component.parent_dir ∷ out) rest h k = absurd h

IsNormal-append : (out rest : FilePath) → IsNormal out → AllNames rest → IsNormal (out ++ rest)
IsNormal-append [] [] h k = tt
IsNormal-append [] (Component.normal name ∷ rest) h k = k
IsNormal-append [] (Component.root_dir ∷ rest) h k = absurd k
IsNormal-append [] (Component.cur_dir ∷ rest) h k = absurd k
IsNormal-append [] (Component.parent_dir ∷ rest) h k = absurd k
IsNormal-append (Component.root_dir ∷ out) rest h k = AllNames-append out rest h k
IsNormal-append (Component.normal name ∷ out) rest h k = AllNames-append out rest h k
IsNormal-append (Component.cur_dir ∷ out) rest h k = absurd h
IsNormal-append (Component.parent_dir ∷ out) rest h k = absurd h

normalise_onto-IsNormal : (out path : FilePath) → IsNormal out → IsNormal (normalise_onto out path)
unfolding normalise_onto push
normalise_onto-IsNormal out [] h = h
normalise_onto-IsNormal out (Component.cur_dir ∷ rest) h = normalise_onto-IsNormal out rest h
normalise_onto-IsNormal out (Component.parent_dir ∷ rest) h =
    normalise_onto-IsNormal (pop out) rest (IsNormal-pop out h)
normalise_onto-IsNormal out (Component.root_dir ∷ rest) h =
    normalise_onto-IsNormal (Component.root_dir ∷ []) rest tt
normalise_onto-IsNormal out (Component.normal name ∷ rest) h =
    normalise_onto-IsNormal (out ++ Component.normal name ∷ []) rest
      (IsNormal-append out (Component.normal name ∷ []) h tt)

normalise_onto-AllNames :
    (out rest : FilePath) → AllNames rest → normalise_onto out rest ≡ out ++ rest
unfolding normalise_onto push
normalise_onto-AllNames out [] h = sym (append-nil out)
normalise_onto-AllNames out (Component.normal name ∷ rest) h =
    normalise_onto-AllNames (out ++ Component.normal name ∷ []) rest h
    ∙ append_assoc out (Component.normal name ∷ []) rest
normalise_onto-AllNames out (Component.root_dir ∷ rest) h = absurd h
normalise_onto-AllNames out (Component.cur_dir ∷ rest) h = absurd h
normalise_onto-AllNames out (Component.parent_dir ∷ rest) h = absurd h

normalise_of_IsNormal : (path : FilePath) → IsNormal path → normalise path ≡ path
unfolding normalise normalise_onto push
normalise_of_IsNormal [] h = refl
normalise_of_IsNormal (Component.root_dir ∷ rest) h =
    normalise_onto-AllNames (Component.root_dir ∷ []) rest h
normalise_of_IsNormal (Component.normal name ∷ rest) h =
    normalise_onto-AllNames (Component.normal name ∷ []) rest h
normalise_of_IsNormal (Component.cur_dir ∷ rest) h = absurd h
normalise_of_IsNormal (Component.parent_dir ∷ rest) h = absurd h

-- A normalised path holds names only, but for a root in front: no `.` and no `..`. Normalising it again
-- changes nothing.
pub normalise-IsNormal :
    (path : FilePath) → IsNormal (normalise path) × (normalise (normalise path) ≡ normalise path)
unfolding normalise
normalise-IsNormal path =
    let normal = normalise_onto-IsNormal [] path tt in
    (normal, normalise_of_IsNormal (normalise_onto [] path) normal)
