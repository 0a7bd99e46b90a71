-- ===== src/Archlint/FilePaths.antt =====
-- tools/archlint/src/scan.rs: paths on disk. What the source uses of `std::path`, on the components of a
-- path, and the lexical normalisation.
pub mod Normal
use Prim.Native.String.{String, ◌++◌ as append}
use text.Mathlib.Text.{◌==◌}
use angzarr_router.Prelude.{
  ℕ, Bool, true, false, Option, none, some, List, [], ◌∷◌, ◌++◌, unwrap_or, if◌then◌else◌, first,
  is_empty,
}
use angzarr_router.Archlint.Model.{Component, FilePath}
use angzarr_router.Archlint.Globs.{pieces}

-- The components of a text that stands behind another component: a `.` and an empty piece are none.
abbrev inner_components : List String → FilePath
inner_components [] = []
inner_components (piece ∷ rest) =
    let others = inner_components rest in
    if piece == ""
    then others
    else if piece == "."
    then others
    else if piece == ".."
    then Component.parent_dir ∷ others
    else Component.normal piece ∷ others

-- The components of a text: a leading `/` is the root, and a leading `.` stays.
abbrev first_component : List String → FilePath
first_component [] = []
first_component (piece ∷ []) =
    if piece == "." then Component.cur_dir ∷ [] else inner_components (piece ∷ [])
first_component (piece ∷ next ∷ rest) =
    if piece == ""
    then Component.root_dir ∷ inner_components (next ∷ rest)
    else if piece == "."
    then Component.cur_dir ∷ inner_components (next ∷ rest)
    else inner_components (piece ∷ next ∷ rest)

unfoldable pub components : String → FilePath
unfolding pieces
components text = first_component (pieces "/" 0 text)

-- `Path::join`, and `Path::parent` with a missing parent as the empty path (`parent_dir`).
unfoldable pub join_path : FilePath → FilePath → FilePath
join_path [] path = path
join_path dir (Component.root_dir ∷ rest) = Component.root_dir ∷ rest
join_path dir (Component.cur_dir ∷ rest) = dir ++ rest
join_path dir other = dir ++ other

unfoldable pub without_last : FilePath → FilePath
without_last [] = []
without_last (c ∷ []) = []
without_last (c ∷ d ∷ rest) = c ∷ without_last (d ∷ rest)

unfoldable pub parent_dir : FilePath → FilePath
unfolding without_last
parent_dir path = without_last path

-- `PathBuf::pop` and `PathBuf::push` of one component, as `normalise` uses them: the root has no parent.
unfoldable pub pop : FilePath → FilePath
pop [] = []
pop (Component.root_dir ∷ []) = Component.root_dir ∷ []
pop (c ∷ []) = []
pop (c ∷ d ∷ rest) = c ∷ pop (d ∷ rest)

unfoldable pub push : FilePath → Component → FilePath
push out Component.root_dir = Component.root_dir ∷ []
push out c = out ++ c ∷ []

-- The loop of `normalise`.
unfoldable pub normalise_onto : FilePath → FilePath → FilePath
unfolding pop push
normalise_onto out [] = out
normalise_onto out (Component.cur_dir ∷ rest) = normalise_onto out rest
normalise_onto out (Component.parent_dir ∷ rest) = normalise_onto (pop out) rest
normalise_onto out (Component.root_dir ∷ rest) = normalise_onto (push out Component.root_dir) rest
normalise_onto out (Component.normal name ∷ rest) =
    normalise_onto (push out (Component.normal name)) rest

-- `normalise`.
unfoldable pub normalise : FilePath → FilePath
normalise path = normalise_onto [] path

abbrev same_component : Component → Component → Bool
same_component Component.root_dir Component.root_dir = true
same_component Component.cur_dir Component.cur_dir = true
same_component Component.parent_dir Component.parent_dir = true
same_component (Component.normal x) (Component.normal y) = x == y
same_component _ _ = false

-- `Path::strip_prefix`, the prefix first.
unfoldable pub strip_root : FilePath → FilePath → Option FilePath
strip_root [] path = some path
strip_root (c ∷ root) [] = none
strip_root (c ∷ root) (d ∷ path) = if same_component c d then strip_root root path else none

-- `Scanner::relative`, over the root of the workspace.
unfoldable pub relative : FilePath → FilePath → FilePath
unfolding normalise strip_root
relative workspace_root path =
    let normal = normalise path in unwrap_or (strip_root workspace_root normal) normal

abbrev component_text : Component → String
component_text Component.root_dir = "/"
component_text Component.cur_dir = "."
component_text Component.parent_dir = ".."
component_text (Component.normal name) = name

abbrev joined_text : FilePath → String
joined_text [] = ""
joined_text (c ∷ []) = component_text c
joined_text (c ∷ d ∷ rest) = append (component_text c) (append "/" (joined_text (d ∷ rest)))

-- `Path::display`.
unfoldable pub display_path : FilePath → String
display_path (Component.root_dir ∷ rest) = append "/" (joined_text rest)
display_path path = joined_text path
