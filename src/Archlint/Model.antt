-- ===== src/Archlint/Model.antt =====
-- tools/archlint/src/model.rs: the dependency model that rules are checked against.
use Prim.Native.String.{String}
use angzarr_router.Prelude.{ℕ, Bool, List, Dict, contains, is_some, unwrap_or, first, ◌||◌}
use angzarr_router.Archlint.Texts.{strip_prefix}
use angzarr_router.Archlint.Globs.{pieces}

-- `std::path::Component`, but for the prefixes of Windows; a path is its components.
pub data Component : Type 0 where
  root_dir : Component
  cur_dir : Component
  parent_dir : Component
  normal : String → Component

abbrev pub FilePath : Type 0
FilePath = List Component

-- `Scope`.
pub data Scope : Type 0 where
  lib : Scope
  test : Scope

-- `Edge`.
pub record Edge : Type 0 where
  pub from : String
  pub to : String
  pub scope : Scope
  pub file : FilePath
  pub line : ℕ
  pub via : String

-- `Model`.
pub record Model : Type 0 where
  pub modules : Dict FilePath
  pub workspace_crates : List String
  pub edges : List Edge

-- `Model::is_internal`.
unfoldable pub is_internal : Model → String → Bool
unfolding strip_prefix pieces
is_internal model target =
    is_some (strip_prefix "path:" target)
    || contains (unwrap_or (first (pieces "::" 0 target)) "") model.workspace_crates
