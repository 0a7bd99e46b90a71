-- ===== src/Archlint/Workspace/Edges.antt =====
-- tools/archlint/src/workspace.rs: the edges of the model that `build_model` builds.
use angzarr_router.Prelude.{ℕ, ◌≡◌, ◌≢◌, ap, sym, ◌∙◌, ◌⊎◌, inl, inr, some, ok, Member, lookup}
use angzarr_router.Archlint.Model.{Edge}
use angzarr_router.Archlint.Syntax.{Sources}
use angzarr_router.Archlint.Scanner.{RawRef, Scanner}
use angzarr_router.Archlint.Walking.Keeping.{PlainNames}
use angzarr_router.Archlint.Resolving.Walks.{Landed}
use angzarr_router.Archlint.Resolving.Landing.{Sayable, resolve-Landed}
use angzarr_router.Archlint.Finishing.{root_of, target_of, finish}
use angzarr_router.Archlint.Finishing.Edges.{finish_edges_iff}
use angzarr_router.Archlint.Workspace.{Metadata, scan_packages}
use angzarr_router.Archlint.Workspace.Tables.{scan_packages-Closed}

-- A reference that the edge stands for: from the reference's module to another, where it lands.
pub record Crosses (sc : Scanner) (e : Edge) (r : RawRef) : Type 0 where
  pub written : Member r sc.refs
  pub from : e.from ≡ r.module_name
  pub other : e.from ≢ e.to
  pub lands :
      Landed sc (Sayable sc (root_of (lookup r.module_name sc.modules)) r.segs r.leading_colon) e.to

module _ ⦃sources : Sources⦄ (plain : PlainNames sources) (fuel : ℕ) where
  -- Where the parser gives modules names without a ':', and the scan of the packages answers a scanner,
  -- each edge of the finished model was recorded as it stands, for a manifest or an include, or stands for
  -- a written reference: from its module to another scanned module, or to a path behind the name of a
  -- crate that was not scanned, which is a dependency or a workspace crate of some module or the first
  -- segment behind a leading `::`.
  pub scan_packages-edges :
      (meta : Metadata) (sc : Scanner) (e : Edge)
      → scan_packages fuel meta ≡ some (ok sc)
      → Member e (finish sc).0.edges
      → Member e sc.edges ⊎ ((r : RawRef) × Crosses sc e r)
  unfolding target_of
  scan_packages-edges meta sc e went m = elim ((finish_edges_iff sc e).0 m) [
    | inl recorded ↦ inl recorded
    | inr (r, n, by) ↦
        let from : e.from ≡ r.module_name = ap (λ x. x.from) by.edge in
        inr (
          r,
          record {
            written = n;
            from = from;
            other = λ own. by.other (sym own ∙ from);
            lands =
                resolve-Landed sc (scan_packages-Closed plain fuel meta sc went)
                  (root_of (lookup r.module_name sc.modules)) r.module_name r.segs r.leading_colon
                  e.to by.names;
          },
        )
  ]
