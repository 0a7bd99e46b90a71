-- ===== src/Archlint/Finishing/Edges.antt =====
-- tools/archlint/src/scan.rs: the edges of the model that `finish` makes.
use angzarr_router.Prelude.{
  String, ◌≡◌, ◌≢◌, refl, ap, sym, ◌∙◌, ◌↔◌, ◌⊎◌, inl, inr, false, some, List, [], ◌∷◌, ◌++◌,
  Member, Member-append, append-Member, arith, Bool-cases, Option-cases, eq_iff, ◌==◌,
}
use angzarr_router.Archlint.Model.{Edge}
use angzarr_router.Archlint.Scanner.{RawRef, Scanner}
use angzarr_router.Archlint.Finishing.{
  compare_edge, insert_edge, sort, dedup_behind, dedup, target_of, edge_to, ref_edges, finish,
}
use angzarr_router.Archlint.Finishing.Comparing.{edge_equal, Ordering-cases}

module _ (e : Edge) where
  insert_edge-Member :
      (n : Edge) (edges : List Edge) → Member e (insert_edge n edges) → Member e (n ∷ edges)
  unfolding insert_edge
  insert_edge-Member n [] m = m
  insert_edge-Member n (f ∷ edges) m = elim (Ordering-cases (compare_edge f n)) [
    | inl lt ↦ elim (the_rest f n edges (rw (lt, insert_edge) at m)) [
      | inl same ↦ inr (inl same)
      | inr later ↦ elim (insert_edge-Member n edges later) [ inl x ↦ inl x | inr y ↦ inr (inr y) ]
    ]
    | inr (inl eq) ↦ rw (eq, insert_edge) at m
    | inr (inr gt) ↦ rw (gt, insert_edge) at m
  ]
    where
      the_rest :
          (f n : Edge) (edges : List Edge)
          → Member e (f ∷ insert_edge n edges)
          → (e ≡ f) ⊎ Member e (insert_edge n edges)
      the_rest f n edges m = m

  Member-insert_edge :
      (n : Edge) (edges : List Edge) → Member e (n ∷ edges) → Member e (insert_edge n edges)
  unfolding insert_edge
  Member-insert_edge n [] m = m
  Member-insert_edge n (f ∷ edges) m = elim (Ordering-cases (compare_edge f n)) [
    | inl lt ↦ rw (lt, insert_edge) (behind f n edges (Member-insert_edge n edges) m)
    | inr (inl eq) ↦ rw (eq, insert_edge) m
    | inr (inr gt) ↦ rw (gt, insert_edge) m
  ]
    where
      behind :
          (f n : Edge) (edges : List Edge)
          → (Member e (n ∷ edges) → Member e (insert_edge n edges))
          → Member e (n ∷ f ∷ edges)
          → Member e (f ∷ insert_edge n edges)
      behind f n edges inserted (inl same) = inr (inserted (inl same))
      behind f n edges inserted (inr (inl same)) = inl same
      behind f n edges inserted (inr (inr m)) = inr (inserted (inr m))

  sort-Member : (edges : List Edge) → Member e (sort edges) → Member e edges
  unfolding sort
  sort-Member [] m = m
  sort-Member (f ∷ edges) m = elim (insert_edge-Member f (sort edges) m) [
    | inl same ↦ inl same
    | inr later ↦ inr (sort-Member edges later)
  ]

  Member-sort : (edges : List Edge) → Member e edges → Member e (sort edges)
  unfolding sort
  Member-sort [] m = m
  Member-sort (f ∷ edges) (inl same) = Member-insert_edge f (sort edges) (inl same)
  Member-sort (f ∷ edges) (inr m) = Member-insert_edge f (sort edges) (inr (Member-sort edges m))

  dedup_behind-Member :
      (f : Edge) (edges : List Edge) → Member e (dedup_behind f edges) → Member e edges
  unfolding dedup_behind
  dedup_behind-Member f [] m = m
  dedup_behind-Member f (g ∷ edges) m = elim (Ordering-cases (compare_edge f g)) [
    | inl lt ↦ kept g edges (dedup_behind-Member g edges) (rw (lt, dedup_behind) at m)
    | inr (inl eq) ↦ inr (dedup_behind-Member f edges (rw (eq, dedup_behind) at m))
    | inr (inr gt) ↦ kept g edges (dedup_behind-Member g edges) (rw (gt, dedup_behind) at m)
  ]
    where
      kept :
          (g : Edge) (edges : List Edge)
          → (Member e (dedup_behind g edges) → Member e edges)
          → Member e (g ∷ dedup_behind g edges)
          → Member e (g ∷ edges)
      kept g edges behind (inl same) = inl same
      kept g edges behind (inr m) = inr (behind m)

  Member-dedup_behind :
      (f : Edge) (edges : List Edge) → Member e edges → (e ≡ f) ⊎ Member e (dedup_behind f edges)
  unfolding dedup_behind
  Member-dedup_behind f [] m = inr m
  Member-dedup_behind f (g ∷ edges) m = elim (Ordering-cases (compare_edge f g)) [
    | inl lt ↦ rw (lt, dedup_behind) (inr (kept g edges (Member-dedup_behind g edges) m))
    | inr (inl eq) ↦
        rw (eq, dedup_behind) (merged f g edges (edge_equal f g eq) (Member-dedup_behind f edges) m)
    | inr (inr gt) ↦ rw (gt, dedup_behind) (inr (kept g edges (Member-dedup_behind g edges) m))
  ]
    where
      kept :
          (g : Edge) (edges : List Edge)
          → (Member e edges → (e ≡ g) ⊎ Member e (dedup_behind g edges))
          → Member e (g ∷ edges)
          → Member e (g ∷ dedup_behind g edges)
      kept g edges behind (inl same) = inl same
      kept g edges behind (inr m) = behind m

      merged :
          (f g : Edge) (edges : List Edge)
          → f ≡ g
          → (Member e edges → (e ≡ f) ⊎ Member e (dedup_behind f edges))
          → Member e (g ∷ edges)
          → (e ≡ f) ⊎ Member e (dedup_behind f edges)
      merged f g edges equal behind (inl same) = inl (same ∙ sym equal)
      merged f g edges equal behind (inr m) = behind m

  dedup-Member : (edges : List Edge) → Member e (dedup edges) → Member e edges
  unfolding dedup
  dedup-Member [] m = m
  dedup-Member (f ∷ edges) (inl same) = inl same
  dedup-Member (f ∷ edges) (inr m) = inr (dedup_behind-Member f edges m)

  Member-dedup : (edges : List Edge) → Member e edges → Member e (dedup edges)
  unfolding dedup
  Member-dedup [] m = m
  Member-dedup (f ∷ edges) (inl same) = inl same
  Member-dedup (f ∷ edges) (inr m) = Member-dedup_behind f edges m

-- An edge that a reference makes: the reference names a module or path other than its own module.
pub record MadeBy (sc : Scanner) (e : Edge) (r : RawRef) : Type 0 where
  pub names : target_of sc r ≡ some e.to
  pub other : e.to ≢ r.module_name
  pub edge : e ≡ edge_to sc r e.to

abbrev pub MadeByOne : Scanner → Edge → List RawRef → Type 0
MadeByOne sc e refs = (r : RawRef) × Member r refs × MadeBy sc e r

differ : (s t : String) → s ≢ t → (s == t) ≡ false
differ s t ne = ground (arith, ne, eq_iff s t)

module _ (sc : Scanner) (e : Edge) where
  ref_edges-MadeByOne : (refs : List RawRef) → Member e (ref_edges sc refs) → MadeByOne sc e refs
  unfolding ref_edges
  ref_edges-MadeByOne [] m = absurd m
  ref_edges-MadeByOne (r ∷ refs) m = elim (Option-cases (target_of sc r)) [
    | inl nothing ↦ later r refs (ref_edges-MadeByOne refs (rw (nothing, ref_edges) at m))
    | inr (to, names) ↦ elim (Bool-cases (to == r.module_name)) [
      | inl own ↦ later r refs (ref_edges-MadeByOne refs (rw (names, own, ref_edges) at m))
      | inr other ↦
          made r refs to names other (ref_edges-MadeByOne refs) (rw (names, other, ref_edges) at m)
    ]
  ]
    where
      later : (r : RawRef) (refs : List RawRef) → MadeByOne sc e refs → MadeByOne sc e (r ∷ refs)
      later r refs (s, m, by) = (s, inr m, by)

      made :
          (r : RawRef) (refs : List RawRef) (to : String)
          → target_of sc r ≡ some to
          → (to == r.module_name) ≡ false
          → (Member e (ref_edges sc refs) → MadeByOne sc e refs)
          → Member e (edge_to sc r to ∷ ref_edges sc refs)
          → MadeByOne sc e (r ∷ refs)
      made r refs to names other behind (inr m) = let (s, n, by) = behind m in (s, inr n, by)
      made r refs to names other behind (inl same) =
          let target : e.to ≡ to = ap (λ x. x.to) same in
          (
            r,
            inl refl,
            record {
              names = names ∙ ap some (sym target);
              other = λ own. ground (arith, eq_iff to r.module_name);
              edge = same ∙ ap (edge_to sc r) (sym target);
            },
          )

  MadeByOne-ref_edges : (refs : List RawRef) → MadeByOne sc e refs → Member e (ref_edges sc refs)
  unfolding ref_edges
  MadeByOne-ref_edges [] (r, m, by) = absurd m
  MadeByOne-ref_edges (s ∷ refs) (r, inl same, by) =
      let names : target_of sc s ≡ some e.to = rw same at by.names in
      let other : (e.to == s.module_name) ≡ false =
        differ e.to s.module_name (rw same at by.other) in
      let edge : e ≡ edge_to sc s e.to = rw same at by.edge in
      rw (names, other, ref_edges) (inl edge)
  MadeByOne-ref_edges (s ∷ refs) (r, inr m, by) =
      let behind = MadeByOne-ref_edges refs (r, m, by) in
      elim (Option-cases (target_of sc s)) [
        | inl nothing ↦ rw (nothing, ref_edges) behind
        | inr (to, names) ↦ elim (Bool-cases (to == s.module_name)) [
          | inl own ↦ rw (names, own, ref_edges) behind
          | inr other ↦ rw (names, other, ref_edges) (inr behind)
        ]
      ]

  -- The edges of the finished model are exactly the recorded ones and one for each reference that names
  -- something other than its own module: sorting and dropping repetitions lose no edge and add none.
  pub finish_edges_iff : Member e (finish sc).0.edges ↔ (Member e sc.edges ⊎ MadeByOne sc e sc.refs)
  unfolding finish
  finish_edges_iff =
      let edges = sc.edges ++ ref_edges sc sc.refs in
      (
        λ m.
            elim (append-Member e sc.edges (ref_edges sc sc.refs)
              (sort-Member e edges (dedup-Member e (sort edges) m))) [
                | inl recorded ↦ inl recorded
                | inr made ↦ inr (ref_edges-MadeByOne sc.refs made)
              ],
        λ h. Member-dedup e (sort edges) (
            Member-sort e edges (
              Member-append e sc.edges (ref_edges sc sc.refs) (elim h [
                | inl recorded ↦ inl recorded
                | inr made ↦ inr (MadeByOne-ref_edges sc.refs made)
              ]))),
      )
