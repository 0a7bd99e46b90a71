-- ===== src/Archlint/Scanner/Registering.antt =====
-- tools/archlint/src/scan.rs: `Scanner::register`, on the table of modules.
use angzarr_router.Prelude.{
  String, ◌≡◌, refl, ap, subst, ◌∙◌, ◌⊎◌, inl, inr, true, Option, none, some, List, Dict, lookup,
  insert_ordered, contains, arith, Bool-cases, Option-cases, eq_iff, ◌==◌,
}
use angzarr_router.Archlint.Scanner.{
  ModuleInfo, Ctx, Scanner, insert_name, rsplit_once, own_info, own_entry, add_child, register,
}
use angzarr_router.Archlint.Resolving.{parent_of, child_of}
use angzarr_router.Archlint.Scanner.Closed.{
  Registered, Grows, Closed, Placed, Kept, insert-Registered, insert-Grows, insert-Closed,
}
use angzarr_router.Archlint.Scanner.Names.{rsplit_once-eq-some}

-- A module's own entry.
module _ (modules : Dict ModuleInfo) (root : String) (ctx : Ctx) where
  old_child :
      Closed modules
      → (c : String) → contains c (own_info modules root ctx).children ≡ true
      → Registered modules (child_of ctx.module_name c)
  old_child closed c m = elim (Option-cases (lookup ctx.module_name modules)) [
    | inl fresh ↦ absurd (ground arith)
    | inr (info, found) ↦ (closed.sound ctx.module_name info found).children c (ground arith)
  ]

  Placed-root : Placed modules root ctx.module_name → Registered (own_entry modules root ctx) root
  Placed-root (inl same) =
      subst (Registered (own_entry modules root ctx)) same
        (insert-Registered modules ctx.module_name (own_info modules root ctx))
  Placed-root (inr (parent, c, split, above, there)) =
      insert-Grows modules ctx.module_name (own_info modules root ctx) root there

  Placed-parent :
      Placed modules root ctx.module_name
      → Registered (own_entry modules root ctx) (parent_of ctx.module_name root)
  unfolding parent_of
  Placed-parent placed = elim (Bool-cases (ctx.module_name == root)) [
    | inl same ↦ rw same (Placed-root placed)
    | inr other ↦ elim placed [
      | inl same ↦ absurd (ground (arith, eq_iff ctx.module_name root))
      | inr (parent, c, split, above, there) ↦
          rw (other, split)
            (insert-Grows modules ctx.module_name (own_info modules root ctx) parent above)
    ]
  ]

  own_entry-Closed :
      Closed modules → Placed modules root ctx.module_name → Closed (own_entry modules root ctx)
  own_entry-Closed closed placed =
      insert-Closed modules ctx.module_name (own_info modules root ctx) closed (record {
        root = Placed-root placed;
        parent = Placed-parent placed;
        children = λ c m.
            insert-Grows modules ctx.module_name (own_info modules root ctx)
              (child_of ctx.module_name c) (old_child closed c m);
      })

contains-insert_name :
    (n c : String) (names : List String)
    → contains c (insert_name n names) ≡ true
    → (n ≡ c) ⊎ (contains c names ≡ true)
contains-insert_name n c names h = elim (Bool-cases (contains n names)) [
  | inl there ↦ inr (ground arith)
  | inr fresh ↦ elim (Bool-cases (n == c)) [
    | inl same ↦ inl ((eq_iff n c).0 same)
    | inr other ↦ inr (ground arith)
  ]
]

-- The parent's entry.
add_child-Grows :
    (modules : Dict ModuleInfo) (split : Option (String × String))
    → Grows modules (add_child split modules)
add_child-Grows modules none n there = there
add_child-Grows modules (some (parent, c)) n there = elim (Option-cases (lookup parent modules)) [
  | inl missing ↦ rw (missing, add_child) there
  | inr (p, found) ↦
      rw (found, add_child)
        (insert-Grows modules parent (record p { children = insert_name c p.children }) n there)
]

module _ (modules : Dict ModuleInfo) (name : String) where
  add_child-Closed :
      (split : Option (String × String))
      → rsplit_once name ≡ split
      → Closed modules
      → Registered modules name
      → Closed (add_child split modules)
  add_child-Closed none at closed here = closed
  add_child-Closed (some (parent, c)) at closed here = elim (Option-cases (lookup parent modules)) [
    | inl missing ↦ rw (missing, add_child) closed
    | inr (p, found) ↦
        let grown = record p { children = insert_name c p.children } in
        let sound = closed.sound parent p found in
        let more = insert-Grows modules parent grown in
        rw (found, add_child)
          (insert-Closed modules parent grown closed (record {
            root = more p.root sound.root;
            parent = more (parent_of parent p.root) sound.parent;
            children = λ d m. elim (contains-insert_name c d p.children m) [
              | inl same ↦
                  subst (Registered (insert_ordered parent grown modules))
                    (rsplit_once-eq-some name parent c at ∙ ap (child_of parent) same)
                    (more name here)
              | inr old ↦ more (child_of parent d) (sound.children d old)
            ];
          }))
  ]

-- `register` keeps the table closed when the module has its place, and enters it.
module _ (sc : Scanner) (root : String) (ctx : Ctx) where
  pub register-Registered : Registered (register sc root ctx).modules ctx.module_name
  unfolding register
  register-Registered =
      add_child-Grows (own_entry sc.modules root ctx) (rsplit_once ctx.module_name) ctx.module_name
        (insert-Registered sc.modules ctx.module_name (own_info sc.modules root ctx))

  pub register-Kept :
      Closed sc.modules
      → Placed sc.modules root ctx.module_name
      → Kept sc.modules (register sc root ctx).modules
  unfolding register
  register-Kept closed placed =
      let own = own_info sc.modules root ctx in
      let split = rsplit_once ctx.module_name in
      let entries = own_entry sc.modules root ctx in
      record {
        grows = λ n there.
            add_child-Grows entries split n (insert-Grows sc.modules ctx.module_name own n there);
        closed =
            add_child-Closed entries ctx.module_name split refl
              (own_entry-Closed sc.modules root ctx closed placed)
              (insert-Registered sc.modules ctx.module_name own);
      }
