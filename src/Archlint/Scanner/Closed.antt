-- ===== src/Archlint/Scanner/Closed.antt =====
-- tools/archlint/src/scan.rs: the tables of modules that the scanner keeps, and what a module's entry
-- promises.
use angzarr_router.Prelude.{
  String, ◌≡◌, sym, ◌⊎◌, inl, inr, true, some, Dict, lookup, lookup-insert_ordered, insert_ordered,
  contains, is_some, arith, Bool-cases, eq_iff, ◌==◌,
}
use angzarr_router.Archlint.Scanner.{ModuleInfo, rsplit_once}
use angzarr_router.Archlint.Resolving.{parent_of, child_of}

abbrev pub Registered : Dict ModuleInfo → String → Type 0
Registered modules name = is_some (lookup name modules) ≡ true

-- What is registered stays registered.
abbrev pub Grows : Dict ModuleInfo → Dict ModuleInfo → Type 0
Grows before after = (name : String) → Registered before name → Registered after name

-- What an entry promises: its root, its parent and its children are in the table.
pub record Sound (modules : Dict ModuleInfo) (name : String) (info : ModuleInfo) : Type 0 where
  pub root : Registered modules info.root
  pub parent : Registered modules (parent_of name info.root)
  pub children :
      (c : String) → contains c info.children ≡ true → Registered modules (child_of name c)

pub record Closed (modules : Dict ModuleInfo) : Type 0 where
  pub sound :
      (name : String) (info : ModuleInfo)
      → lookup name modules ≡ some info
      → Sound modules name info

-- Where a module may enter: as its own root, or behind a parent and a root that are there.
abbrev pub Placed : Dict ModuleInfo → String → String → Type 0
Placed modules root name =
    (name ≡ root)
    ⊎ ((parent c : String) × (rsplit_once name ≡ some (parent, c))
        × Registered modules parent
        × Registered modules root)

Sound-Grows :
    (before after : Dict ModuleInfo) (name : String) (info : ModuleInfo)
    → Grows before after
    → Sound before name info
    → Sound after name info
Sound-Grows before after name info grows s = record {
  root = grows info.root s.root;
  parent = grows (parent_of name info.root) s.parent;
  children = λ c m. grows (child_of name c) (s.children c m);
}

module _ (modules : Dict ModuleInfo) (k : String) (v : ModuleInfo) where
  pub insert-Registered : Registered (insert_ordered k v modules) k
  insert-Registered = ground (arith, lookup-insert_ordered k k v modules, eq_iff k k)

  pub insert-Grows : Grows modules (insert_ordered k v modules)
  insert-Grows name there = ground (arith, lookup-insert_ordered k name v modules)

  pub insert-Closed :
      Closed modules → Sound (insert_ordered k v modules) k v → Closed (insert_ordered k v modules)
  insert-Closed closed fresh = record {
    sound = λ name info found.
        let at = lookup-insert_ordered k name v modules in
        elim (Bool-cases (k == name)) [
          | inl same ↦
              let equal = (eq_iff k name).0 same in
              let is : v ≡ info = ground arith in rw (sym equal, sym is) fresh
          | inr other ↦
              Sound-Grows modules (insert_ordered k v modules) name info insert-Grows
                (closed.sound name info (ground arith))
        ];
  }

-- A change of the table that keeps it closed and drops nothing.
pub record Kept (before after : Dict ModuleInfo) : Type 0 where
  pub grows : Grows before after
  pub closed : Closed after

pub Kept-refl : (modules : Dict ModuleInfo) → Closed modules → Kept modules modules
Kept-refl modules closed = record { grows = λ n there. there; closed = closed }

pub Kept-trans : (a b c : Dict ModuleInfo) → Kept a b → Kept b c → Kept a c
Kept-trans a b c one two = record {
  grows = λ n there. two.grows n (one.grows n there);
  closed = two.closed;
}
