-- ===== src/Archlint/Uses/Imports.antt =====
-- tools/archlint/src/scan.rs: what a `use` tree imports.
use angzarr_router.Prelude.{
  String, ◌≡◌, ◌≢◌, refl, ◌↔◌, ◌⊎◌, inl, inr, none, some, List, [], ◌∷◌, ◌++◌, last, ◌==◌, eq_iff,
  Member, Member-append, append-Member, Bool-cases, if◌then◌else◌,
}
use angzarr_router.Archlint.Uses.{UseTree, UseTrees, Leaf, renamed, flatten_use, flatten_uses}

-- The imports of a tree that stands behind these segments: by Rust's rules, a `self` names the segments
-- themselves, a glob has no name, and `as _` none either.
mutual
  pub data Imports : UseTree → List String → Leaf → Type 0 where
    below :
        (ident : String) (tree : UseTree) (prefix : List String) (leaf : Leaf)
        → Imports tree (prefix ++ ident ∷ []) leaf
        → Imports (UseTree.path ident tree) prefix leaf
    itself :
        (prefix : List String) (ident : String)
        → ident ≡ "self"
        → Imports (UseTree.name ident) prefix (prefix, last prefix)
    named :
        (prefix : List String) (ident : String)
        → ident ≢ "self"
        → Imports (UseTree.name ident) prefix (prefix ++ ident ∷ [], some ident)
    itself_as :
        (prefix : List String) (ident r : String)
        → ident ≡ "self"
        → Imports (UseTree.rename ident r) prefix (prefix, renamed r)
    named_as :
        (prefix : List String) (ident r : String)
        → ident ≢ "self"
        → Imports (UseTree.rename ident r) prefix (prefix ++ ident ∷ [], renamed r)
    whole : (prefix : List String) → Imports UseTree.glob prefix (prefix, none)
    within :
        (trees : UseTrees) (prefix : List String) (leaf : Leaf)
        → ImportsOne trees prefix leaf
        → Imports (UseTree.group trees) prefix leaf

  pub data ImportsOne : UseTrees → List String → Leaf → Type 0 where
    here :
        (tree : UseTree) (trees : UseTrees) (prefix : List String) (leaf : Leaf)
        → Imports tree prefix leaf
        → ImportsOne (UseTrees.item tree trees) prefix leaf
    later :
        (tree : UseTree) (trees : UseTrees) (prefix : List String) (leaf : Leaf)
        → ImportsOne trees prefix leaf
        → ImportsOne (UseTrees.item tree trees) prefix leaf

-- A leaf that stands among these, or is the one put behind them.
put_behind :
    (leaf x : Leaf) (out : List Leaf) → Member leaf (out ++ x ∷ []) → Member leaf out ⊎ (leaf ≡ x)
put_behind leaf x out m = elim (append-Member leaf out (x ∷ []) m) [
  | inl old ↦ inl old
  | inr new ↦ elim new [ inl same ↦ inr same | inr none_left ↦ absurd none_left ]
]

kept :
    (leaf x : Leaf) (out : List Leaf) → Member leaf out ⊎ (leaf ≡ x) → Member leaf (out ++ x ∷ [])
kept leaf x out (inl m) = Member-append leaf out (x ∷ []) (inl m)
kept leaf x out (inr same) = Member-append leaf out (x ∷ []) (inr (inl same))

mutual
  unfolding flatten_use

  flatten_use-Imports :
      (tree : UseTree) (prefix : List String) (out : List Leaf) (leaf : Leaf)
      → Member leaf (flatten_use tree prefix out)
      → Member leaf out ⊎ Imports tree prefix leaf
  flatten_use-Imports (UseTree.path ident tree) prefix out leaf m =
      elim (flatten_use-Imports tree (prefix ++ ident ∷ []) out leaf m) [
        | inl old ↦ inl old
        | inr new ↦ inr (Imports.below ident tree prefix leaf new)
      ]
  flatten_use-Imports (UseTree.name ident) prefix out leaf m = elim (Bool-cases (ident == "self")) [
    | inl is_self ↦
        elim (put_behind leaf (prefix, last prefix) out (rw (is_self, flatten_use) at m)) [
          | inl old ↦ inl old
          | inr same ↦ inr (rw same (Imports.itself prefix ident ((eq_iff ident "self").0 is_self)))
        ]
    | inr other ↦
        elim (put_behind leaf (prefix ++ ident ∷ [], some ident) out
          (rw (other, flatten_use) at m)) [
            | inl old ↦ inl old
            | inr same ↦ inr (
                rw same
                  (Imports.named prefix ident (λ e. let eq = (eq_iff ident "self").1 e in cc)))
          ]
  ]
  flatten_use-Imports (UseTree.rename ident r) prefix out leaf m =
      elim (Bool-cases (ident == "self")) [
        | inl is_self ↦
            elim (put_behind leaf (prefix, renamed r) out (rw (is_self, flatten_use) at m)) [
              | inl old ↦ inl old
              | inr same ↦
                  inr (rw same (Imports.itself_as prefix ident r ((eq_iff ident "self").0 is_self)))
            ]
        | inr other ↦
            elim (put_behind leaf (prefix ++ ident ∷ [], renamed r) out
              (rw (other, flatten_use) at m)) [
                | inl old ↦ inl old
                | inr same ↦ inr (
                    rw same (
                      Imports.named_as prefix ident r
                        (λ e. let eq = (eq_iff ident "self").1 e in cc)))
              ]
      ]
  flatten_use-Imports UseTree.glob prefix out leaf m = elim (put_behind leaf (prefix, none) out m) [
    | inl old ↦ inl old
    | inr same ↦ inr (rw same (Imports.whole prefix))
  ]
  flatten_use-Imports (UseTree.group trees) prefix out leaf m =
      elim (flatten_uses-ImportsOne trees prefix out leaf m) [
        | inl old ↦ inl old
        | inr new ↦ inr (Imports.within trees prefix leaf new)
      ]

  flatten_uses-ImportsOne :
      (trees : UseTrees) (prefix : List String) (out : List Leaf) (leaf : Leaf)
      → Member leaf (flatten_uses trees prefix out)
      → Member leaf out ⊎ ImportsOne trees prefix leaf
  flatten_uses-ImportsOne UseTrees.end prefix out leaf m = inl m
  flatten_uses-ImportsOne (UseTrees.item tree trees) prefix out leaf m =
      elim (flatten_uses-ImportsOne trees prefix (flatten_use tree prefix out) leaf m) [
        | inr new ↦ inr (ImportsOne.later tree trees prefix leaf new)
        | inl before ↦ elim (flatten_use-Imports tree prefix out leaf before) [
          | inl old ↦ inl old
          | inr new ↦ inr (ImportsOne.here tree trees prefix leaf new)
        ]
      ]

mutual
  unfolding flatten_use

  flatten_use_keeps :
      (tree : UseTree) (prefix : List String) (out : List Leaf) (leaf : Leaf)
      → Member leaf out
      → Member leaf (flatten_use tree prefix out)
  flatten_use_keeps (UseTree.path ident tree) prefix out leaf m =
      flatten_use_keeps tree (prefix ++ ident ∷ []) out leaf m
  flatten_use_keeps (UseTree.name ident) prefix out leaf m = elim (Bool-cases (ident == "self")) [
    | inl is_self ↦ rw (is_self, flatten_use) (kept leaf (prefix, last prefix) out (inl m))
    | inr other ↦ rw (other, flatten_use) (kept leaf (prefix ++ ident ∷ [], some ident) out (inl m))
  ]
  flatten_use_keeps (UseTree.rename ident r) prefix out leaf m =
      kept leaf (if ident == "self" then prefix else prefix ++ ident ∷ [], renamed r) out (inl m)
  flatten_use_keeps UseTree.glob prefix out leaf m = kept leaf (prefix, none) out (inl m)
  flatten_use_keeps (UseTree.group trees) prefix out leaf m =
      flatten_uses_keeps trees prefix out leaf m

  flatten_uses_keeps :
      (trees : UseTrees) (prefix : List String) (out : List Leaf) (leaf : Leaf)
      → Member leaf out
      → Member leaf (flatten_uses trees prefix out)
  flatten_uses_keeps UseTrees.end prefix out leaf m = m
  flatten_uses_keeps (UseTrees.item tree trees) prefix out leaf m =
      flatten_uses_keeps trees prefix (flatten_use tree prefix out) leaf
        (flatten_use_keeps tree prefix out leaf m)

mutual
  unfolding flatten_use

  Imports-flatten_use :
      (tree : UseTree) (prefix : List String) (out : List Leaf) (leaf : Leaf)
      → Imports tree prefix leaf
      → Member leaf (flatten_use tree prefix out)
  Imports-flatten_use _ _ out _ (Imports.below ident tree prefix leaf i) =
      Imports-flatten_use tree (prefix ++ ident ∷ []) out leaf i
  Imports-flatten_use _ _ out _ (Imports.itself prefix ident is) =
      let is_self = (eq_iff ident "self").1 is in
      rw (is_self, flatten_use) (kept (prefix, last prefix) (prefix, last prefix) out (inr refl))
  Imports-flatten_use _ _ out _ (Imports.named prefix ident ne) =
      elim (Bool-cases (ident == "self")) [
        | inl is_self ↦ absurd (ne ((eq_iff ident "self").0 is_self))
        | inr other ↦
            rw (other, flatten_use)
              (kept (prefix ++ ident ∷ [], some ident) (prefix ++ ident ∷ [], some ident) out
                (inr refl))
      ]
  Imports-flatten_use _ _ out _ (Imports.itself_as prefix ident r is) =
      let is_self = (eq_iff ident "self").1 is in
      rw (is_self, flatten_use) (kept (prefix, renamed r) (prefix, renamed r) out (inr refl))
  Imports-flatten_use _ _ out _ (Imports.named_as prefix ident r ne) =
      elim (Bool-cases (ident == "self")) [
        | inl is_self ↦ absurd (ne ((eq_iff ident "self").0 is_self))
        | inr other ↦
            rw (other, flatten_use)
              (kept (prefix ++ ident ∷ [], renamed r) (prefix ++ ident ∷ [], renamed r) out
                (inr refl))
      ]
  Imports-flatten_use _ _ out _ (Imports.whole prefix) =
      kept (prefix, none) (prefix, none) out (inr refl)
  Imports-flatten_use _ _ out _ (Imports.within trees prefix leaf i) =
      ImportsOne-flatten_uses trees prefix out leaf i

  ImportsOne-flatten_uses :
      (trees : UseTrees) (prefix : List String) (out : List Leaf) (leaf : Leaf)
      → ImportsOne trees prefix leaf
      → Member leaf (flatten_uses trees prefix out)
  ImportsOne-flatten_uses _ _ out _ (ImportsOne.here tree trees prefix leaf i) =
      flatten_uses_keeps trees prefix (flatten_use tree prefix out) leaf
        (Imports-flatten_use tree prefix out leaf i)
  ImportsOne-flatten_uses _ _ out _ (ImportsOne.later tree trees prefix leaf i) =
      ImportsOne-flatten_uses trees prefix (flatten_use tree prefix out) leaf i

-- The leaves of a `use` item are exactly its imports.
pub flatten_use_iff :
    (tree : UseTree) (leaf : Leaf) → Member leaf (flatten_use tree [] []) ↔ Imports tree [] leaf
flatten_use_iff tree leaf = (
  λ m. elim (flatten_use-Imports tree [] [] leaf m) [ inl old ↦ absurd old | inr i ↦ i ],
  Imports-flatten_use tree [] [] leaf,
)
