-- ===== src/Archlint/Finishing/Comparing.antt =====
-- tools/archlint/src/model.rs: the derived order of edges, under which equal edges are one.
use Prim.Native.Nat.compare as compare_nat
use Prim.Native.Nat.{Ordering, compare as compare_nat}
use text.Mathlib.TextEquality.{path_by_compare}
use angzarr_router.Prelude.{ℕ, zero, suc, ◌≡◌, refl, ap, sym, ◌∙◌, ◌⊎◌, inl, inr, [], ◌∷◌, arith}
use angzarr_router.Archlint.Model.{Component, FilePath, Scope, Edge}
use angzarr_router.Archlint.Finishing.{
  then_by, compare_component, compare_path, compare_scope, compare_edge,
}

numbers_equal : (m n : ℕ) → compare_nat m n ≡ Ordering.eq → m ≡ n
numbers_equal zero zero h = refl
numbers_equal zero (suc n) h = absurd (ground (arith, compare_nat.zero-suc n))
numbers_equal (suc m) zero h = absurd (ground (arith, compare_nat.suc-zero m))
numbers_equal (suc m) (suc n) h = ap suc (numbers_equal m n (sym (compare_nat.suc-suc m n) ∙ h))

then_by_eq : (o p : Ordering) → then_by o p ≡ Ordering.eq → (o ≡ Ordering.eq) × (p ≡ Ordering.eq)
then_by_eq Ordering.lt p h = absurd (ground arith)
then_by_eq Ordering.eq p h = (refl, h)
then_by_eq Ordering.gt p h = absurd (ground arith)

component_equal : (c d : Component) → compare_component c d ≡ Ordering.eq → c ≡ d
unfolding compare_component
component_equal Component.root_dir Component.root_dir h = refl
component_equal Component.root_dir Component.cur_dir h = cc
component_equal Component.root_dir Component.parent_dir h = cc
component_equal Component.root_dir (Component.normal y) h = cc
component_equal Component.cur_dir Component.root_dir h = cc
component_equal Component.cur_dir Component.cur_dir h = refl
component_equal Component.cur_dir Component.parent_dir h = cc
component_equal Component.cur_dir (Component.normal y) h = cc
component_equal Component.parent_dir Component.root_dir h = cc
component_equal Component.parent_dir Component.cur_dir h = cc
component_equal Component.parent_dir Component.parent_dir h = refl
component_equal Component.parent_dir (Component.normal y) h = cc
component_equal (Component.normal x) Component.root_dir h = cc
component_equal (Component.normal x) Component.cur_dir h = cc
component_equal (Component.normal x) Component.parent_dir h = cc
component_equal (Component.normal x) (Component.normal y) h =
    ap Component.normal (path_by_compare x y h)

path_equal : (p q : FilePath) → compare_path p q ≡ Ordering.eq → p ≡ q
unfolding compare_path
path_equal [] [] h = refl
path_equal [] (d ∷ q) h = cc
path_equal (c ∷ p) [] h = cc
path_equal (c ∷ p) (d ∷ q) h =
    let (one, others) = then_by_eq (compare_component c d) (compare_path p q) h in
    let same = component_equal c d one in let rest = path_equal p q others in cc

scope_equal : (s t : Scope) → compare_scope s t ≡ Ordering.eq → s ≡ t
unfolding compare_scope
scope_equal Scope.lib Scope.lib h = refl
scope_equal Scope.lib Scope.test h = cc
scope_equal Scope.test Scope.lib h = cc
scope_equal Scope.test Scope.test h = refl

pub edge_equal : (e f : Edge) → compare_edge e f ≡ Ordering.eq → e ≡ f
unfolding compare_edge
edge_equal e f h =
    let (a, h1) = then_by_eq _ _ h in
    let (b, h2) = then_by_eq _ _ h1 in
    let (c, h3) = then_by_eq _ _ h2 in
    let (d, h4) = then_by_eq _ _ h3 in
    let (l, v) = then_by_eq _ _ h4 in
    let from = path_by_compare e.from f.from a in
    let to = path_by_compare e.to f.to b in
    let scope = scope_equal e.scope f.scope c in
    let file = path_equal e.file f.file d in
    let line = numbers_equal e.line f.line l in
    let via = path_by_compare e.via f.via v in
    λ i. record {
      from = from i;
      to = to i;
      scope = scope i;
      file = file i;
      line = line i;
      via = via i;
    }

pub Ordering-cases : (o : Ordering) → (o ≡ Ordering.lt) ⊎ (o ≡ Ordering.eq) ⊎ (o ≡ Ordering.gt)
Ordering-cases Ordering.lt = inl refl
Ordering-cases Ordering.eq = inr (inl refl)
Ordering-cases Ordering.gt = inr (inr refl)
