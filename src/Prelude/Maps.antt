-- ===== src/Prelude/Maps.antt =====
-- A Rust map or set keyed by texts, as a list of entries. `insert` replaces the value of a key that
-- is there, as `HashMap::insert` does. The order of the entries stands for a HashMap's, which
-- Rust leaves open, so nothing may rest on it.
use Prim.Native.Nat.{Ordering}
use Prim.Native.String.{String, compare}
use mathlib.Core.Path.{◌≡◌, refl}
use mathlib.Core.Bool.{Bool, false, ◌||◌}
use mathlib.Core.Option.{Option, none, some}
use mathlib.Core.List.{List, [], ◌∷◌}
use native.Mathlib.Omega.{arith}
use text.Mathlib.Text.{◌==◌}
use text.Mathlib.TextEquality.{eq_iff}
use angzarr_router.Prelude.Tests.{if◌then◌else◌}

abbrev pub Dict {ℓ} : Type ℓ → Type ℓ
Dict V = List (String × V)

abbrev pub contains : String → List String → Bool
contains k [] = false
contains k (j ∷ xs) = j == k || contains k xs

module _ {ℓ} {V : Type ℓ} where
  unfoldable pub lookup : String → Dict V → Option V
  lookup key [] = none
  lookup key ((name, value) ∷ entries) = if name == key then some value else lookup key entries

  unfoldable pub insert : String → V → Dict V → Dict V
  insert key new [] = (key, new) ∷ []
  insert key new ((name, value) ∷ entries) =
      if name == key then (key, new) ∷ entries else (name, value) ∷ insert key new entries

  abbrev pub keys : Dict V → List String
  keys [] = []
  keys ((name, value) ∷ entries) = name ∷ keys entries

  pub lookup-insert :
      (key asked : String) (new : V) (entries : Dict V)
      → lookup asked (insert key new entries)
        ≡ (if key == asked then some new else lookup asked entries)
  unfolding lookup insert
  lookup-insert key asked new [] = refl
  lookup-insert key asked new ((name, value) ∷ entries) =
      let deeper = lookup-insert key asked new entries in
      ground (arith, eq_iff name key, eq_iff key asked, eq_iff name asked, deeper)

-- A BTreeMap: its entries stand in the order of their keys, byte by byte, which is the order of the
-- code points.
module _ {ℓ} {V : Type ℓ} where
  unfoldable pub insert_ordered : String → V → Dict V → Dict V
  insert_ordered k v [] = (k, v) ∷ []
  insert_ordered k v ((j, w) ∷ m) = elim (compare j k) [
    | Ordering.lt ↦ (j, w) ∷ insert_ordered k v m
    | Ordering.eq ↦ (k, v) ∷ m
    | Ordering.gt ↦ (k, v) ∷ (j, w) ∷ m
  ]

  -- `collect`: of two entries with one key the later one stays.
  unfoldable pub collect_from : Dict V → Dict V → Dict V
  collect_from m [] = m
  collect_from m ((k, v) ∷ entries) = collect_from (insert_ordered k v m) entries

  pub lookup-insert_ordered :
      (k j : String) (v : V) (m : Dict V)
      → lookup j (insert_ordered k v m) ≡ (if k == j then some v else lookup j m)
  unfolding lookup insert_ordered
  lookup-insert_ordered k j v [] = refl
  lookup-insert_ordered k j v ((i, w) ∷ m) =
      ground (arith, eq_iff k j, eq_iff i k, eq_iff i j, lookup-insert_ordered k j v m)
