-- ===== src/Prelude/Text.antt =====
-- Texts that the program walks or builds: by the constructors of `String`.
use Prim.Native.Nat.{ℕ, zero, suc, ◌/◌, ◌%◌}
use Prim.Native.Char.{code}
use Prim.Native.String.{String, ◌++◌}
use mathlib.Core.Option.{Option, none, some}
use mathlib.Core.List.{[], ◌∷◌}
use angzarr_router.Prelude.Lists.{get_elem?}
use angzarr_router.Prelude.Tests.{ltb, unwrap_or, nat_eq, if◌then◌else◌}

-- The decimal digit of a number below ten.
abbrev digit : ℕ → String
digit n =
    unwrap_or (get_elem? ("0" ∷ "1" ∷ "2" ∷ "3" ∷ "4" ∷ "5" ∷ "6" ∷ "7" ∷ "8" ∷ "9" ∷ []) n) ""

decimal_from : ℕ → ℕ → String
decimal_from zero n = ""
decimal_from (suc fuel) n =
    let higher = decimal_from fuel (n / 10) in
    if ltb n 10 then digit n else higher ++ digit (n % 10)

-- `to_string` of a u64: at most twenty decimal digits.
unfoldable pub decimal : ℕ → String
unfolding decimal_from
decimal n = decimal_from 20 n

-- The text behind the last '/' (`rfind` and the slice after it, `rsplit('/').next()`): none when
-- there is no '/'.
unfoldable pub after_last_slash : String → Option String
after_last_slash String.[] = none
after_last_slash (String.◌∷◌ c s) =
    let here = if nat_eq (code c) b'/' then some s else none in
    elim (after_last_slash s) [ some rest ↦ some rest | none ↦ here ]
