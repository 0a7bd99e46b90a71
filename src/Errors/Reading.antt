-- ===== src/Errors/Reading.antt =====
-- crates/router/src/error.rs: a reader of the text that an error shows as. It is a description of the
-- text that stands apart from the code which writes it.
use Prim.Native.Char.{Char, code}
use Prim.Native.String.{◌∷◌ as char_cons, ◌++◌ as append}
use text.Mathlib.TextLemmas.{nil-append, cons-append}
use angzarr_router.Prelude.{
  ℕ, zero, suc, ◌≤◌, String, ◌≡◌, refl, sym, ap, ◌∙◌, inl, inr, Bool, true, false, ◌||◌, Option,
  none, some, [], ◌∷◌, Dict, length, map_option, and_then, nat_eq, if◌then◌else◌, arith, Bool-cases,
}
use angzarr_router.Errors.Types.{CodedError}
use angzarr_router.Errors.Display.{
  is_delimiter, any_delimiter, escaped, write_value, display_args, display,
}

abbrev prepend : Char → String × String → String × String
prepend c (taken, rest) = (char_cons c taken, rest)

-- The chars up to the first delimiter, and the text from there on.
unfoldable pub read_bare : String → String × String
read_bare String.[] = ("", "")
read_bare (String.◌∷◌ c s) =
    let read = read_bare s in if is_delimiter (code c) then ("", char_cons c s) else prepend c read

-- The chars up to the closing quote, and the text behind it; the flag says that the char in front was
-- a backslash.
unfoldable pub read_quoted : Bool → String → Option (String × String)
read_quoted escape String.[] = none
read_quoted escape (String.◌∷◌ c s) = elim escape [
  | true ↦ map_option (prepend c) (read_quoted false s)
  | false ↦ elim (nat_eq (code c) b'"') [
    | true ↦ some ("", s)
    | false ↦ elim (nat_eq (code c) b'\\') [
      | true ↦ read_quoted true s
      | false ↦ map_option (prepend c) (read_quoted false s)
    ]
  ]
]

-- A value, quoted or bare, and the text behind it.
unfoldable pub read_value : String → Option (String × String)
unfolding read_bare read_quoted
read_value String.[] = none
read_value (String.◌∷◌ c s) =
    if nat_eq (code c) b'"' then read_quoted false s else some (read_bare (char_cons c s))

-- The text behind a char of this code.
abbrev pub behind : ℕ → String → Option String
behind c String.[] = none
behind c (String.◌∷◌ d s) = if nat_eq (code d) c then some s else none

-- One ` name=value`, and the text behind it.
unfoldable pub read_arg : String → Option ((String × String) × String)
unfolding read_value
read_arg text = and_then (behind 32 text) (λ s.
    let (name, t) = read_bare s in
    and_then (behind b'=' t) (λ u. map_option (λ read. ((name, read.0), read.1)) (read_value u)))

-- The args to the end of a text, and a whole text: its code and its args.
unfoldable pub read_args : ℕ → String → Option (Dict String)
unfolding read_arg
read_args fuel String.[] = some []
read_args zero (String.◌∷◌ c s) = none
read_args (suc fuel) (String.◌∷◌ c s) =
    and_then (read_arg (char_cons c s))
      (λ read. map_option (λ args. read.0 ∷ args) (read_args fuel read.1))

unfoldable pub read_display : ℕ → String → Option (String × Dict String)
unfolding read_args
read_display fuel text =
    let (code, rest) = read_bare text in map_option (λ args. (code, args)) (read_args fuel rest)

-- A text that is empty, or begins with a delimiter.
abbrev pub Ends : String → Type 0
Ends String.[] = Unit
Ends (String.◌∷◌ c s) = is_delimiter (code c) ≡ true

read_bare-Ends : (rest : String) → Ends rest → read_bare rest ≡ ("", rest)
unfolding read_bare
read_bare-Ends String.[] h = refl
read_bare-Ends (String.◌∷◌ c s) h = ground arith

read_bare-append :
    (value rest : String)
    → any_delimiter value ≡ false
    → Ends rest
    → read_bare (append value rest) ≡ (value, rest)
unfolding read_bare any_delimiter
read_bare-append String.[] rest bare ends = rw nil-append (read_bare-Ends rest ends)
read_bare-append (String.◌∷◌ c s) rest bare ends =
    rw cons-append (ground (arith, read_bare-append s rest (ground arith) ends))

read_quoted-escaped :
    (value rest : String) → read_quoted false (append (escaped value) rest) ≡ some (value, rest)
unfolding read_quoted escaped
read_quoted-escaped String.[] rest = rw (cons-append, nil-append)
read_quoted-escaped (String.◌∷◌ c s) rest =
    elim (Bool-cases (nat_eq (code c) b'"' || nat_eq (code c) b'\\')) [
      | inl special ↦ rw (special, cons-append, cons-append, read_quoted-escaped s rest)
      | inr plain ↦ rw (plain, cons-append) (ground (arith, read_quoted-escaped s rest))
    ]

-- A value reads back as it was, whatever it holds, with what stands behind it: the end of the text, or
-- a text that begins with whitespace, '=', '"' or '\'.
pub read_value-write_value :
    (value rest : String)
    → Ends rest
    → read_value (append (write_value value) rest) ≡ some (value, rest)
unfolding read_value write_value any_delimiter is_delimiter
read_value-write_value String.[] rest ends = rw (cons-append, read_quoted-escaped "" rest)
read_value-write_value (String.◌∷◌ c s) rest ends =
    elim (Bool-cases (any_delimiter (char_cons c s))) [
      | inl quoted ↦ rw (quoted, cons-append, read_quoted-escaped (char_cons c s) rest)
      | inr bare ↦
          rw (bare, cons-append)
            (let whole : read_bare (char_cons c (append s rest)) ≡ (char_cons c s, rest) =
                sym (ap read_bare (cons-append c s rest))
                ∙ read_bare-append (char_cons c s) rest bare ends in
              ground (arith, whole))
    ]

display_args-Ends : (args : Dict String) → Ends (display_args args)
unfolding display_args is_delimiter
display_args-Ends [] = tt
display_args-Ends ((name, value) ∷ args) = refl

read_arg-append :
    (name value rest : String)
    → any_delimiter name ≡ false
    → Ends rest
    → read_arg (char_cons " " (append name (char_cons "=" (append (write_value value) rest))))
      ≡ some ((name, value), rest)
unfolding read_arg is_delimiter
read_arg-append name value rest bare ends = rw (
  read_bare-append name (char_cons "=" (append (write_value value) rest)) bare refl,
  read_value-write_value value rest ends,
)

-- No name of an arg holds a delimiter.
abbrev pub BareNames : Dict String → Type 0
BareNames [] = Unit
BareNames ((name, value) ∷ args) = (any_delimiter name ≡ false) × BareNames args

read_args-display_args :
    (fuel : ℕ) (args : Dict String)
    → length args ≤ fuel
    → BareNames args
    → read_args fuel (display_args args) ≡ some args
unfolding read_args display_args
read_args-display_args fuel [] small bare = refl
read_args-display_args zero (arg ∷ args) small bare = absurd (omega arith)
read_args-display_args (suc fuel) ((name, value) ∷ args) small (bare, others) = rw (
  read_arg-append name value (display_args args) bare (display_args-Ends args),
  read_args-display_args fuel args (omega arith) others,
)

-- The text that an error shows as reads back as its code and its args, whatever the args' values hold.
-- For a code and names of args that hold no whitespace, '=', '"' or '\'.
pub read_display-display :
    (e : CodedError) (fuel : ℕ)
    → any_delimiter e.code ≡ false
    → BareNames e.extras
    → length e.extras ≤ fuel
    → read_display fuel (display e) ≡ some (e.code, e.extras)
unfolding read_display display
read_display-display e fuel bare names small = rw (
  read_bare-append e.code (display_args e.extras) bare (display_args-Ends e.extras),
  read_args-display_args fuel e.extras small names,
)
