-- ===== src/Errors/Display.antt =====
-- crates/router/src/error.rs: the text that an error shows as.
use Prim.Native.Char.{code}
use Prim.Native.String.{◌∷◌ as char_cons, ◌++◌ as append}
use angzarr_router.Prelude.{
  ℕ, String, Bool, true, false, ◌||◌, ◌&&◌, not, [], ◌∷◌, Dict, nat_eq, ltb, if◌then◌else◌,
}
use angzarr_router.Errors.Types.{CodedError}

-- A char of Unicode's White_Space (`char::is_whitespace`), by its code point.
unfoldable pub is_whitespace : ℕ → Bool
is_whitespace c =
    (not (ltb c 9) && ltb c 14)
    || nat_eq c 32
    || nat_eq c 133
    || nat_eq c 160
    || nat_eq c 5760
    || (not (ltb c 8192) && ltb c 8203)
    || nat_eq c 8232
    || nat_eq c 8233
    || nat_eq c 8239
    || nat_eq c 8287
    || nat_eq c 12288

-- A char that a bare value may not hold.
unfoldable pub is_delimiter : ℕ → Bool
unfolding is_whitespace
is_delimiter c = is_whitespace c || nat_eq c b'=' || nat_eq c b'"' || nat_eq c b'\\'

unfoldable pub any_delimiter : String → Bool
any_delimiter String.[] = false
any_delimiter (String.◌∷◌ c s) = is_delimiter (code c) || any_delimiter s

abbrev pub is_empty_text : String → Bool
is_empty_text String.[] = true
is_empty_text (String.◌∷◌ c s) = false

-- A value's chars between the quotes, the closing quote included.
unfoldable pub escaped : String → String
escaped String.[] = "\""
escaped (String.◌∷◌ c s) =
    let rest = char_cons c (escaped s) in
    if nat_eq (code c) b'"' || nat_eq (code c) b'\\' then char_cons "\\" rest else rest

-- `write_value`.
unfoldable pub write_value : String → String
write_value value =
    if is_empty_text value || any_delimiter value then char_cons "\"" (escaped value) else value

-- `Display for CodedError`: the code, then ` name=value` for each of its args.
unfoldable pub display_args : Dict String → String
display_args [] = ""
display_args ((name, value) ∷ args) =
    char_cons " " (append name (char_cons "=" (append (write_value value) (display_args args))))

unfoldable pub display : CodedError → String
display e = append e.code (display_args e.extras)
