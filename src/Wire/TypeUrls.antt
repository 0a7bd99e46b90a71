-- ===== src/Wire/TypeUrls.antt =====
-- crates/router/src/lib.rs: type URLs, and the names of types in them.
use Prim.Native.Char.{code}
use Prim.Native.String.{◌++◌ as append}
use text.Mathlib.TextLemmas.{nil-append, cons-append}
use angzarr_router.Prelude.{String, ◌≡◌, refl, ◌≢◌, none, some, arith, ◌⊎◌, inl, inr, Option-cases}
use angzarr_router.Prelude.Text.{after_last_slash}
use angzarr_router.Wire.Reading.{type_url, type_name_from_url}

-- A text without a '/'.
abbrev pub NoSlash : String → Type 0
NoSlash String.[] = Unit
NoSlash (String.◌∷◌ c s) = (code c ≢ b'/') × NoSlash s

after_last_slash_of_NoSlash : (s : String) → NoSlash s → after_last_slash s ≡ none
unfolding after_last_slash
after_last_slash_of_NoSlash String.[] h = refl
after_last_slash_of_NoSlash (String.◌∷◌ c s) (ne, h) =
    ground (arith, after_last_slash_of_NoSlash s h)

pub after_last_slash-NoSlash_of_none : (s : String) → after_last_slash s ≡ none → NoSlash s
unfolding after_last_slash
after_last_slash-NoSlash_of_none String.[] h = tt
after_last_slash-NoSlash_of_none (String.◌∷◌ c s) h = elim (Option-cases (after_last_slash s)) [
  | inl tail ↦ (ground arith, after_last_slash-NoSlash_of_none s tail)
  | inr found ↦ absurd (ground arith)
]

after_last_slash-NoSlash : (s t : String) → after_last_slash s ≡ some t → NoSlash t
unfolding after_last_slash
after_last_slash-NoSlash String.[] t h = cc
after_last_slash-NoSlash (String.◌∷◌ c s) t h = elim (Option-cases (after_last_slash s)) [
  | inl clean ↦
      let here : s ≡ t = ground arith in rw here at (after_last_slash-NoSlash_of_none s clean)
  | inr (rest, found) ↦
      let same : rest ≡ t = ground arith in after_last_slash-NoSlash s t (rw same at found)
]

after_last_slash-append :
    (prefix name : String)
    → NoSlash name
    → after_last_slash (append prefix (append "/" name)) ≡ some name
unfolding after_last_slash
after_last_slash-append String.[] name h =
    rw (nil-append, cons-append, nil-append) (ground (arith, after_last_slash_of_NoSlash name h))
after_last_slash-append (String.◌∷◌ c s) name h =
    rw cons-append (ground (arith, after_last_slash-append s name h))

-- Whatever stands before the last '/', the type's name is what stands behind it.
type_name_from_url-append :
    (prefix name : String)
    → NoSlash name
    → type_name_from_url (append prefix (append "/" name)) ≡ name
unfolding type_name_from_url
type_name_from_url-append prefix name h = ground (arith, after_last_slash-append prefix name h)

-- The URL that the router writes for a name reads back as the name.
pub type_name_from_url-type_url :
    (name : String) → NoSlash name → type_name_from_url (type_url name) ≡ name
unfolding type_url
type_name_from_url-type_url name h =
    rw (nil-append (append "/" name)) at (type_name_from_url-append "" name h)

name_clean :
    (url : String)
    → ((after_last_slash url ≡ none) × NoSlash url)
      ⊎ ((name : String) × (after_last_slash url ≡ some name) × NoSlash name)
    → NoSlash (type_name_from_url url)
unfolding type_name_from_url
name_clean url (inl (whole, clean)) = rw (whole, type_name_from_url) clean
name_clean url (inr (name, found, clean)) = rw (found, type_name_from_url) clean

-- A type's name never holds a '/', and reading it again changes nothing.
pub type_name_from_url-NoSlash :
    (url : String)
    → NoSlash (type_name_from_url url)
      × (type_name_from_url (type_name_from_url url) ≡ type_name_from_url url)
unfolding type_name_from_url
type_name_from_url-NoSlash url = elim (Option-cases (after_last_slash url)) [
  | inl whole ↦
      let clean = after_last_slash-NoSlash_of_none url whole in
      (name_clean url (inl (whole, clean)), ground arith)
  | inr (name, found) ↦
      let clean = after_last_slash-NoSlash url name found in
      (
        name_clean url (inr (name, found, clean)),
        ground (arith, after_last_slash_of_NoSlash name clean),
      )
]
