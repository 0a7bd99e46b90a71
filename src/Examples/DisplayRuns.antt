-- ===== src/Examples/DisplayRuns.antt =====
-- The text of an error whose arg must be quoted.
use angzarr_router.Prelude.{◌≡◌, refl, some, [], ◌∷◌, arith}
use angzarr_router.Errors.Types.{CodedError}
use angzarr_router.Errors.Coded.{immediate}
use angzarr_router.Errors.Display.{
  is_delimiter, any_delimiter, escaped, write_value, display_args, display,
}
use angzarr_router.Errors.Reading.{read_display, read_display-display}
use angzarr_router.Examples.Engine.{engine}

abbrev shown : CodedError
unfolding engine immediate
shown = immediate "acct.moved" (("by", "the \"clerk\"") ∷ ("to", "7") ∷ [])

shown_text : display shown ≡ "acct.moved by=\"the \\\"clerk\\\"\" to=7"
unfolding engine immediate display display_args write_value any_delimiter is_delimiter escaped
shown_text = refl

read_display-display_example :
    read_display 2 (display shown) ≡ some ("acct.moved", ("by", "the \"clerk\"") ∷ ("to", "7") ∷ [])
unfolding engine immediate any_delimiter is_delimiter
read_display-display_example = read_display-display shown 2 refl (refl, (refl, tt)) (omega arith)
