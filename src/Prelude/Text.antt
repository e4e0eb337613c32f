-- ===== src/Prelude/Text.antt =====
-- What the program uses of `String`: concatenation and `str::contains`.
use Prim.Native.String.{String, ◌++◌}
use mathlib.Core.Bool.{Bool, true, false}
use mathlib.Core.Option.{none, some}
use text.Mathlib.Text.{find?}

abbrev pub concat : String → String → String
concat s t = s ++ t

-- Shut, so that a proof sees one unknown for each pattern that is looked for.
unfoldable pub str_contains : String → String → Bool
str_contains s pattern = elim (find? s pattern) [ none ↦ false | some _ ↦ true ]
