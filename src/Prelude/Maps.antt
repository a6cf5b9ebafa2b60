-- ===== src/Prelude/Maps.antt =====
-- Maps from texts to texts, such as a commit by the name of its repository.
use Prim.Native.String.{String}
use mathlib.Core.Option.{Option, none, some}
use mathlib.Core.List.{List, [], ◌∷◌}
use text.Mathlib.Text.{◌==◌ as str_eq}
use brigadir.Prelude.Tests.{if◌then◌else◌}

-- A JavaScript `Map` or object from texts to texts, in order of insertion.
abbrev pub Heads : Type 0
Heads = List (String × String)

abbrev pub lookup : String → Heads → Option String
lookup k [] = none
lookup k ((k', v) ∷ rest) = if str_eq k' k then some v else lookup k rest

-- `Map.set`.
abbrev pub put : String → String → Heads → Heads
put k v [] = (k, v) ∷ []
put k v ((k', v') ∷ rest) = if str_eq k' k then (k', v) ∷ rest else (k', v') ∷ put k v rest
