-- ===== src/Catalog/Paths.antt =====
-- rhizo_core/src/catalog/file_catalog.rs: the directories of the tables' names, `base_path.join`.
use unifieddataruntime.Base.{ℕ, Bool, not, ◌&&◌, eqb, if◌then◌else◌}
use unifieddataruntime.Branch.Names.{starts_with, all_chars, is_empty, slash}
use Prim.Native.Char.{code}
use Prim.Native.String.{String, [], ◌∷◌, ◌++◌}
use mathlib.Core.List.{List, [] as []ᴸ, ◌∷◌ as ◌∷ᴸ◌}

-- The directories on the way to that of a name, which is the last: `a` and `a/b` for `a/b`. `path` is
-- what was read of the name.
abbrev directories_from : String → String → List String
directories_from path [] = path ∷ᴸ []ᴸ
directories_from path (ch ∷ rest) =
    let later = directories_from (path ++ (ch ∷ "")) rest in
    if eqb (code ch) slash then path ∷ᴸ later else later

unfoldable pub directories : String → List String
directories t = directories_from "" t

abbrev pub dot : ℕ
dot = 46

-- Whether the directory of a name lies directly below the catalog's, and is not hidden.
abbrev pub is_listed : String → Bool
is_listed t =
    not (is_empty t) && not (starts_with dot t) && all_chars (λ ch. not (eqb (code ch) slash)) t
