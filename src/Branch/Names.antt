-- ===== src/Branch/Names.antt =====
-- rhizo_core/src/branch/manager.rs: the names of branches, and the files that they are saved in.
-- `char::is_alphanumeric` is a parameter.
use unifieddataruntime.Base.{
  ℕ, Bool, true, false, not, ◌&&◌, ◌||◌, eqb, if◌then◌else◌, Result, ok, err,
}
use Prim.Native.Char.{Char, code}
use Prim.Native.String.{String, [], ◌∷◌, ◌++◌}

abbrev pub slash : ℕ
slash = 47

abbrev pub underscore : ℕ
underscore = 95

abbrev pub hyphen : ℕ
hyphen = 45

-- `name.replace("/", "__")`
unfoldable pub safe_name : String → String
safe_name [] = ""
safe_name (c ∷ s) = let rest = safe_name s in if eqb (code c) slash then "__" ++ rest else c ∷ rest

-- `format!("{}.json", safe_name)`
unfoldable pub branch_path : String → String
unfolding safe_name
branch_path name = safe_name name ++ ".json"

abbrev pub all_chars : (Char → Bool) → String → Bool
all_chars p [] = true
all_chars p (c ∷ s) = p c && all_chars p s

abbrev pub starts_with : ℕ → String → Bool
starts_with n [] = false
starts_with n (c ∷ s) = eqb (code c) n

-- Whether a character stands twice in a row.
abbrev pub contains_twice : ℕ → String → Bool
contains_twice n [] = false
contains_twice n (c ∷ s) = (eqb (code c) n && starts_with n s) || contains_twice n s

abbrev pub is_empty : String → Bool
is_empty [] = true
is_empty (_ ∷ _) = false

-- Why a name is not valid.
pub data NameFault : Type 0 where
  empty starts_with_underscore invalid_characters double_slash double_underscore : NameFault

unfoldable pub validate_branch_name : (Char → Bool) → String → Result NameFault (Unit {0})
validate_branch_name is_alphanumeric name =
    let valid =
      all_chars
        (λ c.
          is_alphanumeric c || eqb (code c) hyphen || eqb (code c) underscore || eqb (code c) slash)
        name in
    if is_empty name
    then err NameFault.empty
    else if starts_with underscore name
    then err NameFault.starts_with_underscore
    else if not valid
    then err NameFault.invalid_characters
    else if contains_twice slash name
    then err NameFault.double_slash
    else if contains_twice underscore name
    then err NameFault.double_underscore
    else ok tt
