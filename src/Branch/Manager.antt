-- ===== src/Branch/Manager.antt =====
-- rhizo_core/src/branch/manager.rs: the store of branches. The directory is a map from file names to
-- the branches that the files hold, with the text of the file that names the default branch; failures
-- of the file system and of JSON are not modelled. `char::is_alphanumeric` and `str::trim` are
-- parameters.
use unifieddataruntime.Base.{
  ℕ, String, Bool, false, not, Option, none, some, List, [], ◌∷◌, string_eq, ltb, if◌then◌else◌,
  Result, ok, err, ◌>>=◌, ◌==◌, ok_or,
}
use unifieddataruntime.Base.Dict
use unifieddataruntime.Base.Dict.{Dict}
use unifieddataruntime.Base.Int.{ℤ}
use unifieddataruntime.Branch.{
  Branch, BranchDiff, new_branch, from_branch, with_description, table_version, set_table_version,
  compute, conflicting_tables,
}
use unifieddataruntime.Branch.Names.{NameFault, branch_path, validate_branch_name}
use Prim.Native.Char.{Char}

pub data BranchError : Type 0 where
  branch_not_found branch_already_exists cannot_delete_default : String → BranchError
  invalid_branch_name : NameFault → BranchError
  merge_conflict algebraic_conflict : List String → BranchError
  cannot_fast_forward : (source_branch target_branch : String) → BranchError

pub record BranchManager : Type 0 where
  pub files : Dict String Branch
  pub default_file : Option String

abbrev pub default_branch : String
default_branch = "main"

abbrev pub branch_exists : BranchManager → String → Bool
branch_exists m n = Dict.contains_key (branch_path n) m.files

unfoldable pub get : BranchManager → String → Result BranchError Branch
get m n = ok_or (Dict.lookup (branch_path n) m.files) (BranchError.branch_not_found n)

unfoldable pub save_branch : BranchManager → Branch → BranchManager
save_branch m b = record m { files = Dict.insert (branch_path b.name) b m.files }

unfoldable pub set_default : BranchManager → String → Result BranchError BranchManager
set_default m n =
    if not (branch_exists m n)
    then err (BranchError.branch_not_found n)
    else ok (record m { default_file = some n })

-- `BranchManager::new`, on a directory that may hold branches already.
unfoldable pub open_manager : ℤ → BranchManager → Result BranchError BranchManager
unfolding save_branch set_default
open_manager now m = elim m.files [
  | [] ↦ set_default (save_branch m (new_branch now default_branch [])) default_branch
  | _ ∷ _ ↦ ok m
]

unfoldable pub update_head : BranchManager → String → String → ℕ → Result BranchError BranchManager
unfolding get save_branch
update_head m n t v = do b ← get m n; ok (save_branch m (set_table_version b t v))

-- `BranchManager::get_table_version`
unfoldable pub get_table_version : BranchManager → String → String → Result BranchError (Option ℕ)
unfolding get
get_table_version m n t = do b ← get m n; ok (table_version b t)

unfoldable pub diff : BranchManager → String → String → Result BranchError BranchDiff
unfolding get compute
diff m source target = do s ← get m source; g ← get m target; ok (compute s g)

unfoldable pub can_fast_forward : BranchManager → String → String → Result BranchError Bool
unfolding diff
can_fast_forward m source target = do d ← diff m source target; ok (not d.has_conflicts)

-- The loops over the lists of the diff: each table is set to the source's version.
unfoldable pub apply_changes : Dict String (ℕ × ℕ) → Branch → Branch
apply_changes [] b = b
apply_changes ((t, (v, _)) ∷ es) b = apply_changes es (set_table_version b t v)

unfoldable pub apply_added : Dict String ℕ → Branch → Branch
apply_added [] b = b
apply_added ((t, v) ∷ es) b = apply_added es (set_table_version b t v)

-- The loop without a fork point: a table is set where the source's version is higher, a missing one
-- standing at 0.
abbrev pub or_zero : Option ℕ → ℕ
or_zero none = 0
or_zero (some v) = v

unfoldable pub apply_forward : Dict String ℕ → Branch → Branch
apply_forward [] b = b
apply_forward ((t, v) ∷ es) b =
    apply_forward es (if ltb (or_zero (table_version b t)) v then set_table_version b t v else b)

-- What `merge_fast_forward` makes of the target, before it is saved; `d` is the diff.
unfoldable pub merge_heads : Branch → Branch → BranchDiff → Result BranchError Branch
unfolding apply_changes apply_added apply_forward
merge_heads source target d = elim source.fork_point [
  | some _ ↦
      if d.has_conflicts
      then err (BranchError.merge_conflict (conflicting_tables d))
      else ok (apply_added d.added_in_source (apply_changes d.source_only_changes target))
  | none ↦ ok (apply_forward source.head target)
]

-- The diff reads the two branches again; without a fork point it is not used.
unfoldable pub merge_fast_forward :
    BranchManager → String → String → Result BranchError BranchManager
unfolding get diff merge_heads save_branch
merge_fast_forward m source into = do
  s ← get m source
  g ← get m into
  d ← diff m source into
  b ← merge_heads s g d
  ok (save_branch m b)

module _ (trim : String → String) where
  unfoldable pub get_default : BranchManager → Option String
  get_default m = elim m.default_file [ none ↦ none | some n ↦ some (trim n) ]

  unfoldable pub delete : BranchManager → String → Result BranchError BranchManager
  unfolding get_default
  delete m n =
      let is_default : Bool = elim (get_default m) [ none ↦ false | some d ↦ d == n ] in
      if is_default
      then err (BranchError.cannot_delete_default n)
      else if not (branch_exists m n)
      then err (BranchError.branch_not_found n)
      else ok (record m { files = Dict.remove (branch_path n) m.files })

  unfoldable pub create :
      (Char → Bool)
      → ℤ
      → BranchManager
      → String
      → Option String
      → Option String
      → Result BranchError (Branch × BranchManager)
  unfolding get save_branch get_default validate_branch_name
  create is_alphanumeric now m n from description =
      let from_name : String = elim from [
        | some f ↦ f
        | none ↦ elim (get_default m) [ none ↦ default_branch | some d ↦ d ]
      ] in
      elim (validate_branch_name is_alphanumeric n) [
        | err f ↦ err (BranchError.invalid_branch_name f)
        | ok _ ↦ if branch_exists m n then err (BranchError.branch_already_exists n) else do
          parent ← get m from_name
          let b = from_branch now n parent
          let b' : Branch = elim description [ none ↦ b | some d ↦ with_description b d ]
          ok (b', save_branch m b')
      ]
