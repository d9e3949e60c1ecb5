-- ===== src/Changelog.antt =====
-- rhizo_core/src/changelog: entry.rs and query.rs, and the loop of `get_changelog` of
-- rhizo_core/src/transaction/manager.rs.
pub mod Filtered
pub mod Tests
use unifieddataruntime.Base.{
  ℕ, ◌+◌, String, Bool, true, false, not, ◌&&◌, ◌||◌, Option, none, some, List, [], ◌∷◌, ◌++◌, map,
  any, find, length, leb, if◌then◌else◌, string_eq, ◌==◌, Result, ok, err, ◌>>=◌,
}
use unifieddataruntime.Base.Dict
use unifieddataruntime.Base.Dict.{Dict}
use unifieddataruntime.Base.HashSet
use unifieddataruntime.Base.Int.{ℤ, pos, ltb_ℤ}
use unifieddataruntime.Transaction.{TableWrite, TransactionRecord}
use unifieddataruntime.Transaction.Epoch.{TransactionError}
use unifieddataruntime.Transaction.Log.{TransactionLog}
use unifieddataruntime.Transaction.Log.Committed.{list_committed_transactions}

pub record TableChange : Type 0 where
  pub table_name : String
  pub old_version : Option ℕ
  pub new_version : ℕ
  pub chunk_hashes : List String

abbrev pub is_new_table : TableChange → Bool
is_new_table c = elim c.old_version [ none ↦ true | some _ ↦ false ]

pub record ChangelogEntry : Type 0 where
  pub tx_id : ℕ
  pub epoch_id : ℕ
  pub committed_at : ℤ
  pub branch : String
  pub changes : List TableChange
  pub metadata : Dict String String

abbrev pub contains_table : ChangelogEntry → String → Bool
contains_table e t = any (λ (c : TableChange). c.table_name == t) e.changes

abbrev pub get_change : ChangelogEntry → String → Option TableChange
get_change e t = find (λ (c : TableChange). c.table_name == t) e.changes

pub record ChangelogQuery : Type 0 where
  pub since_tx_id : Option ℕ
  pub since_timestamp : Option ℤ
  pub tables : Option (List String)
  pub branch : Option String
  pub limit : Option ℕ

-- `ChangelogQuery::new`
abbrev pub new_query : ChangelogQuery
new_query = record {
  since_tx_id = none;
  since_timestamp = none;
  tables = none;
  branch = none;
  limit = none;
}

-- The filter by branch of a query, on the name of a branch.
abbrev pub on_other_branch : ChangelogQuery → String → Bool
on_other_branch q b = elim q.branch [ none ↦ false | some c ↦ not (b == c) ]

abbrev pub matches_entry : ChangelogQuery → ChangelogEntry → Bool
matches_entry q e = not (on_other_branch q e.branch) && elim q.tables [
  | none ↦ true
  | some ts ↦ any (λ (c : TableChange). HashSet.contains c.table_name ts) e.changes
]

abbrev pub reached : Option ℕ → ℕ → Bool
reached none n = false
reached (some l) n = leb l n

module _ {Json : Type 0} where
  abbrev pub change_of : Dict String ℕ → TableWrite Json → TableChange
  change_of previous w = record {
    table_name = w.table_name;
    old_version = Dict.lookup w.table_name previous;
    new_version = w.new_version;
    chunk_hashes = w.chunk_hashes;
  }

  abbrev pub from_transaction : TransactionRecord Json → Dict String ℕ → ChangelogEntry
  from_transaction r previous = record {
    tx_id = r.tx_id;
    epoch_id = r.epoch_id;
    committed_at = elim r.committed_at [ none ↦ pos 0 | some t ↦ t ];
    branch = r.branch;
    changes = map (change_of previous) r.writes;
    metadata = r.metadata;
  }

  -- The versions that the writes leave behind.
  abbrev pub track : List (TableWrite Json) → Dict String ℕ → Dict String ℕ
  track [] previous = previous
  track (w ∷ ws) previous = track ws (Dict.insert w.table_name w.new_version previous)

  -- The filters that `continue`: by id, by time and by branch.
  abbrev pub skips : ChangelogQuery → TransactionRecord Json → Bool
  skips q r =
      elim q.since_tx_id [ none ↦ false | some s ↦ leb r.tx_id s ]
      || (elim q.since_timestamp [
        | none ↦ false
        | some s ↦ elim r.committed_at [ none ↦ false | some t ↦ ltb_ℤ t s ]
      ]
          || on_other_branch q r.branch)

  abbrev pub includes : ChangelogQuery → TransactionRecord Json → Bool
  includes q r = elim q.tables [
    | none ↦ true
    | some ts ↦ any (λ (w : TableWrite Json). HashSet.contains w.table_name ts) r.writes
  ]

  unfoldable pub changelog_loop :
      ChangelogQuery
      → List (TransactionRecord Json)
      → Dict String ℕ
      → List ChangelogEntry
      → List ChangelogEntry
  changelog_loop q [] previous entries = entries
  changelog_loop q (r ∷ rs) previous entries =
      let more = entries ++ from_transaction r previous ∷ [] in
      let without = changelog_loop q rs (track r.writes previous) entries in
      let later = changelog_loop q rs (track r.writes previous) more in
      if skips q r
      then without
      else if includes q r
      then (if reached q.limit (length more) then more else later)
      else without

  unfoldable pub get_changelog :
      TransactionLog Json
      → ChangelogQuery
      → Result TransactionError (List ChangelogEntry × TransactionLog Json)
  unfolding changelog_loop list_committed_transactions
  get_changelog l q = do p ← list_committed_transactions l; ok (changelog_loop q (p.0) [] [], p.1)
