-- ===== src/Changelog/Filtered.antt =====
-- The changelog against a description without a loop: the entries of all committed transactions, those
-- that the query wants of them, and the first of these.
use unifieddataruntime.Base.{
  zero, suc, take, append_nil, ℕ, ◌+◌, ◌-◌, max, ◌≡◌, refl, ap, ◌∙◌, sym, String, Bool, not, ◌&&◌,
  Option, none, some, List, [], ◌∷◌, ◌++◌, map, select, length, length-append, leb, if◌then◌else◌,
  arith, Bool-cases, inl, inr, ok,
}
use unifieddataruntime.Base.Dict.{Dict}
use unifieddataruntime.Transaction.{TransactionRecord}
use unifieddataruntime.Transaction.Log.{TransactionLog}
use unifieddataruntime.Transaction.Log.Committed.{list_committed_transactions}
use unifieddataruntime.Changelog.{
  ChangelogEntry, ChangelogQuery, from_transaction, track, skips, includes, reached, changelog_loop,
  get_changelog,
}
use mathlib.Core.List.{append_assoc}

-- The entries from the one on that makes `n`: none after the limit is reached.
abbrev capped : Option ℕ → ℕ → List ChangelogEntry → List ChangelogEntry
capped l n [] = []
capped l n (e ∷ es) =
    let rest = capped l n es in
    let more = capped l (n + 1) es in if reached l (n + 1) then e ∷ [] else e ∷ more

-- The first entries of a query with a limit; a limit of 0 counts as 1.
abbrev pub limited : Option ℕ → List ChangelogEntry → List ChangelogEntry
limited none es = es
limited (some l) es = take (max 1 l) es

capped-none : (n : ℕ) (es : List ChangelogEntry) → capped none n es ≡ es
capped-none n [] = refl
capped-none n (e ∷ es) = ap (λ z. e ∷ z) (capped-none (n + 1) es)

take_nil : (n : ℕ) → take {A = ChangelogEntry} n [] ≡ []
take_nil zero = refl
take_nil (suc n) = refl

capped-take : (l n : ℕ) (es : List ChangelogEntry) → capped (some l) n es ≡ take (max 1 (l - n)) es
capped-take l n [] = sym (take_nil (max 1 (l - n)))
capped-take l n (e ∷ es) = elim (Bool-cases (leb l (n + 1))) [
  | inl h ↦
      let one : max 1 (l - n) ≡ suc zero = ground (arith, h) in
      rw (h) (sym (ap (λ k. take k (e ∷ es)) one))
  | inr h ↦
      let more : max 1 (l - n) ≡ suc (max 1 (l - (n + 1))) = ground (arith, h) in
      rw (h) (ap (λ z. e ∷ z) (capped-take l (n + 1) es) ∙ sym (ap (λ k. take k (e ∷ es)) more))
]

capped-limited : (l : Option ℕ) (es : List ChangelogEntry) → capped l 0 es ≡ limited l es
capped-limited none es = capped-none 0 es
capped-limited (some l) es =
    let same : l - 0 ≡ l = omega arith in capped-take l 0 es ∙ ap (λ k. take (max 1 k) es) same

module _ {Json : Type 0} where
  -- Each transaction with its entry, whose old versions are those that all the earlier ones left.
  abbrev pub annotated :
      Dict String ℕ → List (TransactionRecord Json) → List (TransactionRecord Json × ChangelogEntry)
  annotated previous [] = []
  annotated previous (r ∷ rs) =
      (r, from_transaction r previous) ∷ annotated (track r.writes previous) rs

  abbrev pub wanted : ChangelogQuery → TransactionRecord Json × ChangelogEntry → Bool
  wanted q p = not (skips q (p.0)) && includes q (p.0)

  abbrev pub all_entries :
      ChangelogQuery → Dict String ℕ → List (TransactionRecord Json) → List ChangelogEntry
  all_entries q previous rs =
      map (λ (p : TransactionRecord Json × ChangelogEntry). p.1)
        (select (wanted q) (annotated previous rs))

  changelog_loop-capped :
      (q : ChangelogQuery) (rs : List (TransactionRecord Json)) (previous : Dict String ℕ)
      (entries : List ChangelogEntry)
      → changelog_loop q rs previous entries
        ≡ entries ++ capped q.limit (length entries) (all_entries q previous rs)
  unfolding changelog_loop
  changelog_loop-capped q [] previous entries = sym (append_nil entries)
  changelog_loop-capped q (r ∷ rs) previous entries =
      let e : ChangelogEntry = from_transaction r previous in
      let next : Dict String ℕ = track r.writes previous in
      let more : List ChangelogEntry = entries ++ e ∷ [] in
      let without = changelog_loop-capped q rs next entries in
      let later = changelog_loop-capped q rs next more in
      let long : length more ≡ length entries + 1 = length-append entries (e ∷ []) in
      elim (Bool-cases (skips q r)) [
        | inl s ↦ rw (changelog_loop, s) without
        | inr s ↦ elim (Bool-cases (includes q r)) [
          | inr i ↦ rw (changelog_loop, s, i) without
          | inl i ↦ elim (Bool-cases (reached q.limit (length entries + 1))) [
            | inl k ↦ rw (changelog_loop, s, i, long, k) refl
            | inr k ↦
                let same : more ++ capped q.limit (length more) (all_entries q next rs)
                    ≡ entries ++ (e ∷ capped q.limit (length entries + 1) (all_entries q next rs)) =
                  append_assoc entries (e ∷ [])
                    (capped q.limit (length more) (all_entries q next rs))
                  ∙ ap (λ n. entries ++ (e ∷ capped q.limit n (all_entries q next rs))) long in
                let run : changelog_loop q (r ∷ rs) previous entries
                    ≡ changelog_loop q rs next more =
                  rw (changelog_loop, s, i, ap (reached q.limit) long ∙ k) refl in
                let fin : capped q.limit (length entries) (all_entries q previous (r ∷ rs))
                    ≡ e ∷ capped q.limit (length entries + 1) (all_entries q next rs) =
                  rw (s, i, k) refl in
                run ∙ (later ∙ (same ∙ sym (ap (λ z. entries ++ z) fin)))
          ]
        ]
      ]

  -- The changelog of a log is that of its committed transactions: the entry of each of them, with the
  -- versions that all the earlier ones left as the old ones, whether the query wants those or not;
  -- of these the ones that pass the filters; and of these the first, as many as the limit, but one
  -- for a limit of 0.
  pub get_changelog-filtered :
      (l k : TransactionLog Json) (q : ChangelogQuery) (rs : List (TransactionRecord Json))
      → list_committed_transactions l ≡ ok (rs, k)
      → get_changelog l q ≡ ok (limited q.limit (all_entries q [] rs), k)
  unfolding get_changelog
  get_changelog-filtered l k q rs h =
      let whole : changelog_loop q rs [] [] ≡ limited q.limit (all_entries q [] rs) =
        changelog_loop-capped q rs [] [] ∙ capped-limited q.limit (all_entries q [] rs) in
      rw (get_changelog, h, whole) refl
