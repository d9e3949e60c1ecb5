-- ===== src/Base/Text.antt =====
-- `format!` of a number, and the order of texts by their bytes.
use Prim.Native.Nat.{ℕ, zero, suc, ◌/◌, ◌%◌}
use Prim.Native.String.{String, ◌++◌ as append, compare}
use mathlib.Core.Bool.{Bool, true, false}
use mathlib.Core.List.{List, [], ◌∷◌}
use Prim.Native.Nat.{Ordering}
use unifieddataruntime.Base.Tests.{ltb, eqb, if◌then◌else◌}

abbrev pub digit : ℕ → String
digit d =
    if eqb d 0
    then "0"
    else if eqb d 1
    then "1"
    else if eqb d 2
    then "2"
    else if eqb d 3
    then "3"
    else if eqb d 4
    then "4"
    else if eqb d 5
    then "5"
    else if eqb d 6
    then "6"
    else if eqb d 7
    then "7"
    else if eqb d 8
    then "8"
    else "9"

unfoldable pub show_digits : ℕ → ℕ → String
show_digits zero n = ""
show_digits (suc fuel) n =
    let rest = show_digits fuel (n / 10) in
    if ltb n 10 then digit n else append rest (digit (n % 10))

-- A `u64` or `usize` has at most 20 decimal digits.
unfoldable pub show_u64 : ℕ → String
unfolding show_digits
show_u64 n = show_digits 20 n

abbrev pub text_leb : String → String → Bool
text_leb s t = elim (compare s t) [ Ordering.gt ↦ false | _ ↦ true ]

abbrev pub join : String → List String → String
join sep [] = ""
join sep (s ∷ []) = s
join sep (s ∷ ss) = append s (append sep (join sep ss))

-- `sort_by` on a text that each element has.
module _ {A : Type 0} (name : A → String) where
  abbrev pub insert_sorted : A → List A → List A
  insert_sorted a [] = a ∷ []
  insert_sorted a (b ∷ bs) =
      if text_leb (name a) (name b) then a ∷ b ∷ bs else b ∷ insert_sorted a bs

  abbrev pub sort_by_text : List A → List A
  sort_by_text [] = []
  sort_by_text (a ∷ as') = insert_sorted a (sort_by_text as')
