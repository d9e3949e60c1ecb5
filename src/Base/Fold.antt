-- ===== src/Base/Fold.antt =====
-- Steps that commute: running a list of them from a state does not depend on the order. The relation
-- `Same` says when two states count as one; the steps have to fit, and the states to be good.
use mathlib.Core.Path.{◌≡◌, refl, subst}
use mathlib.Core.List.{List, [], ◌∷◌, ◌++◌, Permᴰ}
use unifieddataruntime.Base.Lists.{All}

pub record Commuting : Type 1 where
  pub State : Type 0
  pub Step : Type 0
  pub step : State → Step → State
  pub Good : State → Type 0
  pub Fits : Step → Type 0
  pub Same : State → State → Type 0
  pub same_refl : (s : State) → Same s s
  pub same_trans : (s t u : State) → Same s t → Same t u → Same s u
  pub keep : (s : State) (w : Step) → Good s → Fits w → Good (step s w)
  pub cong :
      (s t : State) (w : Step) → Good s → Good t → Fits w → Same s t → Same (step s w) (step t w)
  pub commute :
      (s : State) (v w : Step)
      → Good s
      → Fits v
      → Fits w
      → Same (step (step s v) w) (step (step s w) v)

pub All-perm {ℓ κ} :
    {A : Type ℓ} (P : A → Type κ) {xs ys : List A} → Permᴰ xs ys → All P xs → All P ys
All-perm P Permᴰ.nil h = tt
All-perm P (Permᴰ.cons e p) h = (subst P e h.0, All-perm P p h.1)
All-perm P (Permᴰ.swap e f) h = (subst P f h.1.0, (subst P e h.0, h.1.1))
All-perm P (Permᴰ.trans p q) h = All-perm P q (All-perm P p h)

module _ (c : Commuting) where
  open c use {State, Step, step, Good, Fits, Same, same_refl, same_trans, keep, cong, commute}

  abbrev pub run : State → List Step → State
  run s [] = s
  run s (w ∷ ws) = run (step s w) ws

  pub run-Good : (s : State) (ws : List Step) → Good s → All Fits ws → Good (run s ws)
  run-Good s [] g h = g
  run-Good s (w ∷ ws) g h = run-Good (step s w) ws (keep s w g h.0) h.1

  pub run-cong :
      (s t : State) (ws : List Step)
      → Good s
      → Good t
      → All Fits ws
      → Same s t
      → Same (run s ws) (run t ws)
  run-cong s t [] g k h e = e
  run-cong s t (w ∷ ws) g k h e =
      run-cong (step s w) (step t w) ws (keep s w g h.0) (keep t w k h.0) h.1 (cong s t w g k h.0 e)

  pub run-perm :
      (s : State) {vs ws : List Step}
      → Permᴰ vs ws
      → Good s
      → All Fits vs
      → Same (run s vs) (run s ws)
  run-perm s Permᴰ.nil g h = same_refl s
  run-perm s (Permᴰ.cons {a} {b} {l₁ = vs} {l₂ = ws} e p) g h =
      rw (← e) (run-perm (step s a) p (keep s a g h.0) h.1)
  run-perm s (Permᴰ.swap {a} {b} {l = ws} e f) g h =
      rw (← e, ← f)
        (run-cong (step (step s a) b) (step (step s b) a) ws
          (keep (step s a) b (keep s a g h.0) h.1.0) (keep (step s b) a (keep s b g h.1.0) h.0)
          h.1.1 (commute s a b g h.0 h.1.0))
  run-perm s (Permᴰ.trans {l₁ = us} {l₂ = vs} {l₃ = ws} p q) g h =
      same_trans (run s us) (run s vs) (run s ws) (run-perm s p g h)
        (run-perm s q g (All-perm Fits p h))

  pub run-append : (s : State) (vs ws : List Step) → run s (vs ++ ws) ≡ run (run s vs) ws
  run-append s [] ws = refl
  run-append s (v ∷ vs) ws = run-append (step s v) vs ws
