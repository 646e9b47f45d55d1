-- ===== src/Common/Members.antt =====
-- The rows of a table, as the members of its list.
use mathlib.Core.Path.{◌≡◌}
use mathlib.Core.Logic.{◌⊎◌, inr}
use mathlib.Core.Option.{some}
use mathlib.Core.List.{List, [], ◌∷◌}
use native.Mathlib.Omega.{arith}
use sitescore.Common.Table.{Eq, find, put}

abbrev pub Member : {A : Type 0} → A → List A → Type 0
Member x [] = ⊥
Member x (y ∷ ys) = (x ≡ y) ⊎ Member x ys

module _ {A K : Type 0} ⦃e : Eq K⦄ (key : A → K) where
  -- A row that is found is in the table.
  pub find-Member : (k : K) (rs : List A) (r : A) → find key k rs ≡ some r → Member r rs
  find-Member k [] r h = ground arith
  find-Member k (x ∷ rs) r h = ground (arith, find-Member k rs r)

  -- After a write, a row is the new one or was there before.
  pub put-Member :
      (new : A) (rs : List A) (x : A) → Member x (put key new rs) → (x ≡ new) ⊎ Member x rs
  put-Member new [] x h = inr h
  put-Member new (r ∷ rs) x h = ground (arith, put-Member new rs x)

  -- A write leaves every row but the one that it replaces.
  pub put_rest :
      (new : A) (rs : List A) (old x : A)
      → find key (key new) rs ≡ some old
      → Member x rs
      → (x ≡ old) ⊎ Member x (put key new rs)
  put_rest new [] old x f h = inr h
  put_rest new (r ∷ rs) old x f h = ground (arith, put_rest new rs old x)

  pub put_new :
      (new : A) (rs : List A) (old : A)
      → find key (key new) rs ≡ some old
      → Member new (put key new rs)
  put_new new [] old f = ground arith
  put_new new (r ∷ rs) old f = ground (arith, put_new new rs old)
