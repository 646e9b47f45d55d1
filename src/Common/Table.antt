-- ===== src/Common/Table.antt =====
-- A database table as the list of its rows, each with a primary key.
use Prim.Native.Nat.{ℕ}
use Prim.Native.String.{String}
use mathlib.Core.Path.{◌≡◌}
use mathlib.Core.Logic.{◌↔◌}
use mathlib.Core.Bool.{Bool, true}
use mathlib.Core.Option.{Option, none, some}
use mathlib.Core.List.{List, [], ◌∷◌}
use native.Mathlib.Omega.{arith}
use text.Mathlib.Text.{◌==◌ as str_eq}
use text.Mathlib.TextEquality.{eq_iff}
use sitescore.Common.Tests.{◌==◌, if◌then◌else◌}

-- Keys that can be compared.
pub record Eq {ℓ} (K : Type ℓ) : Type ℓ where
  pub beq : K → K → Bool
  pub beq_iff : (a b : K) → (beq a b ≡ true) ↔ (a ≡ b)

pub nat_beq_iff : (a b : ℕ) → ((a == b) ≡ true) ↔ (a ≡ b)
nat_beq_iff a b = ground arith

instance abbrev pub nat_eq : Eq ℕ
nat_eq = record { beq = λ a b. a == b; beq_iff = nat_beq_iff }

instance abbrev pub string_eq : Eq String
string_eq = record { beq = str_eq; beq_iff = eq_iff }

module _ {ℓ κ} {A : Type ℓ} {K : Type κ} ⦃e : Eq K⦄ (key : A → K) where
  -- The first row with the key `k`.
  abbrev pub find : K → List A → Option A
  find k [] = none
  find k (r ∷ rs) = if e.beq (key r) k then some r else find k rs

  -- The row with the key of `new` is replaced by `new`.
  abbrev pub put : A → List A → List A
  put new [] = []
  put new (r ∷ rs) = if e.beq (key r) (key new) then new ∷ rs else r ∷ put new rs

  pub find_key : (k : K) (rs : List A) (r : A) → find k rs ≡ some r → key r ≡ k
  find_key k [] r h = ground arith
  find_key k (x ∷ rs) r h = ground (arith, e.beq_iff (key x) k, find_key k rs r)

  -- A row that is written is found under its key, and every other row as before.
  pub find-put :
      (k : K) (new : A) (rs : List A) (r : A)
      → find (key new) rs ≡ some r
      → find k (put new rs) ≡ (if e.beq (key new) k then some new else find k rs)
  find-put k new [] r h = ground arith
  find-put k new (x ∷ rs) r h = ground (
    arith,
    e.beq_iff (key x) (key new),
    e.beq_iff (key x) k,
    e.beq_iff (key new) k,
    find-put k new rs r,
  )
