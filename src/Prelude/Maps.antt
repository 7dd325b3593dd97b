-- ===== src/Prelude/Maps.antt =====
-- Go maps as association lists with one entry for each key. Programs read them by key, so the
-- order of the entries carries no meaning.
use mathlib.Core.Path.{◌≡◌, refl, ap}
use mathlib.Core.Logic.{inl, inr}
use mathlib.Core.List.{List, [], ◌∷◌}
use mathlib.Core.Option.{Option, none, some}
use native.Mathlib.Omega.{arith}
use otelcol_receiver_canopen.Prelude.Tests.{Keyed, ◌==◌, if◌then◌else◌, Bool-cases, beq_self}

abbrev pub Map {ℓ κ} : Type ℓ → Type κ → Type (ℓ ⊔ κ)
Map K V = List (K × V)

module _ {ℓ κ} {K : Type ℓ} ⦃e : Keyed K⦄ {V : Type κ} where
  unfoldable pub lookup : K → Map K V → Option V
  lookup k [] = none
  lookup k ((j, v) ∷ m) = if j == k then some v else lookup k m

  unfoldable pub delete : K → Map K V → Map K V
  delete k [] = []
  delete k ((j, v) ∷ m) = let rest = delete k m in if j == k then rest else (j, v) ∷ rest

  unfoldable pub insert : K → V → Map K V → Map K V
  insert k v m = (k, v) ∷ delete k m

  pub lookup-delete :
      (k j : K) (m : Map K V) → lookup j (delete k m) ≡ (if k == j then none else lookup j m)
  unfolding lookup delete
  lookup-delete k j [] = ground arith
  lookup-delete k j ((i, v) ∷ m) =
      ground
        (arith, lookup-delete k j m, e.same_key_iff i k, e.same_key_iff i j, e.same_key_iff k j)

  pub lookup-insert :
      (k j : K) (v : V) (m : Map K V)
      → lookup j (insert k v m) ≡ (if k == j then some v else lookup j m)
  unfolding lookup insert
  lookup-insert k j v m = ground (arith, lookup-delete k j m)

  pub lookup-insert_self : (k : K) (v : V) (m : Map K V) → lookup k (insert k v m) ≡ some v
  unfolding lookup insert
  lookup-insert_self k v m = rw (beq_self k)

  pub delete-delete : (k : K) (m : Map K V) → delete k (delete k m) ≡ delete k m
  unfolding delete
  delete-delete k [] = refl
  delete-delete k ((j, v) ∷ m) = elim (Bool-cases (j == k)) [
    | inl p ↦ rw p (delete-delete k m)
    | inr p ↦ rw p (rw p (ap (◌∷◌ (j, v)) (delete-delete k m)))
  ]

  pub delete-insert : (k : K) (v : V) (m : Map K V) → delete k (insert k v m) ≡ delete k m
  unfolding insert
  delete-insert k v m = unfold delete in rw (beq_self k) (delete-delete k m)

  pub insert-insert : (k : K) (v w : V) (m : Map K V) → insert k w (insert k v m) ≡ insert k w m
  insert-insert k v w m = unfold insert in ap (◌∷◌ (k, w)) (delete-insert k v m)
