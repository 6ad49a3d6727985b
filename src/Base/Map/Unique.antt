-- ===== src/Base/Map/Unique.antt =====
-- Maps whose keys are distinct, as those of a `HashMap` are.
use Prim.Native.Nat.{suc}
use mathlib.Core.Path.{◌≡◌, refl, ap}
use mathlib.Core.Logic.{inl, inr, ◌≢◌}
use mathlib.Core.Bool.{Bool, false}
use mathlib.Core.List.{[], ◌∷◌}
use mathlib.Core.Option.{Option, none, some}
use native.Mathlib.Omega.{arith}
use holdfast.Base.Tests.{if◌then◌else◌, Bool-cases}
use holdfast.Base.Lists.{length, retain}
use holdfast.Base.Map.{Eq, Map, get, insert, remove}

module _ {ℓ κ} {K : Type ℓ} {V : Type κ} ⦃e : Eq K⦄ where
  -- The key is not in the map.
  abbrev pub Lacks : K → Map K V → Type (ℓ ⊔ κ)
  Lacks k [] = Unit
  Lacks k ((j, v) ∷ m) = (e.beq j k ≡ false) × Lacks k m

  abbrev pub IsUnique : Map K V → Type (ℓ ⊔ κ)
  IsUnique [] = Unit
  IsUnique ((j, v) ∷ m) = Lacks j m × IsUnique m

  pub Lacks-get : (m : Map K V) (k : K) → Lacks k m → get m k ≡ none
  unfolding get
  Lacks-get [] k h = refl
  Lacks-get ((j, v) ∷ m) k h = ground (arith, h.0, Lacks-get m k h.1)

  pub Lacks-insert :
      (m : Map K V) (j k : K) (v : V) → e.beq j k ≡ false → Lacks k m → Lacks k (insert m j v)
  unfolding insert
  Lacks-insert [] j k v ne h = (ne, h)
  Lacks-insert ((i, w) ∷ m) j k v ne h = elim (Bool-cases (e.beq i j)) [
    | inl same ↦ rw (same, insert) (ne, h.1)
    | inr other ↦ rw (other, insert) (h.0, Lacks-insert m j k v ne h.1)
  ]

  pub IsUnique-insert : (m : Map K V) (k : K) (v : V) → IsUnique m → IsUnique (insert m k v)
  unfolding insert
  IsUnique-insert [] k v u = (tt, tt)
  IsUnique-insert ((i, w) ∷ m) k v u = elim (Bool-cases (e.beq i k)) [
    | inl same ↦ rw (same, insert) (rw ((e.beq_iff i k).0 same) at u.0, u.1)
    | inr other ↦
        rw (other, insert)
          (
            Lacks-insert m k i v (ground (arith, e.beq_iff i k, e.beq_iff k i)) u.0,
            IsUnique-insert m k v u.1,
          )
  ]

  pub Lacks-remove : (m : Map K V) (j k : K) → Lacks k m → Lacks k (remove m j)
  unfolding remove
  Lacks-remove [] j k h = tt
  Lacks-remove ((i, w) ∷ m) j k h = elim (Bool-cases (e.beq i j)) [
    | inl same ↦ rw (same, remove) (Lacks-remove m j k h.1)
    | inr other ↦ rw (other, remove) (h.0, Lacks-remove m j k h.1)
  ]

  pub IsUnique-remove : (m : Map K V) (k : K) → IsUnique m → IsUnique (remove m k)
  unfolding remove
  IsUnique-remove [] k u = tt
  IsUnique-remove ((i, w) ∷ m) k u = elim (Bool-cases (e.beq i k)) [
    | inl same ↦ rw (same, remove) (IsUnique-remove m k u.1)
    | inr other ↦ rw (other, remove) (Lacks-remove m k i u.0, IsUnique-remove m k u.1)
  ]

  pub Lacks-retain : (p : K × V → Bool) (m : Map K V) (k : K) → Lacks k m → Lacks k (retain p m)
  Lacks-retain p [] k h = tt
  Lacks-retain p ((i, w) ∷ m) k h = elim (Bool-cases (p (i, w))) [
    | inl yes_p ↦ rw yes_p (h.0, Lacks-retain p m k h.1)
    | inr no_p ↦ rw no_p (Lacks-retain p m k h.1)
  ]

  pub IsUnique-retain : (p : K × V → Bool) (m : Map K V) → IsUnique m → IsUnique (retain p m)
  IsUnique-retain p [] u = tt
  IsUnique-retain p ((i, w) ∷ m) u = elim (Bool-cases (p (i, w))) [
    | inl yes_p ↦ rw yes_p (Lacks-retain p m i u.0, IsUnique-retain p m u.1)
    | inr no_p ↦ rw no_p (IsUnique-retain p m u.1)
  ]

  -- The entry of a key after `retain`.
  abbrev pub kept : (K × V → Bool) → K → Option V → Option V
  kept p k none = none
  kept p k (some v) = if p (k, v) then some v else none

  pub get-retain :
      (p : K × V → Bool) (m : Map K V) (k : K)
      → IsUnique m
      → get (retain p m) k ≡ kept p k (get m k)
  unfolding get
  get-retain p [] k u = refl
  get-retain p ((i, w) ∷ m) k u = elim (Bool-cases (e.beq i k)) [
    | inl same ↦
        let at : i ≡ k = (e.beq_iff i k).0 same in
        ground (arith, same, at, Lacks-get (retain p m) i (Lacks-retain p m i u.0))
    | inr other ↦ ground (arith, other, get-retain p m k u.1)
  ]

  pub length-remove_absent : (m : Map K V) (k : K) → Lacks k m → length (remove m k) ≡ length m
  unfolding remove
  length-remove_absent [] k h = refl
  length-remove_absent ((i, w) ∷ m) k h = ground (arith, h.0, length-remove_absent m k h.1)

  -- Removing a key that is there makes the map shorter by one.
  pub length-remove :
      (m : Map K V) (k : K) → IsUnique m → get m k ≢ none → suc (length (remove m k)) ≡ length m
  unfolding get remove
  length-remove [] k u h = absurd (h refl)
  length-remove ((i, w) ∷ m) k u h = elim (Bool-cases (e.beq i k)) [
    | inl same ↦
        let at : i ≡ k = (e.beq_iff i k).0 same in
        rw same (ap suc (length-remove_absent m k (rw at at u.0)))
    | inr other ↦ rw other (ap suc (length-remove m k u.1 (rw other at h)))
  ]
