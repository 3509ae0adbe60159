-- ===== src/Prelude/Assoc.antt =====
-- A Go map with string keys, as an association list: a key stands once, a write to a key that is
-- there replaces its value.
use Prim.Native.Nat.{ℕ}
use mathlib.Core.Path.{◌≡◌, refl, sym, ◌∙◌}
use mathlib.Core.Logic.{inl, inr}
use mathlib.Core.Bool.{false}
use mathlib.Core.Option.{Option, none, some}
use mathlib.Core.List.{List, [], ◌∷◌}
use gps_data_receiver.Prelude.Tests.{if◌then◌else◌, Bool-cases}
use gps_data_receiver.Prelude.Text.{bytes_eq, bytes_eq→≡, bytes_eq_sym}

module _ {ℓ} {A : Type ℓ} where
  unfoldable pub lookup : List ℕ → List (List ℕ × A) → Option A
  lookup key [] = none
  lookup key (e ∷ m) = if bytes_eq key e.0 then some e.1 else lookup key m

  unfoldable pub insert : List ℕ → A → List (List ℕ × A) → List (List ℕ × A)
  insert key v [] = (key, v) ∷ []
  insert key v (e ∷ m) = if bytes_eq key e.0 then (key, v) ∷ m else e ∷ insert key v m

  unfoldable pub erase : List ℕ → List (List ℕ × A) → List (List ℕ × A)
  erase key [] = []
  erase key (e ∷ m) = if bytes_eq key e.0 then m else e ∷ erase key m

  pub lookup-insert :
      (j k : List ℕ) (v : A) (m : List (List ℕ × A))
      → lookup j (insert k v m) ≡ (if bytes_eq j k then some v else lookup j m)
  unfolding lookup insert
  lookup-insert j k v [] = refl
  lookup-insert j k v (e ∷ m) = elim (Bool-cases (bytes_eq k e.0)) [
    | inl same ↦ elim (Bool-cases (bytes_eq j k)) [
      | inl here ↦ rw same (rw here)
      | inr there ↦
          let k_is : k ≡ e.0 = bytes_eq→≡ k e.0 same in
          let far : bytes_eq j e.0 ≡ false = rw (sym k_is) there in rw same (rw there (rw far))
    ]
    | inr differ ↦ elim (Bool-cases (bytes_eq j e.0)) [
      | inl at_e ↦
          let j_is : j ≡ e.0 = bytes_eq→≡ j e.0 at_e in
          let far : bytes_eq j k ≡ false = rw j_is (bytes_eq_sym e.0 k ∙ differ) in
          rw differ (rw at_e (rw far))
      | inr past ↦ rw differ (rw past (lookup-insert j k v m))
    ]
  ]
