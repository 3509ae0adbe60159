-- ===== src/Storage/Invalid/Order.antt =====
-- internal/storage/postgres.go: the order `ORDER BY created_at DESC` of rows with different times.
use mathlib.Core.List.{Memᴰ}
use mathlib.Core.List.Memᴰ.{head, tail}
use gps_data_receiver.Prelude.{ℕ, ◌<◌, ◌≡◌, refl, sym, ap, ◌∙◌, subst, List, [], ◌∷◌, All, arith}

-- The same rows, in any order.
abbrev pub SameRows : {A : Type 0} → List A → List A → Type 0
SameRows {A = A} xs ys = ((x : A) → Memᴰ x xs → Memᴰ x ys) × ((x : A) → Memᴰ x ys → Memᴰ x xs)

module _ {A : Type 0} (created_at : A → ℕ) where
  -- The newest first, no two of one time.
  abbrev pub NewestFirst : List A → Type 0
  NewestFirst [] = Unit
  NewestFirst (x ∷ xs) = All (λ (y : A). created_at y < created_at x) xs × NewestFirst xs

  older :
      (x y : A) (xs : List A)
      → All (λ (z : A). created_at z < created_at x) xs
      → Memᴰ y xs
      → created_at y < created_at x
  older x y [] h m = elim m [ ]
  older x y (z ∷ xs) (h, hs) (head e) = subst (λ (w : A). created_at w < created_at x) (sym e) h
  older x y (z ∷ xs) (h, hs) (tail m) = older x y xs hs m

  -- The rows behind the first one stand behind the first of the other list too.
  behind :
      (x y : A) (xs ys : List A)
      → x ≡ y
      → All (λ (z : A). created_at z < created_at x) xs
      → ((z : A) → Memᴰ z (x ∷ xs) → Memᴰ z (y ∷ ys))
      → (z : A) → Memᴰ z xs
      → Memᴰ z ys
  behind x y xs ys same old to z m = by_place (to z (tail m))
    where
      by_place : Memᴰ z (y ∷ ys) → Memᴰ z ys
      by_place (tail n) = n
      by_place (head e) =
          let younger = older x z xs old m in
          let time : created_at z ≡ created_at x = ap created_at (e ∙ sym same) in
          absurd (omega arith)

  first_rows :
      (x y : A) (xs ys : List A)
      → NewestFirst (x ∷ xs)
      → NewestFirst (y ∷ ys)
      → Memᴰ x (y ∷ ys)
      → Memᴰ y (x ∷ xs)
      → x ≡ y
  first_rows x y xs ys hx hy (head e) n = e
  first_rows x y xs ys hx hy (tail m) (head e) = sym e
  first_rows x y xs ys (old_x, hx) (old_y, hy) (tail m) (tail n) =
      let before = older y x ys old_y m in let after = older x y xs old_x n in absurd (omega arith)

  -- There is one such order.
  pub NewestFirst-unique :
      (xs ys : List A) → NewestFirst xs → NewestFirst ys → SameRows xs ys → xs ≡ ys
  NewestFirst-unique [] [] hx hy same = refl
  NewestFirst-unique [] (y ∷ ys) hx hy (to, from) = elim (from y (head refl)) [ ]
  NewestFirst-unique (x ∷ xs) [] hx hy (to, from) = elim (to x (head refl)) [ ]
  NewestFirst-unique (x ∷ xs) (y ∷ ys) (old_x, hx) (old_y, hy) (to, from) =
      let first : x ≡ y =
        first_rows x y xs ys (old_x, hx) (old_y, hy) (to x (head refl)) (from y (head refl)) in
      let rest : xs ≡ ys =
        NewestFirst-unique xs ys hx hy
          (behind x y xs ys first old_x to, behind y x ys xs (sym first) old_y from) in
      λ i. first i ∷ rest i
