-- ===== src/Std/Strings.antt =====
-- `sort.Strings`: the order of byte strings, and lists in it.
use marbles_game.Prelude.{
  All, Bool, Bool-cases, List, Str, [], ap, false, if◌then◌else◌, inl, inr, ltb, map, refl, true,
  ◌==◌, ◌∙◌, ◌∷◌, ◌≡◌,
}

-- `s <= t`
unfoldable pub str_le : Str → Str → Bool
str_le [] t = true
str_le (x ∷ xs) [] = false
str_le (x ∷ xs) (y ∷ ys) = let rest = str_le xs ys in if x == y then rest else ltb x y

module _ {ℓ} {A : Type ℓ} (key : A → Str) where
  unfoldable pub insert_by : A → List A → List A
  unfolding str_le
  insert_by x [] = x ∷ []
  insert_by x (y ∷ ys) =
      let rest = y ∷ insert_by x ys in if str_le (key x) (key y) then x ∷ y ∷ ys else rest

  unfoldable pub sort_by : List A → List A
  unfolding insert_by
  sort_by [] = []
  sort_by (x ∷ xs) = insert_by x (sort_by xs)

abbrev pub sort_strings : List Str → List Str
sort_strings = sort_by (λ s. s)

module _ {ℓ} {A : Type ℓ} (key : A → Str) where
  insert_by-map :
      (x : A) (ys : List A) → insert_by (λ s. s) (key x) (map key ys) ≡ map key (insert_by key x ys)
  unfolding insert_by
  insert_by-map x [] = refl
  insert_by-map x (y ∷ ys) = elim (Bool-cases (str_le (key x) (key y))) [
    | inl le ↦ rw le refl
    | inr gt ↦ rw gt (ap (λ l. key y ∷ l) (insert_by-map x ys))
  ]

  -- Sorting by a key sorts the keys.
  pub sort_strings-map : (xs : List A) → sort_strings (map key xs) ≡ map key (sort_by key xs)
  unfolding sort_by
  sort_strings-map [] = refl
  sort_strings-map (x ∷ xs) =
      ap (insert_by (λ s. s) (key x)) (sort_strings-map xs) ∙ insert_by-map x (sort_by key xs)

  All-insert_by {κ} :
      (P : A → Type κ) (x : A) (ys : List A) → P x → All P ys → All P (insert_by key x ys)
  unfolding insert_by
  All-insert_by P x [] px a = (px, tt)
  All-insert_by P x (y ∷ ys) px a = elim (Bool-cases (str_le (key x) (key y))) [
    | inl le ↦ rw le (px, a)
    | inr gt ↦ rw gt (a.0, All-insert_by P x ys px a.1)
  ]

  pub All-sort_by {κ} : (P : A → Type κ) (xs : List A) → All P xs → All P (sort_by key xs)
  unfolding sort_by
  All-sort_by P [] a = tt
  All-sort_by P (x ∷ xs) a = All-insert_by P x (sort_by key xs) a.0 (All-sort_by P xs a.1)
