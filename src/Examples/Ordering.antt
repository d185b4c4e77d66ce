-- ===== src/Examples/Ordering.antt =====
-- The order of a query by insertion.
use mathlib.Core.List.{Memᴰ}
use Prim.Native.String as String
use mediavault_backend.Prelude.{
  suc, Bool, true, false, List, [], ◌∷◌, ◌≡◌, refl, ap, if◌then◌else◌, length, Bool-cases, inl, inr,
  ◌∙◌, ◌==◌,
}
use mediavault_backend.Platform.Queries.{Queries, IsOrdered}

module _ {Row : Type 0} (before : Row → Row → Bool) where
  abbrev pub place : Row → List Row → List Row
  place x [] = x ∷ []
  place x (y ∷ ys) = let rest = place x ys in if before x y then x ∷ y ∷ ys else y ∷ rest

  abbrev pub sort : List Row → List Row
  sort [] = []
  sort (x ∷ xs) = place x (sort xs)

  place-IsOrdered :
      ((r s : Row) → before r s ≡ false → before s r ≡ true)
      → (x : Row) (ys : List Row) → IsOrdered before ys
      → IsOrdered before (place x ys)
  place-IsOrdered total x [] o = tt
  place-IsOrdered total x (y ∷ []) o = elim (Bool-cases (before x y)) [
    | inl e ↦ rw e (e, tt)
    | inr e ↦ rw e (total x y e, tt)
  ]
  place-IsOrdered total x (y ∷ z ∷ zs) o = elim (Bool-cases (before x y)) [
    | inl e ↦ rw e (e, o)
    | inr e ↦
        let later = place-IsOrdered total x (z ∷ zs) o.1 in
        elim (Bool-cases (before x z)) [
          | inl f ↦ rw (e, f) (total x y e, (f, o.1))
          | inr f ↦ rw (e, f) (o.0, rw f at later)
        ]
  ]

  pub sort-IsOrdered :
      (xs : List Row)
      → ((r s : Row) → before r s ≡ false → before s r ≡ true)
      → IsOrdered before (sort xs)
  sort-IsOrdered [] total = tt
  sort-IsOrdered (x ∷ xs) total = place-IsOrdered total x (sort xs) (sort-IsOrdered xs total)

  weaken : (x y r : Row) (ys : List Row) → Memᴰ r (x ∷ ys) → Memᴰ r (x ∷ y ∷ ys)
  weaken x y r ys (Memᴰ.head s) = Memᴰ.head s
  weaken x y r ys (Memᴰ.tail m) = Memᴰ.tail (Memᴰ.tail m)

  under :
      (x y r : Row) (ys zs : List Row)
      → (Memᴰ r zs → Memᴰ r (x ∷ ys))
      → Memᴰ r (y ∷ zs)
      → Memᴰ r (x ∷ y ∷ ys)
  under x y r ys zs f (Memᴰ.head s) = Memᴰ.tail (Memᴰ.head s)
  under x y r ys zs f (Memᴰ.tail m) = weaken x y r ys (f m)

  place-sound : (x r : Row) (ys : List Row) → Memᴰ r (place x ys) → Memᴰ r (x ∷ ys)
  place-sound x r [] m = m
  place-sound x r (y ∷ ys) m = elim (Bool-cases (before x y)) [
    | inl e ↦ rw e at m
    | inr e ↦ under x y r ys (place x ys) (place-sound x r ys) (rw e at m)
  ]

  over :
      (x y r : Row) (ys zs : List Row)
      → (Memᴰ r (x ∷ ys) → Memᴰ r zs)
      → Memᴰ r (x ∷ y ∷ ys)
      → Memᴰ r (y ∷ zs)
  over x y r ys zs f (Memᴰ.head s) = Memᴰ.tail (f (Memᴰ.head s))
  over x y r ys zs f (Memᴰ.tail (Memᴰ.head s)) = Memᴰ.head s
  over x y r ys zs f (Memᴰ.tail (Memᴰ.tail m)) = Memᴰ.tail (f (Memᴰ.tail m))

  place-complete : (x r : Row) (ys : List Row) → Memᴰ r (x ∷ ys) → Memᴰ r (place x ys)
  place-complete x r [] m = m
  place-complete x r (y ∷ ys) m = elim (Bool-cases (before x y)) [
    | inl e ↦ rw e m
    | inr e ↦ rw e (over x y r ys (place x ys) (place-complete x r ys) m)
  ]

  carry :
      (x r : Row) (xs ys : List Row) → (Memᴰ r xs → Memᴰ r ys) → Memᴰ r (x ∷ xs) → Memᴰ r (x ∷ ys)
  carry x r xs ys f (Memᴰ.head s) = Memᴰ.head s
  carry x r xs ys f (Memᴰ.tail m) = Memᴰ.tail (f m)

  pub sort-sound : (xs : List Row) (r : Row) → Memᴰ r (sort xs) → Memᴰ r xs
  sort-sound [] r m = m
  sort-sound (x ∷ xs) r m = carry x r (sort xs) xs (sort-sound xs r) (place-sound x r (sort xs) m)

  pub sort-complete : (xs : List Row) (r : Row) → Memᴰ r xs → Memᴰ r (sort xs)
  sort-complete [] r m = m
  sort-complete (x ∷ xs) r m =
      place-complete x r (sort xs) (carry x r xs (sort xs) (sort-complete xs r) m)

  length-place : (x : Row) (ys : List Row) → length (place x ys) ≡ suc (length ys)
  length-place x [] = refl
  length-place x (y ∷ ys) = elim (Bool-cases (before x y)) [
    | inl e ↦ rw e refl
    | inr e ↦ rw e (ap suc (length-place x ys))
  ]

  pub length-sort : (xs : List Row) → length (sort xs) ≡ length xs
  length-sort [] = refl
  length-sort (x ∷ xs) = length-place x (sort xs) ∙ ap suc (length-sort xs)

-- A value matches the pattern of the whole value.
abbrev pub sorted_queries : Queries
sorted_queries = record {
  order_by = sort;
  order_by-IsOrdered = sort-IsOrdered;
  order_by-sound = sort-sound;
  order_by-complete = sort-complete;
  length-order_by = length-sort;
  ilike = λ value pattern. pattern == String.◌++◌ "%" (String.◌++◌ value "%");
  to_lower_case = λ s. s;
}
