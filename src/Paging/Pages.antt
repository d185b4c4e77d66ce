-- ===== src/Paging/Pages.antt =====
-- All pages of a list together are the list.
use mediavault_backend.Prelude.{
  All, ℕ, zero, suc, ◌+◌, ◌-◌, ◌*◌, ◌≤◌, ◌<◌, List, [], ◌∷◌, ◌++◌, ◌≡◌, refl, ap, sym, subst, ◌∙◌,
  arith, length, map,
}
use mediavault_backend.Paging.{take, drop, page_rows, total_pages, Paged}
use mathlib.Core.List.{Memᴰ}

module _ {ℓ} {A : Type ℓ} where
  take-add : (m n k : ℕ) (xs : List A) → k ≡ m + n → take m xs ++ take n (drop m xs) ≡ take k xs
  take-add zero n k xs e = ap (λ (j : ℕ). take j xs) (omega arith)
  take-add (suc m) n zero xs e = absurd (omega arith)
  take-add (suc m) zero (suc k) [] e = refl
  take-add (suc m) (suc n) (suc k) [] e = refl
  take-add (suc m) n (suc k) (x ∷ xs) e =
      ap (λ (l : List A). x ∷ l) (take-add m n k xs (omega arith))

  take_all : (n : ℕ) (xs : List A) → length xs ≤ n → take n xs ≡ xs
  take_all zero [] h = refl
  take_all zero (x ∷ xs) h = absurd (omega arith)
  take_all (suc n) [] h = refl
  take_all (suc n) (x ∷ xs) h = ap (λ (l : List A). x ∷ l) (take_all n xs (omega arith))

  pub length-take : (n : ℕ) (xs : List A) → length (take n xs) ≤ n
  length-take zero xs = omega arith
  length-take (suc n) [] = omega arith
  length-take (suc n) (x ∷ xs) = omega (arith, length-take n xs)

  pub length-page_rows : (page limit : ℕ) (xs : List A) → length (page_rows page limit xs) ≤ limit
  length-page_rows page limit xs = length-take limit (drop ((page - 1) * limit) xs)

  -- The first `n` pages, one after the other.
  abbrev pub pages : ℕ → ℕ → List A → List A
  pages zero limit xs = []
  pages (suc n) limit xs = pages n limit xs ++ page_rows (suc n) limit xs

  pages-take : (n limit : ℕ) (xs : List A) → pages n limit xs ≡ take (n * limit) xs
  pages-take zero limit xs = ap (λ (j : ℕ). take j xs) {x = 0} {y = 0 * limit} (grind arith)
  pages-take (suc n) limit xs =
      ap (λ (l : List A). l ++ page_rows (suc n) limit xs) (pages-take n limit xs)
      ∙ ap (λ (j : ℕ). take (n * limit) xs ++ take limit (drop j xs)) {x = (suc n - 1) * limit}
          {y = n * limit} (grind arith)
      ∙ take-add (n * limit) limit (suc n * limit) xs (grind arith)

enough_pages : (total limit : ℕ) → 0 < limit → total ≤ total_pages total limit * limit
enough_pages total limit h = grind arith

-- As many pages as the number of pages says hold all rows, in their order.
pages_all {ℓ} :
    {A : Type ℓ} (limit : ℕ) (xs : List A)
    → 0 < limit
    → pages (total_pages (length xs) limit) limit xs ≡ xs
pages_all limit xs h =
    pages-take (total_pages (length xs) limit) limit xs
    ∙ take_all (total_pages (length xs) limit * limit) xs (enough_pages (length xs) limit h)

-- What a caller who asks for the pages one after the other gets.
abbrev pub answers {ℓ} : {A : Type ℓ} → (ℕ → Paged A) → ℕ → List A
answers ask zero = []
answers ask (suc n) = answers ask n ++ (ask (suc n)).rows

module _ {ℓ κ} {A : Type ℓ} {B : Type κ} where
  pub map-append : (f : A → B) (xs ys : List A) → map f (xs ++ ys) ≡ map f xs ++ map f ys
  map-append f [] ys = refl
  map-append f (x ∷ xs) ys = ap (λ (l : List B). f x ∷ l) (map-append f xs ys)

  answers-pages :
      (view : A → B) (ask : ℕ → Paged B) (limit n : ℕ) (rows : List A)
      → ((page : ℕ) → (ask page).rows ≡ map view (page_rows page limit rows))
      → answers ask n ≡ map view (pages n limit rows)
  answers-pages view ask limit zero rows h = refl
  answers-pages view ask limit (suc n) rows h =
      simp (answers-pages view ask limit n rows h, h (suc n), map-append)

  -- If each page shows the rows of that page, as many pages as there are show all rows, once each
  -- and in their order.
  pub answers_all :
      (view : A → B) (ask : ℕ → Paged B) (limit : ℕ) (rows : List A)
      → 0 < limit
      → ((page : ℕ) → (ask page).rows ≡ map view (page_rows page limit rows))
      → answers ask (total_pages (length rows) limit) ≡ map view rows
  answers_all view ask limit rows p h =
      answers-pages view ask limit (total_pages (length rows) limit) rows h
      ∙ ap (map view) (pages_all limit rows p)

module _ {ℓ κ} {A : Type ℓ} where
  pub All-Memᴰ : (P : A → Type κ) (xs : List A) (x : A) → All P xs → Memᴰ x xs → P x
  All-Memᴰ P [] x h m = elim m [ ]
  All-Memᴰ P (y ∷ ys) x h (Memᴰ.head s) = subst P (sym s) h.0
  All-Memᴰ P (y ∷ ys) x h (Memᴰ.tail m) = All-Memᴰ P ys x h.1 m

module _ {A : Type 0} where
  pub take-sound : (n : ℕ) (xs : List A) (x : A) → Memᴰ x (take n xs) → Memᴰ x xs
  take-sound zero xs x m = elim m [ ]
  take-sound (suc n) [] x m = elim m [ ]
  take-sound (suc n) (y ∷ ys) x (Memᴰ.head s) = Memᴰ.head s
  take-sound (suc n) (y ∷ ys) x (Memᴰ.tail m) = Memᴰ.tail (take-sound n ys x m)

  drop-sound : (n : ℕ) (xs : List A) (x : A) → Memᴰ x (drop n xs) → Memᴰ x xs
  drop-sound zero xs x m = m
  drop-sound (suc n) [] x m = elim m [ ]
  drop-sound (suc n) (y ∷ ys) x m = Memᴰ.tail (drop-sound n ys x m)

  -- A row on a page is one of the rows.
  pub page_rows-sound :
      (page limit : ℕ) (xs : List A) (x : A) → Memᴰ x (page_rows page limit xs) → Memᴰ x xs
  page_rows-sound page limit xs x m =
      drop-sound ((page - 1) * limit) xs x (take-sound limit (drop ((page - 1) * limit) xs) x m)

pub All-map {ℓ} :
    {A B : Type 0} (P : B → Type ℓ) (f : A → B) (xs : List A)
    → ((x : A) → Memᴰ x xs → P (f x))
    → All P (map f xs)
All-map P f [] h = tt
All-map P f (x ∷ xs) h = (h x (Memᴰ.head refl), All-map P f xs (λ y m. h y (Memᴰ.tail m)))

pub map_self {ℓ} : {A : Type ℓ} (xs : List A) → map (λ (x : A). x) xs ≡ xs
map_self [] = refl
map_self (x ∷ xs) = ap (λ l. x ∷ l) (map_self xs)

pub length-map {ℓ κ} :
    {A : Type ℓ} {B : Type κ} (f : A → B) (xs : List A) → length (map f xs) ≡ length xs
length-map f [] = refl
length-map f (x ∷ xs) = ap suc (length-map f xs)
