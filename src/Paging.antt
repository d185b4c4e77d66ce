-- ===== src/Paging.antt =====
-- How the list methods cut their rows into pages: `skip((page - 1) * limit).take(limit)`, the number of
-- all rows, and the number of pages. Pages are about all of them together.
pub mod Pages
pub mod Queried
use mediavault_backend.Prelude.{
  ℕ, zero, suc, ◌+◌, ◌-◌, ◌*◌, ◌/◌, String, Bool, true, false, Option, none, some, List, [], ◌∷◌,
  ◌++◌, ◌==◌, ◌&&◌, if◌then◌else◌, eqb,
}

module _ {ℓ} {A : Type ℓ} where
  abbrev pub take : ℕ → List A → List A
  take zero xs = []
  take (suc n) [] = []
  take (suc n) (x ∷ xs) = x ∷ take n xs

  abbrev pub drop : ℕ → List A → List A
  drop zero xs = xs
  drop (suc n) [] = []
  drop (suc n) (x ∷ xs) = drop n xs

  -- The rows of a page; the first page is 1.
  abbrev pub page_rows : ℕ → ℕ → List A → List A
  page_rows page limit rows = take limit (drop ((page - 1) * limit) rows)

-- `Math.ceil(total / limit)`, for a limit above 0.
abbrev pub total_pages : ℕ → ℕ → ℕ
total_pages total limit = (total + (limit - 1)) / limit

-- An answer with `meta`.
pub record Paged {ℓ} (A : Type ℓ) : Type ℓ where
  pub rows : List A
  pub page : ℕ
  pub limit : ℕ
  pub total : ℕ

-- `if (filter) qb.andWhere(…)`: an absent or empty text is no condition.
abbrev pub when_given : Option String → (String → Bool) → Bool
when_given none test = true
when_given (some s) test = if s == "" then true else test s

-- `if (filter !== undefined) qb.andWhere(…)`, and a filter that is no text.
abbrev pub when_defined {ℓ} : {A : Type ℓ} → Option A → (A → Bool) → Bool
when_defined none test = true
when_defined (some a) test = test a

-- `column = :value`, which null does not pass, and the same for a flag.
abbrev pub equals : Option String → String → Bool
equals none k = false
equals (some s) k = s == k

abbrev pub same_flag : Bool → Bool → Bool
same_flag true b = b
same_flag false true = false
same_flag false false = true
