-- ===== src/Platform/Repository.antt =====
-- TypeORM's `Repository`, with the behaviour that the services rely on. A table is what its queries
-- see, so a soft deletion removes rows like a deletion does. A `where` clause is a test on rows.
pub mod Laws
use mediavault_backend.Prelude.{
  ℕ, ◌+◌, String, Bool, true, false, Option, none, some, List, ◌≡◌, ◌==◌, if◌then◌else◌, length,
  All,
}
use mathlib.Core.List.{Memᴰ}

-- `where: { id }`.
abbrev pub by_key : {Row : Type 0} → (Row → String) → String → Row → Bool
by_key key k r = key r == k

-- The row, unless the test deletes it.
abbrev pub unless : {Row : Type 0} → (Row → Bool) → Option Row → Option Row
unless p none = none
unless p (some r) = if p r then none else some r

-- The row, changed if it passes.
abbrev pub change_if : {Row : Type 0} → (Row → Bool) → (Row → Row) → Option Row → Option Row
change_if p f none = none
change_if p f (some r) = some (if p r then f r else r)

-- 1 if there is a row and it passes.
abbrev pub holds : {Row : Type 0} → (Row → Bool) → Option Row → ℕ
holds p none = 0
holds p (some r) = if p r then 1 else 0

pub record Repository (Row : Type 0) (key : Row → String) : Type 1 where
  pub Table : Type 0
  pub find_one : (Row → Bool) → Table → Option Row
  pub find : (Row → Bool) → Table → List Row
  pub count : (Row → Bool) → Table → ℕ
  pub save : Row → Table → Table
  pub delete : (Row → Bool) → Table → Table
  -- `update(where, change)`.
  pub update : (Row → Bool) → (Row → Row) → Table → Table
  -- A row that a query finds passes its test and is the row of its key.
  pub find_one-sound :
      (p : Row → Bool) (t : Table) (r : Row)
      → find_one p t ≡ some r
      → (p r ≡ true) × (find_one (by_key key (key r)) t ≡ some r)
  -- A query that finds nothing means that no row passes.
  pub find_one-complete :
      (p : Row → Bool) (t : Table) (k : String) (r : Row)
      → find_one p t ≡ none
      → find_one (by_key key k) t ≡ some r
      → p r ≡ false
  pub find-sound : (p : Row → Bool) (t : Table) → All (λ r. p r ≡ true) (find p t)
  -- A listed row is the row of its key.
  pub find-stored :
      (p : Row → Bool) (t : Table) → All (λ r. find_one (by_key key (key r)) t ≡ some r) (find p t)
  pub find-complete :
      (p : Row → Bool) (t : Table) (k : String) (r : Row)
      → find_one (by_key key k) t ≡ some r
      → p r ≡ true
      → Memᴰ r (find p t)
  pub count-find : (p : Row → Bool) (t : Table) → count p t ≡ length (find p t)
  -- A save adds the row or puts it in the place of the one with its key.
  pub count-save :
      (p : Row → Bool) (r : Row) (t : Table)
      → count p (save r t) + holds p (find_one (by_key key (key r)) t)
        ≡ count p t + (if p r then 1 else 0)
  pub count-delete :
      (p : Row → Bool) (k : String) (t : Table)
      → count p (delete (by_key key k) t) + holds p (find_one (by_key key k) t) ≡ count p t
  pub find_one-save :
      (k : String) (r : Row) (t : Table)
      → find_one (by_key key k) (save r t)
        ≡ (if key r == k then some r else find_one (by_key key k) t)
  pub find_one-delete :
      (k : String) (p : Row → Bool) (t : Table)
      → find_one (by_key key k) (delete p t) ≡ unless p (find_one (by_key key k) t)
  -- A change that leaves the key alone is made to the rows that pass.
  pub find_one-update :
      (k : String) (p : Row → Bool) (f : Row → Row) (t : Table)
      → ((r : Row) → key (f r) ≡ key r)
      → find_one (by_key key k) (update p f t) ≡ change_if p f (find_one (by_key key k) t)
