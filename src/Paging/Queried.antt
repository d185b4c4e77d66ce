-- ===== src/Paging/Queried.antt =====
-- The rows of a query in their order, over the laws of the repository and of the order.
use mathlib.Core.List.{Memᴰ}
use mediavault_backend.Prelude.{
  ℕ, ◌≤◌, String, Bool, true, false, List, [], ◌∷◌, ◌≡◌, sym, subst, arith,
}
use mediavault_backend.Platform.Repository.{Repository}
use mediavault_backend.Platform.Queries.{Queries, IsOrdered, newest}
use mediavault_backend.Paging.{page_rows}
use mediavault_backend.Paging.Pages.{page_rows-sound, All-Memᴰ}

module _ {Row : Type 0} {key : Row → String} (repo : Repository Row key) (q : Queries) where
  abbrev pub queried : (Row → Row → Bool) → (Row → Bool) → repo.Table → List Row
  queried before p t = q.order_by before (repo.find p t)

  pub queried-passes :
      (before : Row → Row → Bool) (p : Row → Bool) (t : repo.Table) (r : Row)
      → Memᴰ r (queried before p t)
      → p r ≡ true
  queried-passes before p t r m =
      All-Memᴰ (λ (s : Row). p s ≡ true) (repo.find p t) r (repo.find-sound p t)
        (q.order_by-sound before (repo.find p t) r m)

  -- A row on a page passes the test of the query.
  pub page-passes :
      (before : Row → Row → Bool) (p : Row → Bool) (t : repo.Table) (page limit : ℕ) (r : Row)
      → Memᴰ r (page_rows page limit (queried before p t))
      → p r ≡ true
  page-passes before p t page limit r m =
      queried-passes before p t r (page_rows-sound page limit (queried before p t) r m)

module _ {Row : Type 0} (time : Row → ℕ) where
  pub newest_total : (r s : Row) → newest time r s ≡ false → newest time s r ≡ true
  newest_total r s h = ground arith

  -- The first of rows with the newest first is the newest.
  pub newest_first :
      (r x : Row) (xs : List Row)
      → IsOrdered (newest time) (x ∷ xs)
      → Memᴰ r (x ∷ xs)
      → time r ≤ time x
  newest_first r x xs o (Memᴰ.head s) = subst (λ (y : Row). time y ≤ time x) (sym s) (omega arith)
  newest_first r x [] o (Memᴰ.tail m) = elim m [ ]
  newest_first r x (y ∷ ys) o (Memᴰ.tail m) =
      let below = newest_first r y ys o.1 m in ground (arith, o.0, below)
