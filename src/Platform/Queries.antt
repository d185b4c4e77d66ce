-- ===== src/Platform/Queries.antt =====
-- TypeORM's query builder as the list methods use it: the order of the rows, and PostgreSQL's ILIKE.
-- A query's rows in their order do not depend on the page that is asked for.
use mathlib.Core.List.{Memᴰ}
use Prim.Native.String as String
use mediavault_backend.Prelude.{
  ℕ, String, Bool, true, false, Option, none, some, List, [], ◌∷◌, ◌≡◌, length, leb,
}

-- Neighbours stand in the order.
abbrev pub IsOrdered : {Row : Type 0} → (Row → Row → Bool) → List Row → Type 0
IsOrdered before [] = Unit
IsOrdered before (r ∷ []) = Unit
IsOrdered before (r ∷ s ∷ rs) = (before r s ≡ true) × IsOrdered before (s ∷ rs)

pub record Queries : Type 1 where
  -- `orderBy`, by a test whether a row may stand before another.
  pub order_by : {Row : Type 0} → (Row → Row → Bool) → List Row → List Row
  pub order_by-IsOrdered :
      {Row : Type 0} (before : Row → Row → Bool) (rs : List Row)
      → ((r s : Row) → before r s ≡ false → before s r ≡ true)
      → IsOrdered before (order_by before rs)
  pub order_by-sound :
      {Row : Type 0} (before : Row → Row → Bool) (rs : List Row) (r : Row)
      → Memᴰ r (order_by before rs)
      → Memᴰ r rs
  pub order_by-complete :
      {Row : Type 0} (before : Row → Row → Bool) (rs : List Row) (r : Row)
      → Memᴰ r rs
      → Memᴰ r (order_by before rs)
  pub length-order_by :
      {Row : Type 0} (before : Row → Row → Bool) (rs : List Row)
      → length (order_by before rs) ≡ length rs
  -- `value ILIKE pattern`, and `toLowerCase()`.
  pub ilike : String → String → Bool
  pub to_lower_case : String → String

-- `ORDER BY time DESC`, and with nulls, which come first.
abbrev pub newest : {Row : Type 0} → (Row → ℕ) → Row → Row → Bool
newest time r s = leb (time s) (time r)

abbrev pub later_or_null : Option ℕ → Option ℕ → Bool
later_or_null none t = true
later_or_null (some a) none = false
later_or_null (some a) (some b) = leb b a

abbrev pub newest_or_null : {Row : Type 0} → (Row → Option ℕ) → Row → Row → Bool
newest_or_null time r s = later_or_null (time r) (time s)

-- `column ILIKE '%search%'`, which null does not pass, and the same without regard to letter case.
abbrev pub like : Queries → String → Option String → Bool
like q search none = false
like q search (some s) = q.ilike s (String.◌++◌ "%" (String.◌++◌ search "%"))

abbrev pub lower_like : Queries → String → String → Bool
lower_like q search s = like q (q.to_lower_case search) (some (q.to_lower_case s))
