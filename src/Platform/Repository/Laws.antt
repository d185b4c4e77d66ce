-- ===== src/Platform/Repository/Laws.antt =====
-- Consequences of the repository's laws: queries that determine the key.
use mediavault_backend.Prelude.{
  String, Bool, true, false, Option, none, some, ◌≡◌, arith, Option-cases, inl, inr, eq_iff, ap,
  sym, ◌∙◌,
}
use mediavault_backend.Platform.Repository.{Repository, by_key, unless}

module _ {Row : Type 0} {key : Row → String} (repo : Repository Row key) where
  open repo use {Table, delete, find_one-delete, find_one, find_one-sound, find_one-complete}

  -- A row that is found is the row of its key.
  pub find_one-key :
      (t : Table) (k : String) (r : Row) → find_one (by_key key k) t ≡ some r → key r ≡ k
  find_one-key t k r e = (eq_iff (key r) k).0 ((find_one-sound (by_key key k) t r e).0)

  -- A query whose rows all have the key `k` finds the row of `k`, if that passes.
  pub find_one_unique :
      (p : Row → Bool) (t : Table) (k : String) (r : Row)
      → find_one (by_key key k) t ≡ some r
      → p r ≡ true
      → ((s : Row) → p s ≡ true → key s ≡ k)
      → find_one p t ≡ some r
  find_one_unique p t k r e h only = elim (Option-cases (find_one p t)) [
    | inl missing ↦ absurd (ground (arith, find_one-complete p t k r missing e))
    | inr (s, found) ↦
        let (passes, here) = find_one-sound p t s found in
        let same = ap (λ (j : String). find_one (by_key key j) t) (only s passes) in
        ground (arith, found, here, same, e)
  ]

  -- It finds nothing, if there is none.
  find_one-absent :
      (p : Row → Bool) (t : Table) (k : String)
      → find_one (by_key key k) t ≡ none
      → ((s : Row) → p s ≡ true → key s ≡ k)
      → find_one p t ≡ none
  find_one-absent p t k e only = elim (Option-cases (find_one p t)) [
    | inl missing ↦ missing
    | inr (s, found) ↦
        let (passes, here) = find_one-sound p t s found in
        let same = ap (λ (j : String). find_one (by_key key j) t) (only s passes) in
        ground (arith, here, same, e)
  ]

  unless-eq_some :
      (q : Row → Bool) (o : Option Row) (s : Row)
      → unless q o ≡ some s
      → (o ≡ some s) × (q s ≡ false)
  unless-eq_some q none s h = cc
  unless-eq_some q (some r) s h = ground arith

  -- After a deletion, a query for rows that were all deleted finds nothing.
  pub find_one-deleted :
      (p q : Row → Bool) (t : Table)
      → ((s : Row) → p s ≡ true → q s ≡ true)
      → find_one p (delete q t) ≡ none
  find_one-deleted p q t covers = elim (Option-cases (find_one p (delete q t))) [
    | inl missing ↦ missing
    | inr (s, found) ↦
        let (passes, here) = find_one-sound p (delete q t) s found in
        let (_, kept) = unless-eq_some q _ s (sym (find_one-delete (key s) q t) ∙ here) in
        absurd (ground (arith, covers s passes, kept))
  ]
