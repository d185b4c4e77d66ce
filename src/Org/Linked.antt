-- ===== src/Org/Linked.antt =====
-- Two levels of src/modules/org: rows whose parent is stored.
use mediavault_backend.Prelude.{
  String, Bool, true, some, ◌≡◌, ◌==◌, arith, Option-cases, Bool-cases, inl, inr,
}
use mediavault_backend.Platform.Repository.{Repository, by_key}
use mediavault_backend.Org.{exists_by, is_gone}

module _ {P C : Type 0} {parent_key : P → String} {child_key : C → String}
    (parents : Repository P parent_key) (children : Repository C child_key)
    (parent_of : C → String) where
  -- The parent of each stored row is stored.
  abbrev pub IsLinked : parents.Table → children.Table → Type 0
  IsLinked p c =
      (k : String) (r : C)
      → children.find_one (by_key child_key k) c ≡ some r
      → exists_by parents (parent_of r) p ≡ true

  pub IsLinked-save :
      (p : parents.Table) (c : children.Table) (r : C)
      → exists_by parents (parent_of r) p ≡ true
      → IsLinked p c
      → IsLinked p (children.save r c)
  IsLinked-save p c r e h k x f = elim (Bool-cases (child_key r == k)) [
    | inl same ↦ ground (arith, children.find_one-save k r c)
    | inr other ↦ h k x (ground (arith, children.find_one-save k r c))
  ]

  pub IsLinked-save_parent :
      (p : parents.Table) (c : children.Table) (r : P)
      → IsLinked p c
      → IsLinked (parents.save r p) c
  IsLinked-save_parent p c r h k x f =
      ground (arith, h k x f, parents.find_one-save (parent_of x) r p)

  pub IsLinked-delete :
      (p : parents.Table) (c : children.Table) (t : C → Bool)
      → IsLinked p c
      → IsLinked p (children.delete t c)
  IsLinked-delete p c t h k x f = elim (Option-cases (children.find_one (by_key child_key k) c)) [
    | inl n ↦ absurd (ground (arith, children.find_one-delete k t c))
    | inr (y, e) ↦ h k x (ground (arith, children.find_one-delete k t c))
  ]

  -- Parents go, and with them the rows whose parent is gone.
  pub IsLinked-cascade :
      (p p' : parents.Table) (c : children.Table)
      → IsLinked p c
      → IsLinked p' (children.delete (λ r. is_gone parents p p' (parent_of r)) c)
  IsLinked-cascade p p' c h k x f = elim (Option-cases (children.find_one (by_key child_key k) c)) [
    | inl n ↦ absurd (
        ground
          (arith, children.find_one-delete k (λ (r : C). is_gone parents p p' (parent_of r)) c))
    | inr (y, e) ↦ ground (
      arith,
      h k y e,
      children.find_one-delete k (λ (r : C). is_gone parents p p' (parent_of r)) c,
    )
  ]
