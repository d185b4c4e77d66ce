-- ===== src/Examples/Tables.antt =====
-- A `Repository` over a list: the newest row of a key is the one that is seen.
use mathlib.Core.List.{Memᴰ}
use mathlib.Core.Option
use mediavault_backend.Prelude.{
  ◌+◌, ap, String, Bool, true, false, ◌&&◌, not, Option, none, some, List, [], ◌∷◌, ◌≡◌, ◌==◌, refl,
  arith, if◌then◌else◌, length, filter, map, All, eq_iff, eq_refl, ◌∙◌, subst, Bool-cases, inl, inr,
}
use mediavault_backend.Platform.Repository.{Repository, by_key, unless, holds, change_if}

module _ {Row : Type 0} (key : Row → String) where
  unfoldable pub without : String → List Row → List Row
  without k [] = []
  without k (r ∷ t) = if key r == k then without k t else r ∷ without k t

  unfoldable pub visible : List Row → List Row
  unfolding without
  visible [] = []
  visible (r ∷ t) = r ∷ without (key r) (visible t)

  unfoldable pub first : (Row → Bool) → List Row → Option Row
  first p [] = none
  first p (r ∷ t) = if p r then some r else first p t

  first-without :
      (k j : String) (t : List Row)
      → first (by_key key k) (without j t) ≡ (if j == k then none else first (by_key key k) t)
  unfolding first without
  first-without k j [] = ground arith
  first-without k j (r ∷ t) =
      ground (arith, first-without k j t, eq_iff (key r) j, eq_iff j k, eq_iff (key r) k)

  pub first-visible_cons :
      (k : String) (r : Row) (t : List Row)
      → first (by_key key k) (visible (r ∷ t))
        ≡ (if key r == k then some r else first (by_key key k) (visible t))
  unfolding first visible
  first-visible_cons k r t = ground (arith, first-without k (key r) (visible t))

  first-without-some :
      (p : Row → Bool) (k : String) (t : List Row) (r : Row)
      → first p (without k t) ≡ some r
      → ((key r == k) ≡ false) × (first (λ s. p s && not (key s == k)) t ≡ some r)
  unfolding first without
  first-without-some p k [] r e = cc
  first-without-some p k (s ∷ t) r e = ground (arith, first-without-some p k t r)

  pub first_sound :
      (p : Row → Bool) (t : List Row) (r : Row)
      → first p (visible t) ≡ some r
      → (p r ≡ true) × (first (by_key key (key r)) (visible t) ≡ some r)
  unfolding first visible
  first_sound p [] r e = cc
  first_sound p (s ∷ t) r e = elim (Bool-cases (p s)) [
    | inl here ↦ ground (arith, first-visible_cons (key r) s t, eq_refl (key r))
    | inr there ↦
        let (other, e') = first-without-some p (key s) (visible t) r (ground arith) in
        let (passes, found) = first_sound (λ s'. p s' && not (key s' == key s)) t r e' in
        ground (
          arith,
          other,
          passes,
          found,
          first-visible_cons (key r) s t,
          eq_iff (key r) (key s),
          eq_iff (key s) (key r),
        )
  ]

  pub first_complete :
      (p q : Row → Bool) (t : List Row) (r : Row)
      → first p t ≡ none
      → first q t ≡ some r
      → p r ≡ false
  unfolding first
  first_complete p q [] r e f = cc
  first_complete p q (s ∷ t) r e f = ground (arith, first_complete p q t r)

  pub All-filter : (p : Row → Bool) (t : List Row) → All (λ r. p r ≡ true) (filter p t)
  All-filter p [] = tt
  All-filter p (r ∷ t) = ground (arith, All-filter p t)

  pub mem-filter :
      (p q : Row → Bool) (t : List Row) (r : Row)
      → first q t ≡ some r
      → p r ≡ true
      → Memᴰ r (filter p t)
  unfolding first
  mem-filter p q [] r e h = absurd (ground arith)
  mem-filter p q (s ∷ t) r e h = elim (Bool-cases (q s)) [
    | inl here ↦
        let same : r ≡ s = ground arith in rw (subst (λ x. p x ≡ true) same h) (Memᴰ.head same)
    | inr there ↦
        let later = mem-filter p q t r (ground arith) h in
        elim (Bool-cases (p s)) [ inl keep ↦ rw keep (Memᴰ.tail later) | inr drop ↦ rw drop later ]
  ]

  abbrev pub reject : (Row → Bool) → List Row → List Row
  reject q = filter λ r. not (q r)

  pub first-visible :
      (k : String) (t : List Row) → first (by_key key k) (visible t) ≡ first (by_key key k) t
  unfolding first
  first-visible k [] = unfold visible in refl
  first-visible k (r ∷ t) = first-visible_cons k r t ∙ ground (arith, first-visible k t)

  first-reject-without :
      (k j : String) (q : Row → Bool) (t : List Row)
      → first (by_key key k) (reject q (without j t))
        ≡ (if j == k then none else first (by_key key k) (reject q t))
  unfolding first without
  first-reject-without k j q [] = ground arith
  first-reject-without k j q (r ∷ t) =
      ground (arith, first-reject-without k j q t, eq_iff (key r) j, eq_iff j k, eq_iff (key r) k)

  pub first-reject-visible :
      (k : String) (q : Row → Bool) (t : List Row)
      → first (by_key key k) (reject q (visible t)) ≡ unless q (first (by_key key k) (visible t))
  unfolding first visible
  first-reject-visible k q [] = refl
  first-reject-visible k q (r ∷ t) = ground (
    arith,
    first-reject-without k (key r) q (visible t),
    first-without k (key r) (visible t),
    first-reject-visible k q t,
  )

  -- No two rows of the list have one key.
  abbrev IsDistinct : List Row → Type 0
  IsDistinct [] = Unit {0}
  IsDistinct (r ∷ t) = (first (by_key key (key r)) t ≡ none) × IsDistinct t

  without-IsDistinct : (k : String) (t : List Row) → IsDistinct t → IsDistinct (without k t)
  unfolding first without
  without-IsDistinct k [] d = tt
  without-IsDistinct k (r ∷ t) d = ground (
    arith,
    without-IsDistinct k t d.1,
    first-without (key r) k t,
    eq_iff (key r) k,
    eq_iff k (key r),
  )

  visible-IsDistinct : (t : List Row) → IsDistinct (visible t)
  unfolding visible
  visible-IsDistinct [] = tt
  visible-IsDistinct (r ∷ t) = (
    first-without (key r) (key r) (visible t) ∙ ground (arith, eq_refl (key r)),
    without-IsDistinct (key r) (visible t) (visible-IsDistinct t),
  )

  without_absent : (k : String) (t : List Row) → first (by_key key k) t ≡ none → without k t ≡ t
  unfolding first without
  without_absent k [] e = refl
  without_absent k (r ∷ t) e = ground (arith, without_absent k t)

  count_without :
      (p : Row → Bool) (k : String) (t : List Row)
      → IsDistinct t
      → length (filter p (without k t)) + holds p (first (by_key key k) t) ≡ length (filter p t)
  unfolding first without
  count_without p k [] d = refl
  count_without p k (r ∷ t) d = elim (Bool-cases (key r == k)) [
    | inl e ↦
        let absent = subst (λ j. first (by_key key j) t ≡ none) ((eq_iff (key r) k).0 e) d.0 in
        ground (arith, e, without_absent k t absent)
    | inr e ↦ ground (arith, e, count_without p k t d.1)
  ]

  pub count_save :
      (p : Row → Bool) (r : Row) (t : List Row)
      → length (filter p (visible (r ∷ t))) + holds p (first (by_key key (key r)) (visible t))
        ≡ length (filter p (visible t)) + (if p r then 1 else 0)
  unfolding visible
  count_save p r t = ground (arith, count_without p (key r) (visible t) (visible-IsDistinct t))

  visible_distinct : (t : List Row) → IsDistinct t → visible t ≡ t
  unfolding visible
  visible_distinct [] d = refl
  visible_distinct (r ∷ t) d =
      ap (λ u. r ∷ u) (ap (without (key r)) (visible_distinct t d.1) ∙ without_absent (key r) t d.0)

  reject-without : (k : String) (t : List Row) → reject (by_key key k) t ≡ without k t
  unfolding without
  reject-without k [] = refl
  reject-without k (r ∷ t) = ground (arith, reject-without k t)

  pub count_delete :
      (p : Row → Bool) (k : String) (t : List Row)
      → length (filter p (visible (reject (by_key key k) (visible t))))
          + holds p (first (by_key key k) (visible t))
        ≡ length (filter p (visible t))
  count_delete p k t =
      let d = visible-IsDistinct t in
      rw
        (
          reject-without k (visible t),
          visible_distinct (without k (visible t)) (without-IsDistinct k (visible t) d),
        )
        (count_without p k (visible t) d)

  first-map :
      (k : String) (g : Row → Row) (t : List Row)
      → ((r : Row) → key (g r) ≡ key r)
      → first (by_key key k) (map g t) ≡ Option.map g (first (by_key key k) t)
  unfolding first
  first-map k g [] same = refl
  first-map k g (r ∷ t) same = ground (arith, first-map k g t same, same r)

  map_change :
      (p : Row → Bool) (f : Row → Row) (o : Option Row)
      → Option.map (λ r. if p r then f r else r) o ≡ change_if p f o
  map_change p f none = refl
  map_change p f (some r) = refl

  pub find_one_update :
      (k : String) (p : Row → Bool) (f : Row → Row) (t : List Row)
      → ((r : Row) → key (f r) ≡ key r)
      → first (by_key key k) (visible (map (λ r. if p r then f r else r) (visible t)))
        ≡ change_if p f (first (by_key key k) (visible t))
  find_one_update k p f t same =
      let g = λ (r : Row). if p r then f r else r in
      first-visible k (map g (visible t))
      ∙ first-map k g (visible t) (λ r. ground (arith, same r))
      ∙ map_change p f (first (by_key key k) (visible t))

  stored_cons :
      (r : Row) (t : List Row) (l : List Row)
      → first (by_key key (key r)) t ≡ none
      → All (λ s. first (by_key key (key s)) t ≡ some s) l
      → All (λ s. first (by_key key (key s)) (r ∷ t) ≡ some s) l
  unfolding first
  stored_cons r t [] d h = tt
  stored_cons r t (s ∷ l) d (h, hs) = (
    ground (
      arith,
      eq_iff (key r) (key s),
      ap (λ (j : String). first (by_key key j) t) {x = key r} {y = key s},
    ),
    stored_cons r t l d hs,
  )

  distinct_stored :
      (t : List Row) → IsDistinct t → All (λ s. first (by_key key (key s)) t ≡ some s) t
  unfolding first
  distinct_stored [] d = tt
  distinct_stored (r ∷ t) (d, ds) =
      (ground (arith, eq_refl (key r)), stored_cons r t t d (distinct_stored t ds))

  All-filter_keeps :
      (P : Row → Type 0) (p : Row → Bool) (t : List Row) → All P t → All P (filter p t)
  All-filter_keeps P p [] h = tt
  All-filter_keeps P p (r ∷ t) (h, hs) = elim (Bool-cases (p r)) [
    | inl e ↦ rw e (h, All-filter_keeps P p t hs)
    | inr e ↦ rw e (All-filter_keeps P p t hs)
  ]

  pub find_stored :
      (p : Row → Bool) (t : List Row)
      → All (λ s. first (by_key key (key s)) (visible t) ≡ some s) (filter p (visible t))
  find_stored p t =
      All-filter_keeps _ p (visible t) (distinct_stored (visible t) (visible-IsDistinct t))

  abbrev pub list_repository : Repository Row key
  list_repository = record {
    Table = List Row;
    find_one = λ p t. first p (visible t);
    find = λ p t. filter p (visible t);
    count = λ p t. length (filter p (visible t));
    save = λ r t. r ∷ t;
    delete = λ q t. reject q (visible t);
    update = λ p f t. map (λ r. if p r then f r else r) (visible t);
    find_one-update = find_one_update;
    find_one-sound = first_sound;
    find_one-complete = λ p t k r. first_complete p (by_key key k) (visible t) r;
    find-sound = λ p t. All-filter p (visible t);
    find-stored = find_stored;
    find-complete = λ p t k r. mem-filter p (by_key key k) (visible t) r;
    count-find = λ p t. refl;
    count-save = count_save;
    count-delete = count_delete;
    find_one-save = λ k r t. first-visible_cons k r t;
    find_one-delete = λ k q t. first-visible k (reject q (visible t)) ∙ first-reject-visible k q t;
  }
