-- ===== src/Tables/OneRow.antt =====
-- A row that is the only one to pass a test, as the primary key makes it: what a lookup, a count
-- and a conditional update see of it.
use ai_compliance_orquestrat.Evolution.Unique.{count-update_rows_kept}
use ai_compliance_orquestrat.Tables.{update_rows}
use ai_compliance_orquestrat.Prelude.{
  Bool, true, false, List, [], ◌∷◌, ◌≡◌, ◌≤◌, ◌⊎◌, inl, inr, find, count, some, Bool-cases, arith,
  refl, ap, sym, ◌∙◌, if◌then◌else◌, All, All-imp, suc,
}

module _ {A : Type 0} (q : A → Bool) where
  -- The row stands in the table, and no other row passes the test.
  abbrev pub IsOnly : A → List A → Type 0
  IsOnly t [] = ⊥
  IsOnly t (x ∷ xs) = ((x ≡ t) × (q x ≡ true) × (count q xs ≡ 0)) ⊎ ((q x ≡ false) × IsOnly t xs)

  count_rest : (x : A) (xs : List A) → q x ≡ true → count q (x ∷ xs) ≤ 1 → count q xs ≡ 0
  unfolding count
  count_rest x xs e h = ground arith

  count_tail : (x : A) (xs : List A) → q x ≡ false → count q (x ∷ xs) ≡ count q xs
  unfolding count
  count_tail x xs e = rw e refl

  pub find-IsOnly :
      (rows : List A) {t : A} → find q rows ≡ some t → count q rows ≤ 1 → IsOnly t rows
  unfolding find
  find-IsOnly [] h one = absurd (cc)
  find-IsOnly (x ∷ xs) {t} h one = elim (Bool-cases (q x)) [
    | inl e ↦ let first : some x ≡ some t = rw e at h in inl (cc, e, count_rest x xs e one)
    | inr e ↦
        let later : find q xs ≡ some t = rw e at h in
        inr (e, find-IsOnly xs later (rw (count_tail x xs e) at one))
  ]

  pub IsOnly-find : (rows : List A) {t : A} → IsOnly t rows → find q rows ≡ some t
  unfolding find
  IsOnly-find [] h = absurd h
  IsOnly-find (x ∷ xs) (inl h) = rw (h.1) (ap some h.0)
  IsOnly-find (x ∷ xs) (inr h) = rw (h.0) (IsOnly-find xs h.1)

  pub IsOnly-passes : (rows : List A) {t : A} → IsOnly t rows → q t ≡ true
  IsOnly-passes [] h = absurd h
  IsOnly-passes (x ∷ xs) (inl h) = ap q (sym h.0) ∙ h.1
  IsOnly-passes (x ∷ xs) (inr h) = IsOnly-passes xs h.1

  module _ (p : A → Bool) (below : (x : A) → p x ≡ true → q x ≡ true) where
    not_below : (x : A) → q x ≡ false → p x ≡ false
    not_below x e = ground (arith, below x)

    -- A narrower test passes no row where the test passes none.
    pub count-none_below : (rows : List A) → count q rows ≡ 0 → count p rows ≡ 0
    unfolding count
    count-none_below [] h = refl
    count-none_below (x ∷ xs) h = ground (arith, below x, count-none_below xs)

    pub count-le_below : (rows : List A) → count p rows ≤ count q rows
    unfolding count
    count-le_below [] = omega arith
    count-le_below (x ∷ xs) = ground (arith, below x, count-le_below xs)

    -- A conditional update whose test the row passes writes that row alone.
    pub count-only : (rows : List A) {t : A} → IsOnly t rows → p t ≡ true → count p rows ≡ 1
    unfolding count
    count-only [] h e = absurd h
    count-only (x ∷ xs) (inl h) e = rw (ap p h.0 ∙ e, count-none_below xs h.2) refl
    count-only (x ∷ xs) (inr h) e = rw (not_below x h.0) (count-only xs h.1 e)

  pub update_rows-none :
      (p : A → Bool) (f : A → A) (rows : List A) → count p rows ≡ 0 → update_rows p f rows ≡ rows
  unfolding count
  update_rows-none p f [] h = refl
  update_rows-none p f (x ∷ xs) h = elim (Bool-cases (p x)) [
    | inl e ↦ let k = rw e at h in absurd (omega arith)
    | inr e ↦ let k = rw e at h in rw (e, update_rows-none p f xs k) refl
  ]

  pub update_rows-only :
      (p : A → Bool) (f : A → A)
      → ((x : A) → p x ≡ true → q x ≡ true)
      → (rows : List A) {t : A} → IsOnly t rows
      → p t ≡ true
      → update_rows p f rows ≡ update_rows q f rows
  update_rows-only p f below [] h e = refl
  update_rows-only p f below (x ∷ xs) (inl h) e =
      rw
        (
          ap p h.0 ∙ e,
          h.1,
          update_rows-none q f xs h.2,
          update_rows-none p f xs (count-none_below p below xs h.2),
        )
        refl
  update_rows-only p f below (x ∷ xs) (inr h) e =
      rw (not_below p below x h.0, h.0, update_rows-only p f below xs h.1 e) refl

  kept :
      (p : A → Bool) (f : A → A)
      → ((x : A) → q (f x) ≡ q x)
      → (x : A) → q (if p x then f x else x) ≡ q x
  kept p f same x = ground (arith, same x)

  -- An update that keeps the test's value leaves that row's new version as the only one.
  pub IsOnly-update :
      (p : A → Bool) (f : A → A)
      → ((x : A) → q (f x) ≡ q x)
      → (rows : List A) (t : A) → IsOnly t rows
      → IsOnly (if p t then f t else t) (update_rows p f rows)
  IsOnly-update p f same [] t h = absurd h
  IsOnly-update p f same (x ∷ xs) t (inl h) = inl (
    ap (λ v. if p v then f v else v) h.0,
    kept p f same x ∙ h.1,
    count-update_rows_kept q p f (λ y _. same y) xs ∙ h.2,
  )
  IsOnly-update p f same (x ∷ xs) t (inr h) =
      inr (kept p f same x ∙ h.0, IsOnly-update p f same xs t h.1)

  -- Two updates of the same rows are one.
  pub update_rows-twice :
      (f g : A → A)
      → ((x : A) → q (f x) ≡ q x)
      → (rows : List A) → update_rows q g (update_rows q f rows) ≡ update_rows q (λ x. g (f x)) rows
  update_rows-twice f g same [] = refl
  update_rows-twice f g same (x ∷ xs) = elim (Bool-cases (q x)) [
    | inl e ↦ rw (e, same x ∙ e, update_rows-twice f g same xs) refl
    | inr e ↦ rw (e, e, update_rows-twice f g same xs) refl
  ]

  -- Where none passes, each row fails.
  pub count_zero-All : (rows : List A) → count q rows ≡ 0 → All (λ x. q x ≡ false) rows
  unfolding count
  count_zero-All [] h = tt
  count_zero-All (x ∷ xs) h = elim (Bool-cases (q x)) [
    | inl e ↦ absurd (ground arith)
    | inr e ↦ (e, count_zero-All xs (ground arith))
  ]

  -- Every row that passes is that row.
  pub IsOnly-All : (rows : List A) (t : A) → IsOnly t rows → All (λ x. q x ≡ true → x ≡ t) rows
  IsOnly-All [] t h = absurd h
  IsOnly-All (x ∷ xs) t (inl h) =
      (λ _. h.0, All-imp _ _ (λ y e k. absurd (ground arith)) xs (count_zero-All xs h.2))
  IsOnly-All (x ∷ xs) t (inr h) = (λ e. absurd (ground arith), IsOnly-All xs t h.1)

  -- The row passes a second test, and its new version does not.
  module _ (p : A → Bool) (f : A → A) where
    pub count-update_rows_drop :
        (rows : List A) (t : A)
        → IsOnly t rows
        → p t ≡ true
        → p (f t) ≡ false
        → suc (count p (update_rows q f rows)) ≡ count p rows
    unfolding count
    count-update_rows_drop [] t h e k = absurd h
    count-update_rows_drop (x ∷ xs) t (inl h) e k =
        rw (h.1, ap (λ v. p (f v)) h.0 ∙ k, ap p h.0 ∙ e, update_rows-none q f xs h.2) refl
    count-update_rows_drop (x ∷ xs) t (inr h) e k =
        rw (h.0) (ground (arith, count-update_rows_drop xs t h.1 e k))

    -- An update of all that pass it, after the update of that row.
    pub update_rows-drop :
        (rows : List A) (t : A)
        → IsOnly t rows
        → p t ≡ true
        → p (f t) ≡ false
        → update_rows p f (update_rows q f rows) ≡ update_rows p f rows
    update_rows-drop [] t h e k = absurd h
    update_rows-drop (x ∷ xs) t (inl h) e k =
        rw (h.1, ap (λ v. p (f v)) h.0 ∙ k, ap p h.0 ∙ e, update_rows-none q f xs h.2) refl
    update_rows-drop (x ∷ xs) t (inr h) e k = rw (h.0, update_rows-drop xs t h.1 e k) refl

  -- An update of that row alone puts its new version in its place.
  pub update_rows-row :
      (f : A → A) (rows : List A) (t : A)
      → IsOnly t rows
      → update_rows q f rows ≡ update_rows q (λ _. f t) rows
  update_rows-row f [] t h = absurd h
  update_rows-row f (x ∷ xs) t (inl h) =
      rw (h.1, update_rows-none q f xs h.2, update_rows-none q (λ _. f t) xs h.2)
        (ap (λ v. f v ∷ xs) h.0)
  update_rows-row f (x ∷ xs) t (inr h) = rw (h.0, update_rows-row f xs t h.1) refl

  -- A narrower test that this row fails passes none.
  pub count-none_only :
      (p : A → Bool)
      → ((x : A) → p x ≡ true → q x ≡ true)
      → (rows : List A) (t : A) → IsOnly t rows
      → p t ≡ false
      → count p rows ≡ 0
  unfolding count
  count-none_only p below [] t h e = absurd h
  count-none_only p below (x ∷ xs) t (inl h) e =
      rw (ap p h.0 ∙ e, count-none_below p below xs h.2) refl
  count-none_only p below (x ∷ xs) t (inr h) e =
      rw (not_below p below x h.0, count-none_only p below xs t h.1 e) refl
