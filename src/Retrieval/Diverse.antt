-- ===== src/Retrieval/Diverse.antt =====
-- internal/rag/service.go: selectDiverse.
use dong_rag.Base.{
  ℕ, ◌+◌, ◌≤◌, ◌<◌, min, ◌≡◌, refl, sym, ◌∙◌, inl, inr, true, false, List, [], ◌∷◌, ◌++◌,
  append_assoc, append-nil, arith, leb, if◌then◌else◌, Bool-cases, length, length-append,
  count_where, ℤ, pos, pos_part, ltb_ℤ, lookup, Text, text_eq, eq_of_text_eq, text_eq_iff,
}
use dong_rag.Retrieval.Hit.{Hit, of_document, Tally, tally, bump, tally-bump}

pub record Picked (Float : Type 0) : Type 0 where
  pub selected : List (Hit Float)
  pub counts : Tally

abbrev pub or_two : ℤ → ℕ
or_two n = if ltb_ℤ n (pos 1) then 2 else pos_part n

-- The elements of the second list, some of them left out.
pub data Within {A : Type 0} : List A → List A → Type 0 where
  done : Within [] []
  taken : {h : A} {xs ys : List A} → Within xs ys → Within (h ∷ xs) (h ∷ ys)
  passed : {h : A} {xs ys : List A} → Within xs ys → Within xs (h ∷ ys)

Within-nothing : {A : Type 0} → (hs : List A) → Within [] hs
Within-nothing [] = done
Within-nothing (h ∷ hs) = passed (Within-nothing hs)

module _ {Float : Type 0} where
  abbrev pub none_picked : Picked Float
  none_picked = record { selected = []; counts = [] }

  abbrev pub with_hit : Picked Float → Hit Float → Picked Float
  with_hit s h = record { selected = s.selected ++ (h ∷ []); counts = bump h.document_id s.counts }

  -- The loop's body, where the selection is not full.
  unfoldable pick_hit : ℕ → Picked Float → Hit Float → Picked Float
  unfolding tally bump
  pick_hit max_per_doc s h =
      if leb max_per_doc (tally h.document_id s.counts) then s else with_hit s h

  unfoldable pick_hits : ℕ → ℕ → Picked Float → List (Hit Float) → Picked Float
  unfolding pick_hit
  pick_hits top_k max_per_doc s [] = s
  pick_hits top_k max_per_doc s (h ∷ hs) =
      if leb top_k (length s.selected)
      then s
      else pick_hits top_k max_per_doc (pick_hit max_per_doc s h) hs

  unfoldable pub select_diverse : List (Hit Float) → ℤ → ℤ → List (Hit Float)
  unfolding pick_hits
  select_diverse hits top_k max_per_doc =
      if ltb_ℤ top_k (pos 1)
      then []
      else (pick_hits (pos_part top_k) (or_two max_per_doc) none_picked hits).selected

  -- How many of the hits are of the document.
  abbrev pub of : Text → List (Hit Float) → ℕ
  of d = count_where (of_document d)

  of-append : (d : Text) (xs ys : List (Hit Float)) → of d (xs ++ ys) ≡ of d xs + of d ys
  unfolding count_where
  of-append d [] ys = omega arith
  of-append d (x ∷ xs) ys = omega (arith, of-append d xs ys)

  -- The counters count the hits that are selected.
  abbrev pub Counted : ℕ → Picked Float → Type 0
  Counted m s = (d : Text) → (tally d s.counts ≡ of d s.selected) × of d s.selected ≤ m

  pub of-snoc :
      (d : Text) (xs : List (Hit Float)) (h : Hit Float)
      → of d (xs ++ (h ∷ [])) ≡ of d xs + (if text_eq h.document_id d then 1 else 0)
  unfolding count_where
  of-snoc d xs h = of-append d xs (h ∷ []) ∙ omega arith

  pub with_hit-Counted :
      (m : ℕ) (s : Picked Float) (h : Hit Float)
      → leb m (tally h.document_id s.counts) ≡ false
      → Counted m s
      → Counted m (with_hit s h)
  with_hit-Counted m s h n c d = ground (
    arith,
    c d,
    c h.document_id,
    of-snoc d s.selected h,
    tally-bump h.document_id d s.counts,
    text_eq_iff h.document_id d,
  )

  -- What is promised of a selection of at most `k` hits, `m` of a document: no more than that, in
  -- the order of the hits, and where it is not full, then of every document as many as there are
  -- and are allowed.
  abbrev pub IsDiverse : ℕ → ℕ → List (Hit Float) → List (Hit Float) → Type 0
  IsDiverse k m hits xs =
      Within xs hits
      × length xs ≤ k
      × ((d : Text) → of d xs ≤ m)
      × (length xs < k → (d : Text) → of d xs ≡ min m (of d hits))

  -- The same of a loop that goes on from `s`: it adds some of the hits.
  record Adds (k m : ℕ) (s r : Picked Float) (hits : List (Hit Float)) : Type 0 where
    added : List (Hit Float)
    selects : r.selected ≡ s.selected ++ added
    within : Within added hits
    bounded : length r.selected ≤ k
    counted : (d : Text) → of d r.selected ≤ m
    complete :
        length r.selected < k → (d : Text) → of d r.selected ≡ min m (of d s.selected + of d hits)

  Adds-passed :
      {k m : ℕ} {s r : Picked Float} {hs : List (Hit Float)} (h : Hit Float)
      → leb m (tally h.document_id s.counts) ≡ true
      → Counted m s
      → Adds k m s r hs
      → Adds k m s r (h ∷ hs)
  unfolding count_where
  Adds-passed {m} {s} h y c a = record {
    added = a.added;
    selects = a.selects;
    within = passed a.within;
    bounded = a.bounded;
    counted = a.counted;
    complete = λ l d. ground (arith, a.complete l d, c d, eq_of_text_eq h.document_id d);
  }

  Adds-taken :
      {k m : ℕ} {s r : Picked Float} {hs : List (Hit Float)} (h : Hit Float)
      → Adds k m (with_hit s h) r hs
      → Adds k m s r (h ∷ hs)
  unfolding count_where
  Adds-taken {s} h a = record {
    added = h ∷ a.added;
    selects = a.selects ∙ append_assoc s.selected (h ∷ []) a.added;
    within = taken a.within;
    bounded = a.bounded;
    counted = a.counted;
    complete = λ l d. omega (arith, a.complete l d, of-snoc d s.selected h);
  }

  pick_hits-Adds :
      (k m : ℕ) (s : Picked Float) (hits : List (Hit Float))
      → Counted m s
      → length s.selected ≤ k
      → Adds k m s (pick_hits k m s hits) hits
  unfolding pick_hits pick_hit count_where
  pick_hits-Adds k m s [] c b = record {
    added = [];
    selects = sym (append-nil s.selected);
    within = done;
    bounded = b;
    counted = λ d. (c d).1;
    complete = λ l d. omega (arith, (c d).1);
  }
  pick_hits-Adds k m s (h ∷ hs) c b = elim (Bool-cases (leb k (length s.selected))) [
    | inl full ↦ rw full (record {
      added = [];
      selects = sym (append-nil s.selected);
      within = Within-nothing (h ∷ hs);
      bounded = b;
      counted = λ d. (c d).1;
      complete = λ l d. absurd (ground (arith, full, l));
    })
    | inr more ↦ rw more (elim (Bool-cases (leb m (tally h.document_id s.counts))) [
      | inl y ↦ rw y (Adds-passed h y c (pick_hits-Adds k m s hs c b))
      | inr n ↦ rw n (
          Adds-taken h (
            pick_hits-Adds k m (with_hit s h) hs (with_hit-Counted m s h n c)
              (ground (arith, length-append s.selected (h ∷ []), more))))
    ])
  ]

  -- The selection keeps the order of the hits, has at most top_k of them and at most max_per_doc
  -- (2 where that is below 1) of each document, and leaves no place open that a hit could have
  -- taken: when it is not full, each document has as many of its hits in it as the limit allows.
  -- A top_k below 1 selects nothing.
  pub select_diverse-IsDiverse :
      (hits : List (Hit Float)) (top_k max_per_doc : ℤ)
      → IsDiverse (pos_part top_k) (or_two max_per_doc) hits (select_diverse hits top_k max_per_doc)
  unfolding select_diverse count_where tally lookup
  select_diverse-IsDiverse hits top_k max_per_doc = elim (Bool-cases (ltb_ℤ top_k (pos 1))) [
    | inl y ↦
        rw y
          (Within-nothing hits, omega arith, λ d. omega arith, λ l d. absurd (ground (arith, y, l)))
    | inr n ↦ rw n (
        let a =
          pick_hits-Adds (pos_part top_k) (or_two max_per_doc) none_picked hits
            (λ d. (refl, omega arith)) (omega arith) in
        (
          rw (sym a.selects) at a.within,
          a.bounded,
          a.counted,
          λ l d. omega (arith, a.complete l d),
        ))
  ]
