-- ===== src/Retrieval/Context/Bounds.antt =====
-- internal/rag/service.go: the context of a generation keeps to its limits and to its numbering.
use dong_rag.Base.{
  ℕ, suc, ◌+◌, ◌≤◌, ◌≡◌, refl, sym, ap, subst, ◌∙◌, ◌⊎◌, inl, inr, Bool, false, ◌||◌, List, [], ◌∷◌,
  ◌++◌, map, append_assoc, append-nil, arith, leb, Bool-cases, length, any, count_where, any-snoc,
  map-snoc, ℤ, pos, ltb_ℤ, ◌≤ℤ◌, lookup, Text, text_eq, text_eq_iff, is_empty,
}
use dong_rag.Retrieval.Hit.{Floats, Hit, tally}
use dong_rag.Retrieval.Diverse.{or_two, of, with_hit-Counted}
use dong_rag.Retrieval.Context.{
  byte_length, context_block, by_score, content_key, Gathered, is_passed, add_block, gather,
  nothing_gathered, no_context, finish_context, prepare_generation_context,
}

-- No text stands twice, and none is empty.
abbrev pub AreApart : List Text → Type 0
AreApart [] = Unit {0}
AreApart (k ∷ ks) = (is_empty k ≡ false) × (any (text_eq k) ks ≡ false) × AreApart ks

AreApart-snoc :
    (ks : List Text) (k : Text)
    → AreApart ks
    → is_empty k ≡ false
    → any (text_eq k) ks ≡ false
    → AreApart (ks ++ (k ∷ []))
AreApart-snoc [] k a e n = (e, refl, tt)
AreApart-snoc (x ∷ ks) k (f, d, a) e n = (
  f,
  any-snoc (text_eq x) ks k ∙ ground (arith, d, n, text_eq_iff x k, text_eq_iff k x),
  AreApart-snoc ks k a e (ground (arith, n)),
)

all_false :
    (a b c d : Bool)
    → (a || b || c || d) ≡ false
    → (a ≡ false) × (b ≡ false) × (c ≡ false) × (d ≡ false)
all_false a b c d h = ground arith

not_more : (c : ℤ) (n : ℕ) → ltb_ℤ c (pos n) ≡ false → pos n ≤ℤ c
not_more c n h = ground arith

module _ (F : Floats) (to_lower : Text → Text) where
  -- The blocks of the hits, numbered from `i + 1` on.
  abbrev pub blocks_from : ℕ → List (Hit F.Float) → Text
  blocks_from i [] = []
  blocks_from i (h ∷ hs) = context_block F to_lower (i + 1) h ++ blocks_from (suc i) hs

  record IsGathered (c : ℤ) (m : ℕ) (s : Gathered F to_lower) : Type 0 where
    text_kept : s.builder ≡ blocks_from 0 s.gathered
    keys_apart : AreApart (map (content_key F to_lower) s.gathered)
    keys_seen :
        (k : Text)
        → any (text_eq k) s.seen_content ≡ any (text_eq k) (map (content_key F to_lower) s.gathered)
    counted : (d : Text) → (tally d s.document_counts ≡ of d s.gathered) × of d s.gathered ≤ m
    fits : (s.builder ≡ []) ⊎ (pos (byte_length s.builder) ≤ℤ c)

  blocks_from-append :
      (i : ℕ) (hs : List (Hit F.Float)) (h : Hit F.Float)
      → blocks_from i (hs ++ (h ∷ []))
        ≡ blocks_from i hs ++ context_block F to_lower (length hs + i + 1) h
  blocks_from-append i [] h =
      append-nil (context_block F to_lower (i + 1) h)
      ∙ ap (λ n. context_block F to_lower n h) (omega arith)
  blocks_from-append i (x ∷ hs) h =
      ap (◌++◌ (context_block F to_lower (i + 1) x)) (
        blocks_from-append (suc i) hs h
        ∙ ap (λ n. blocks_from (suc i) hs ++ context_block F to_lower n h) (omega arith))
      ∙ sym (
          append_assoc (context_block F to_lower (i + 1) x) (blocks_from (suc i) hs)
            (context_block F to_lower (suc (length hs) + i + 1) h))

  byte_length-append : (a b : Text) → byte_length (a ++ b) ≡ byte_length a + byte_length b
  unfolding byte_length
  byte_length-append [] b = omega arith
  byte_length-append (x ∷ a) b = omega (arith, byte_length-append a b)

  add_block-IsGathered :
      (c : ℤ) (m : ℕ) (s : Gathered F to_lower) (h : Hit F.Float)
      → is_passed F to_lower c m s h ≡ false
      → IsGathered c m s
      → IsGathered c m (add_block F to_lower s h)
  unfolding is_passed add_block
  add_block-IsGathered c m s h n g =
      let (filled, fresh, few, short) =
        all_false (is_empty (content_key F to_lower h))
          (any (text_eq (content_key F to_lower h)) s.seen_content)
          (leb m (tally h.document_id s.document_counts))
          (ltb_ℤ c (
            pos (
              byte_length s.builder
              + byte_length (context_block F to_lower (length s.gathered + 1) h))))
          n in
      let place : length s.gathered + 0 + 1 ≡ length s.gathered + 1 = omega arith in
      record {
        text_kept =
            ap (λ b. b ++ context_block F to_lower (length s.gathered + 1) h) g.text_kept
            ∙ sym (
                blocks_from-append 0 s.gathered h
                ∙ ap (λ i. blocks_from 0 s.gathered ++ context_block F to_lower i h) place);
        keys_apart = subst AreApart (sym (map-snoc (content_key F to_lower) s.gathered h)) (
            AreApart-snoc (map (content_key F to_lower) s.gathered) (content_key F to_lower h)
              g.keys_apart filled (sym (g.keys_seen (content_key F to_lower h)) ∙ fresh));
        keys_seen = λ k. ground (
          arith,
          g.keys_seen k,
          any-snoc (text_eq k) (map (content_key F to_lower) s.gathered) (content_key F to_lower h),
          map-snoc (content_key F to_lower) s.gathered h,
        );
        counted =
            with_hit-Counted m (record { selected = s.gathered; counts = s.document_counts }) h few
              g.counted;
        fits = inr (
            rw (byte_length-append s.builder (context_block F to_lower (length s.gathered + 1) h)) (
              not_more c
                (byte_length s.builder
                  + byte_length (context_block F to_lower (length s.gathered + 1) h))
                short));
      }

  gather-IsGathered :
      (c : ℤ) (m : ℕ) (s : Gathered F to_lower) (hs : List (Hit F.Float))
      → IsGathered c m s
      → IsGathered c m (gather F to_lower c m s hs)
  unfolding gather
  gather-IsGathered c m s [] g = g
  gather-IsGathered c m s (h ∷ hs) g = elim (Bool-cases (is_passed F to_lower c m s h)) [
    | inl y ↦ rw y (gather-IsGathered c m s hs g)
    | inr n ↦
        rw n
          (gather-IsGathered c m (add_block F to_lower s h) hs (add_block-IsGathered c m s h n g))
  ]

  abbrev pub Promised : ℤ → ℕ → List (Hit F.Float) × Text → Type 0
  Promised c m (selected, text) =
      ((selected ≡ []) × (text ≡ no_context F to_lower))
      ⊎ ((text ≡ blocks_from 0 selected)
          × pos (byte_length text) ≤ℤ c
          × AreApart (map (content_key F to_lower) selected)
          × ((d : Text) → of d selected ≤ m))

  finish-IsGathered :
      (c : ℤ) (m : ℕ) (s : Gathered F to_lower)
      → IsGathered c m s
      → Promised c m (finish_context F to_lower s)
  finish-IsGathered c m s g = elim (Bool-cases (is_empty s.builder)) [
    | inl y ↦ rw y (inl (refl, refl))
    | inr n ↦ rw n (
        inr (
          g.text_kept,
          elim g.fits [ inl e ↦ absurd (ground (arith, n, e)) | inr f ↦ f ],
          g.keys_apart,
          λ d. (g.counted d).1,
        ))
  ]

  -- The context of a generation has at most max_chars bytes and consists of the blocks of the hits
  -- that are returned with it, numbered by their places from 1 on, so that [n] cites the n-th of
  -- them; no two of these have the same content up to case and space, none is blank, and no
  -- document has more than max_per_document of them (2 where that is below 1). Otherwise there are
  -- no hits, and the context says so.
  pub prepare_generation_context_lem :
      (hits : List (Hit F.Float)) (max_chars max_per_document : ℤ)
      → Promised max_chars
          (or_two max_per_document)
          (prepare_generation_context F to_lower hits max_chars max_per_document)
  unfolding prepare_generation_context count_where tally lookup
  prepare_generation_context_lem hits c m =
      let g =
        gather-IsGathered c (or_two m) (nothing_gathered F to_lower) (by_score F to_lower hits)
          (record {
            text_kept = refl;
            keys_apart = tt;
            keys_seen = λ k. refl;
            counted = λ d. (refl, omega arith);
            fits = inl refl;
          }) in
      finish-IsGathered c (or_two m)
        (gather F to_lower c (or_two m) (nothing_gathered F to_lower) (by_score F to_lower hits)) g
