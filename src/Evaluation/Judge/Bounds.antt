-- ===== src/Evaluation/Judge/Bounds.antt =====
-- internal/evaluation/evaluation.go: the scores of RuleJudge are shares of what is counted, or
-- nought or one.
use dong_rag.Evaluation.Rag.{AnswerScores}
use dong_rag.Retrieval.Hit.{Hit}
use dong_rag.Base.{
  ℕ, ◌≤◌, ◌<◌, ◌≡◌, refl, ◌⊎◌, inl, inr, Bool, true, false, ◌&&◌, ◌||◌, List, [], ◌∷◌, map, arith,
  ltb, ◌==◌, if◌then◌else◌, ltb→lt, Bool-cases, length, count_where, Text,
}
use dong_rag.Evaluation.Reports.{Numbers}
use dong_rag.Evaluation.Run.{Case, Bench, distinct}
use dong_rag.Evaluation.Judge.Citations.{cited_documents}
use dong_rag.Evaluation.Judge.Tokens.{text_tokens}
use dong_rag.Evaluation.Judge.{
  common_tokens, fields_func, ends_claim, remove_citations, looks_refused, Claims, is_in,
  same_truth, share_of, harmonic, f1_of, evidence_of, citation_precision_of, citation_recall_of,
  unsupported_rate, faithfulness_of, token_f1, count_claims, unsupported_claims, evaluate,
}
use dong_rag.Evaluation.Judge.Common.{count_where-le, common_tokens-le}

module _ {N : Numbers} (B : Bench N) where
  -- A share of at least one thing.
  abbrev pub IsShare : N.Float → Type 0
  IsShare x = (k : ℕ) × (n : ℕ) × (k ≤ n) × (0 < n) × (x ≡ share_of B k n)

  abbrev pub IsRate : N.Float → Type 0
  IsRate x = (x ≡ N.nought) ⊎ ((x ≡ N.one) ⊎ IsShare x)

  -- The harmonic mean of two shares of the same positive number.
  abbrev pub IsMean : N.Float → Type 0
  IsMean x =
      (c : ℕ) × (a : ℕ) × (e : ℕ) × (0 < c)
      × (c ≤ a)
      × (c ≤ e)
      × (x ≡ harmonic B (share_of B c a) (share_of B c e))

  abbrev pub IsF1 : N.Float → Type 0
  IsF1 x = (x ≡ N.nought) ⊎ ((x ≡ N.one) ⊎ IsMean x)

  f1_of-IsF1 : (a e : List Text) → IsF1 (f1_of B a e)
  unfolding f1_of
  f1_of-IsF1 a e = elim (Bool-cases (length e == 0)) [
    | inl no_words ↦ rw no_words (elim (Bool-cases (length a == 0)) [
      | inl none_either ↦ rw none_either (inr (inl refl))
      | inr some_words ↦ rw some_words (inl refl)
    ])
    | inr words ↦ rw words (elim (Bool-cases (length a == 0 || common_tokens a e == 0)) [
      | inl nothing ↦ rw nothing (inl refl)
      | inr shared ↦ rw shared (
          inr (
            inr (
              common_tokens a e,
              length a,
              length e,
              ground (arith, shared),
              (common_tokens-le a e).0,
              (common_tokens-le a e).1,
              refl,
            )))
    ])
  ]

  IsShare-in :
      (names ts : List Text) {x : N.Float}
      → 0 < length ts
      → x ≡ share_of B (count_where (is_in names) ts) (length ts)
      → IsShare x
  IsShare-in names ts h e =
      (count_where (is_in names) ts, length ts, count_where-le (is_in names) ts, h, e)

  precision-IsRate : (cited wanted : List Text) → IsRate (citation_precision_of B cited wanted)
  precision-IsRate [] wanted = elim (Bool-cases (length wanted == 0)) [
    | inl nothing ↦ rw nothing (inr (inl refl))
    | inr wants ↦ rw wants (inl refl)
  ]
  precision-IsRate (c ∷ cited) wanted = inr (
      inr (
        IsShare-in wanted (c ∷ cited) (omega arith)
          (let e : (length (c ∷ cited) == 0) ≡ false = ground arith in rw e refl)))

  recall-IsRate : (cited wanted : List Text) → IsRate (citation_recall_of B cited wanted)
  recall-IsRate cited [] = inr (inl refl)
  recall-IsRate cited (w ∷ wanted) = inr (
      inr (
        IsShare-in cited (w ∷ wanted) (omega arith)
          (let e : ltb 0 (length (w ∷ wanted)) ≡ true = ground arith in rw e refl)))

  -- No more claims are unsupported than there are.
  abbrev IsCount : Claims → Type 0
  IsCount s = s.unsupported ≤ s.total

  count_claims-IsCount :
      (to_lower : Text → Text) (evidence claims : List Text) (s : Claims)
      → IsCount s
      → IsCount (count_claims B to_lower evidence claims s)
  unfolding count_claims
  count_claims-IsCount to_lower evidence [] s h = h
  count_claims-IsCount to_lower evidence (c ∷ claims) s h =
      count_claims-IsCount to_lower evidence claims _ (ground (arith, h))

  unsupported_claims-IsCount :
      (to_lower : Text → Text) (answer : Text) (hits : List (Hit N.Float))
      → IsCount (unsupported_claims B to_lower answer hits)
  unfolding unsupported_claims
  unsupported_claims-IsCount to_lower answer hits =
      count_claims-IsCount to_lower (text_tokens to_lower (evidence_of B hits))
        (fields_func ends_claim [] (remove_citations 1 (length hits) answer))
        (record { unsupported = 0; total = 0 }) (omega arith)

  -- The rate of the unsupported claims is a share of the claims and the faithfulness what is left
  -- of one; without claims to count both are nought, but for a refusal that is due.
  abbrev pub IsWeighed : N.Float → N.Float → Type 0
  IsWeighed rate faithfulness =
      ((rate ≡ N.nought) × ((faithfulness ≡ N.nought) ⊎ (faithfulness ≡ N.one)))
      ⊎ ((k : ℕ) × (n : ℕ) × (k ≤ n)
          × (0 < n)
          × (rate ≡ share_of B k n)
          × (faithfulness ≡ N.minus N.one (share_of B k n)))

  weighed :
      (due : Bool) (s : Claims)
      → IsCount s
      → IsWeighed (unsupported_rate B due s) (faithfulness_of B due s)
  weighed true s h = inl (refl, inr refl)
  weighed false s h = elim (Bool-cases (ltb 0 s.total)) [
    | inl claims ↦ rw claims (inr (s.unsupported, s.total, h, ltb→lt 0 s.total claims, refl, refl))
    | inr none_made ↦ rw none_made (inl (refl, inl refl))
  ]

  pub record IsScored (s : AnswerScores N.Float) : Type 0 where
    pub correctness : IsF1 s.answer_correctness
    pub precision : IsRate s.citation_precision
    pub recall : IsRate s.citation_recall
    pub claims : IsWeighed s.unsupported_claim_rate s.faithfulness
    pub refusal : (s.refusal_accuracy ≡ N.nought) ⊎ (s.refusal_accuracy ≡ N.one)

  either : (b : Bool) (x : N.Float) → IsF1 x → IsF1 (if b then N.one else x)
  either true x h = inr (inl refl)
  either false x h = h

  one_or_nought :
      (b : Bool)
      → ((if b then N.one else N.nought) ≡ N.nought) ⊎ ((if b then N.one else N.nought) ≡ N.one)
  one_or_nought true = inr refl
  one_or_nought false = inl refl

  -- Whatever the case, the answer and the hits: the correctness is nought, one or the harmonic mean
  -- of the shares of one positive number of tokens; precision and recall of the citations are
  -- nought, one or a share; the rate of unsupported claims is a share with the faithfulness its
  -- difference from one, or nought with a faithfulness of nought or one; the accuracy of the
  -- refusal is nought or one. Every share is of at least one thing and at most all of them.
  pub evaluate-IsScored :
      (to_lower : Text → Text) (item : Case) (answer : Text) (hits : List (Hit N.Float))
      → IsScored (evaluate B to_lower item answer hits)
  unfolding evaluate token_f1
  evaluate-IsScored to_lower item answer hits =
      let refused = looks_refused to_lower answer in
      let due = item.should_refuse && refused in
      let cited = cited_documents B.normalize_name answer hits in
      let wanted = distinct (map B.normalize_name item.required_citations) in
      record {
        correctness =
            either due (token_f1 B to_lower answer item.reference_answer) (
              f1_of-IsF1 (text_tokens to_lower answer)
                (text_tokens to_lower item.reference_answer));
        precision = precision-IsRate cited wanted;
        recall = recall-IsRate cited wanted;
        claims =
            weighed due (unsupported_claims B to_lower answer hits)
              (unsupported_claims-IsCount to_lower answer hits);
        refusal = one_or_nought (same_truth refused item.should_refuse);
      }
