-- ===== src/Evaluation/Judge.antt =====
-- internal/evaluation/evaluation.go: RuleJudge, which scores an answer by rules, with tokenF1,
-- unsupportedClaims and looksRefused. `strings.ToLower` is the parameter `to_lower`.
pub mod Tokens
pub mod Citations
pub mod Common
pub mod Bounds
mod Tests
use dong_rag.Base.{
  ℕ, zero, suc, ◌+◌, ◌-◌, Bool, true, false, ◌&&◌, ◌||◌, not, List, [], ◌∷◌, ◌++◌, map, ltb, ◌==◌,
  if◌then◌else◌, length, any, count_where, pos, Text, codes, text_eq, is_empty, decimal, trim_space,
  has_prefix,
}
use dong_rag.Retrieval.Hit.{Hit}
use dong_rag.Evaluation.Reports.{Numbers}
use dong_rag.Evaluation.Run.{Case, Bench, distinct}
use dong_rag.Evaluation.Rag.{AnswerScores}
use dong_rag.Evaluation.Judge.Tokens.{text_tokens}
use dong_rag.Evaluation.Judge.Citations.{cited_documents}

-- `ac[v]`, where `ac` counts the tokens.
abbrev pub occurrences : Text → List Text → ℕ
occurrences v ts = count_where (text_eq v) ts

-- The loop over the keys of `ac`.
abbrev pub add_common : List Text → List Text → List Text → ℕ
add_common a e [] = 0
add_common a e (v ∷ vs) =
    (if ltb (occurrences v e) (occurrences v a) then occurrences v e else occurrences v a)
    + add_common a e vs

unfoldable pub common_tokens : List Text → List Text → ℕ
unfolding count_where text_eq distinct
common_tokens a e = add_common a e (distinct a)

-- `strings.Contains`
abbrev pub contains : Text → Text → Bool
contains [] p = has_prefix [] p
contains (c ∷ t) p = has_prefix (c ∷ t) p || contains t p

-- `strings.ReplaceAll(text, old, "")` for a text `old` that is not empty. `skip` is what is left of
-- an occurrence.
unfoldable pub remove_all : Text → ℕ → Text → Text
unfolding has_prefix
remove_all old skip [] = []
remove_all old (suc skip) (c ∷ t) = remove_all old skip t
remove_all old zero (c ∷ t) =
    let found = has_prefix (c ∷ t) old in
    let rest = remove_all old (if found then length old - 1 else 0) t in
    if found then rest else c ∷ rest

-- `strings.FieldsFunc`: the parts between the runes that end a part, without the empty ones.
abbrev pub end_field : Text → List Text → List Text
end_field field fields = if is_empty field then fields else field ∷ fields

unfoldable pub fields_func : (ℕ → Bool) → Text → Text → List Text
fields_func ends field [] = end_field field []
fields_func ends field (c ∷ t) =
    let rest = fields_func ends (if ends c then [] else field ++ (c ∷ [])) t in
    if ends c then end_field field rest else rest

-- The marks that end a sentence, and a new line.
abbrev pub ends_claim : ℕ → Bool
ends_claim r =
    r == 0x3002 || r == 0xFF01 || r == 0xFF1F || r == b'.' || r == b'!' || r == b'?' || r == 10

-- `strings.ReplaceAll` of the citations `[i]`, `i + 1`, …, `n` of them.
unfoldable pub remove_citations : ℕ → ℕ → Text → Text
unfolding remove_all
remove_citations i zero clean = clean
remove_citations i (suc n) clean =
    remove_citations (i + 1) n (remove_all (b'[' ∷ (decimal i ++ (b']' ∷ []))) 0 clean)

abbrev pub refusals : List Text
refusals =
    codes "不知道"
    ∷ codes "无法回答"
    ∷ codes "资料不足"
    ∷ codes "没有足够"
    ∷ codes "无法确定"
    ∷ codes "not enough information"
    ∷ codes "cannot answer"
    ∷ codes "don't know"
    ∷ []

unfoldable pub looks_refused : (Text → Text) → Text → Bool
unfolding has_prefix trim_space
looks_refused to_lower answer = any (contains (to_lower (trim_space answer))) refusals

-- `unsupported` and `total`
pub record Claims : Type 0 where
  pub unsupported : ℕ
  pub total : ℕ

abbrev pub is_in : List Text → Text → Bool
is_in names name = any (text_eq name) names

abbrev pub same_truth : Bool → Bool → Bool
same_truth true b = b
same_truth false b = not b

module _ {N : Numbers} (B : Bench N) where
  abbrev pub of_count : ℕ → N.Float
  of_count n = N.from_int (pos n)

  abbrev pub share_of : ℕ → ℕ → N.Float
  share_of a b = B.over (of_count a) (of_count b)

  -- `2 * p * r / (p + r)`
  abbrev pub harmonic : N.Float → N.Float → N.Float
  harmonic p r = B.over (N.times (N.times (of_count 2) p) r) (N.plus p r)

  unfoldable pub f1_of : List Text → List Text → N.Float
  unfolding common_tokens
  f1_of a e =
      let common = common_tokens a e in
      if length e == 0
      then (if length a == 0 then N.one else N.nought)
      else if length a == 0 || common == 0
      then N.nought
      else harmonic (share_of common (length a)) (share_of common (length e))

  unfoldable pub evidence_of : List (Hit N.Float) → Text
  evidence_of [] = []
  evidence_of (h ∷ hs) = (b' ' ∷ h.content) ++ evidence_of hs

  -- `float64(matched)/float64(len(tokens)) < 0.5`
  abbrev pub is_unsupported : List Text → List Text → Bool
  is_unsupported evidence tokens =
      N.lt (share_of (count_where (λ t. any (text_eq t) evidence) tokens) (length tokens))
        (B.over N.one (of_count 2))

  abbrev pub add_claim : List Text → List Text → Claims → Claims
  add_claim evidence tokens s = if ltb (length tokens) 2 then s else record {
    unsupported = s.unsupported + (if is_unsupported evidence tokens then 1 else 0);
    total = s.total + 1;
  }

  abbrev pub citation_precision_of : List Text → List Text → N.Float
  citation_precision_of cited wanted =
      if length cited == 0
      then (if length wanted == 0 then N.one else N.nought)
      else share_of (count_where (is_in wanted) cited) (length cited)

  abbrev pub citation_recall_of : List Text → List Text → N.Float
  citation_recall_of cited wanted =
      if ltb 0 (length wanted)
      then share_of (count_where (is_in cited) wanted) (length wanted)
      else N.one

  -- The two rates of the claims, when the answer is no refusal that is due.
  abbrev pub unsupported_rate : Bool → Claims → N.Float
  unsupported_rate refused_rightly s =
      if not refused_rightly && ltb 0 s.total then share_of s.unsupported s.total else N.nought

  abbrev pub faithfulness_of : Bool → Claims → N.Float
  faithfulness_of refused_rightly s =
      if refused_rightly
      then N.one
      else if ltb 0 s.total
      then N.minus N.one (share_of s.unsupported s.total)
      else N.nought

module _ {N : Numbers} (B : Bench N) (to_lower : Text → Text) where
  unfoldable pub token_f1 : Text → Text → N.Float
  unfolding f1_of text_tokens
  token_f1 actual expected = f1_of B (text_tokens to_lower actual) (text_tokens to_lower expected)

  unfoldable pub count_claims : List Text → List Text → Claims → Claims
  unfolding count_where text_eq text_tokens
  count_claims evidence [] s = s
  count_claims evidence (claim ∷ claims) s =
      count_claims evidence claims (add_claim B evidence (text_tokens to_lower claim) s)

  unfoldable pub unsupported_claims : Text → List (Hit N.Float) → Claims
  unfolding count_claims fields_func remove_citations evidence_of text_tokens
  unsupported_claims answer hits =
      count_claims (text_tokens to_lower (evidence_of B hits))
        (fields_func ends_claim [] (remove_citations 1 (length hits) answer))
        (record { unsupported = 0; total = 0 })

  -- RuleJudge.Evaluate
  unfoldable pub evaluate : Case → Text → List (Hit N.Float) → AnswerScores N.Float
  unfolding token_f1 looks_refused cited_documents distinct unsupported_claims count_where text_eq
  evaluate item answer hits =
      let refused = looks_refused to_lower answer in
      let cited = cited_documents B.normalize_name answer hits in
      let wanted = distinct (map B.normalize_name item.required_citations) in
      let claims = unsupported_claims answer hits in
      let due = item.should_refuse && refused in
      record {
        answer_correctness = if due then N.one else token_f1 answer item.reference_answer;
        citation_precision = citation_precision_of B cited wanted;
        citation_recall = citation_recall_of B cited wanted;
        faithfulness = faithfulness_of B due claims;
        unsupported_claim_rate = unsupported_rate B due claims;
        refusal_accuracy = if same_truth refused item.should_refuse then N.one else N.nought;
      }
