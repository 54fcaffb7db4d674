-- ===== src/Retrieval/Context.antt =====
-- internal/rag/service.go: PrepareGenerationContext, generationScore, contextBlock and
-- metadataHeading. `strings.ToLower` is the parameter `to_lower`.
use dong_rag.Retrieval.Diverse.{or_two}
use dong_rag.Base.{
  ℕ, ◌+◌, Bool, ◌||◌, Option, none, some, List, [], ◌∷◌, ◌++◌, ltb, leb, if◌then◌else◌, length, any,
  ℤ, pos, ltb_ℤ, lookup, Text, codes, text_eq, is_empty, decimal, is_space, trim_space, join,
}
use dong_rag.Store.Tables.{Value, string_value, int_value, strings_value, anys_value, other_value}
use dong_rag.Retrieval.Hit.{Floats, Hit, Tally, tally, bump}
pub mod Bounds

-- `strings.Fields`: the words that are finished, and the one that is not.
abbrev word_step : List Text × Text → ℕ → List Text × Text
word_step (words, word) c =
    if is_space c
    then (if is_empty word then words else words ++ (word ∷ []), [])
    else (words, word ++ (c ∷ []))

abbrev words_from : List Text × Text → Text → List Text
words_from (words, word) [] = if is_empty word then words else words ++ (word ∷ [])
words_from s (c ∷ cs) = words_from (word_step s c) cs

abbrev fields : Text → List Text
fields t = words_from ([], []) t

-- `len` of a string: the bytes of its UTF-8 encoding.
abbrev rune_bytes : ℕ → ℕ
rune_bytes c = if ltb c 128 then 1 else if ltb c 2048 then 2 else if ltb c 65536 then 3 else 4

unfoldable pub byte_length : Text → ℕ
byte_length [] = 0
byte_length (c ∷ cs) = rune_bytes c + byte_length cs

abbrev texts_in : List (Option Text) → List Text
texts_in [] = []
texts_in (none ∷ ts) = texts_in ts
texts_in (some [] ∷ ts) = texts_in ts
texts_in (some (c ∷ t) ∷ ts) = (c ∷ t) ∷ texts_in ts

unfoldable pub metadata_heading : Option Value → Text
metadata_heading (some (strings_value path)) = join (codes " > ") path
metadata_heading (some (anys_value path)) = join (codes " > ") (texts_in path)
metadata_heading _ = []

abbrev option_texts : List (Option Text) → List Text
option_texts [] = []
option_texts (none ∷ ts) = codes "<nil>" ∷ option_texts ts
option_texts (some t ∷ ts) = t ∷ option_texts ts

-- `fmt.Sprintf("%v", value)`
abbrev show_value : Value → Text
show_value (string_value t) = t
show_value (int_value n) = decimal n
show_value (strings_value ts) = codes "[" ++ join (codes " ") ts ++ codes "]"
show_value (anys_value ts) = codes "[" ++ join (codes " ") (option_texts ts) ++ codes "]"
show_value (other_value t) = t

abbrev heading_line : Text → List Text
heading_line [] = []
heading_line (c ∷ t) = (codes "章节：" ++ c ∷ t) ∷ []

abbrev page_line : Option Value → List Text
page_line none = []
page_line (some page) = (codes "页码：" ++ show_value page) ∷ []

module _ (F : Floats) (to_lower : Text → Text) where
  unfoldable pub context_block : ℕ → Hit F.Float → Text
  unfolding metadata_heading lookup join trim_space
  context_block index hit =
      codes "["
      ++ decimal index
      ++ codes "] "
      ++ join (codes " | ") (
          (codes "文档：" ++ hit.document_name)
            ∷ heading_line (metadata_heading (lookup (codes "heading_path") hit.metadata))
          ++ page_line (lookup (codes "page") hit.metadata))
      ++ codes "\n正文："
      ++ trim_space hit.content
      ++ codes "\n\n"

  unfoldable pub generation_score : Hit F.Float → F.Float
  generation_score h =
      if ltb 0 h.rerank_rank
      then h.rerank_score
      else if F.lt h.rrf_score F.nought || F.lt F.nought h.rrf_score
      then h.rrf_score
      else h.score

  -- `sort.SliceStable` by the score, from the highest on.
  unfoldable pub place_hit : Hit F.Float → List (Hit F.Float) → List (Hit F.Float)
  unfolding generation_score
  place_hit h [] = h ∷ []
  place_hit h (k ∷ ks) =
      if F.lt (generation_score h) (generation_score k) then k ∷ place_hit h ks else h ∷ k ∷ ks

  unfoldable pub by_score : List (Hit F.Float) → List (Hit F.Float)
  unfolding place_hit
  by_score [] = []
  by_score (h ∷ hs) = place_hit h (by_score hs)

  unfoldable pub content_key : Hit F.Float → Text
  unfolding join
  content_key h = join (codes " ") (fields (to_lower h.content))

  pub record Gathered : Type 0 where
    pub seen_content : List Text
    pub document_counts : Tally
    pub gathered : List (Hit F.Float)
    pub builder : Text

  -- The loop's body: whether a hit is passed over.
  unfoldable pub is_passed : ℤ → ℕ → Gathered → Hit F.Float → Bool
  unfolding content_key context_block byte_length tally text_eq
  is_passed max_chars max_per_document s h =
      is_empty (content_key h)
      || any (text_eq (content_key h)) s.seen_content
      || leb max_per_document (tally h.document_id s.document_counts)
      || ltb_ℤ max_chars
          (pos (byte_length s.builder + byte_length (context_block (length s.gathered + 1) h)))

  unfoldable pub add_block : Gathered → Hit F.Float → Gathered
  unfolding content_key context_block bump
  add_block s h = record {
    seen_content = content_key h ∷ s.seen_content;
    document_counts = bump h.document_id s.document_counts;
    gathered = s.gathered ++ h ∷ [];
    builder = s.builder ++ context_block (length s.gathered + 1) h;
  }

  unfoldable pub gather : ℤ → ℕ → Gathered → List (Hit F.Float) → Gathered
  unfolding is_passed add_block
  gather max_chars max_per_document s [] = s
  gather max_chars max_per_document s (h ∷ hs) =
      gather max_chars max_per_document
        (if is_passed max_chars max_per_document s h then s else add_block s h) hs

  abbrev pub nothing_gathered : Gathered
  nothing_gathered = record { seen_content = []; document_counts = []; gathered = []; builder = [] }

  abbrev pub no_context : Text
  no_context = codes "（没有可用参考资料）"

  abbrev pub finish_context : Gathered → List (Hit F.Float) × Text
  finish_context s = if is_empty s.builder then ([], no_context) else (s.gathered, s.builder)

  unfoldable pub prepare_generation_context : List (Hit F.Float) → ℤ → ℤ → List (Hit F.Float) × Text
  unfolding gather by_score
  prepare_generation_context hits max_chars max_per_document =
      finish_context (gather max_chars (or_two max_per_document) nothing_gathered (by_score hits))
