-- ===== src/Config/Reads.antt =====
-- internal/config/config.go: what Load reads of an environment that sets the numbers.
use dong_rag.Base.{
  ℕ, zero, suc, ◌+◌, ◌*◌, ◌/◌, ◌%◌, ◌<◌, ◌≡◌, refl, sym, ap, ◌∙◌, ◌↔◌, inl, inr, Bool, true, false,
  ◌&&◌, none, some, [], ◌∷◌, ◌++◌, append_assoc, append-nil, arith, ltb, leb, Bool-cases,
  decimal-All, decimal-is_empty, All, ℤ, pos, GoError, Text, codes, is_empty, decimal_loop, decimal,
  is_space, trim_left, trim_right, trim_space,
}
use dong_rag.Config.{
  Environment, Config, digits_from, positive, atoi, env_int, times_ℤ, wrap_int64, settings,
  is_invalid, error_if, invalid_configuration, load,
}

abbrev is_decimal_digit : ℕ → Bool
is_decimal_digit c = leb 48 c && leb c 57

digits_from-decimal :
    (fuel n : ℕ) (t : Text) → n < fuel → digits_from 0 (decimal_loop fuel n ++ t) ≡ digits_from n t
digits_from-decimal zero n t h = absurd (omega arith)
digits_from-decimal (suc fuel) n t h = elim (Bool-cases (ltb n 10)) [
  | inl small ↦ rw small (ground arith)
  | inr large ↦
      rw
        (
          large,
          append_assoc (decimal_loop fuel (n / 10)) ((48 + n % 10) ∷ []) t,
          digits_from-decimal fuel (n / 10) ((48 + n % 10) ∷ t) (ground arith),
        )
        (ground arith)
]

digit_not_space : (d : ℕ) → d < 10 → is_space (48 + d) ≡ false
unfolding is_space
digit_not_space d h = ground arith

trim_right_id : (t : Text) → All (λ c. is_space c ≡ false) t → trim_right t ≡ t
unfolding trim_right
trim_right_id [] a = refl
trim_right_id (c ∷ t) (h, a) = rw (trim_right_id t a) (ground (arith, h))

trim_left_id : (t : Text) → All (λ c. is_space c ≡ false) t → trim_left t ≡ t
unfolding trim_left
trim_left_id [] a = refl
trim_left_id (c ∷ t) (h, a) = rw h refl

trim_space-decimal : (n : ℕ) → trim_space (decimal n) ≡ decimal n
unfolding trim_space
trim_space-decimal n =
    let plain = decimal-All (λ c. is_space c ≡ false) n digit_not_space in
    ap trim_right (trim_left_id (decimal n) plain) ∙ trim_right_id (decimal n) plain

atoi_digits :
    (t : Text)
    → is_empty t ≡ false
    → All (λ c. is_decimal_digit c ≡ true) t
    → atoi t ≡ positive (digits_from 0 t)
atoi_digits [] e a = absurd (cc)
atoi_digits (c ∷ t) e (h, a) = ground (arith, h)

atoi-decimal : (n : ℕ) → n < 9_223_372_036_854_775_808 → atoi (decimal n) ≡ some (pos n)
atoi-decimal n h =
    let plain = decimal-All (λ c. is_decimal_digit c ≡ true) n (λ d k. ground (arith, k)) in
    let number : digits_from 0 (decimal n) ≡ some n =
      ap (digits_from 0) (sym (append-nil (decimal n)))
      ∙ digits_from-decimal (suc n) n [] (omega arith) in
    atoi_digits (decimal n) (decimal-is_empty n) plain ∙ ap positive number ∙ ground (arith, h)

-- The variable is set to the number, which an int64 holds.
abbrev pub Sets : Environment → Text → ℕ → Type 0
Sets e key n = (e key ≡ decimal n) × (n < 9_223_372_036_854_775_808)

env_int-decimal :
    (e : Environment) (key : Text) (fallback : ℤ) (n : ℕ)
    → Sets e key n
    → env_int e key fallback ≡ pos n
unfolding env_int
env_int-decimal e key fallback n (h, small) =
    rw (h, trim_space-decimal n, decimal-is_empty n, atoi-decimal n small) refl

megabytes :
    (n : ℕ)
    → n < 8_796_093_022_208
    → wrap_int64 (times_ℤ (wrap_int64 (times_ℤ (pos n) 1024)) 1024) ≡ pos (n * 1048576)
megabytes n h = ground (arith, h)

-- What the parts of the program ask of the numbers.
abbrev pub AreUsable : (dim size overlap k m t : ℕ) → Type 0
AreUsable dim size overlap k m t = (0 < dim) × (overlap < size) × (0 < k) × (0 < m) × (0 < t)

numbers_checked :
    (c : Config) (dim size overlap k m t : ℕ)
    → c.embedding_dim ≡ pos dim
    → c.chunk_size ≡ pos size
    → c.chunk_overlap ≡ pos overlap
    → c.retrieval_candidate_k ≡ pos k
    → c.rerank_max_per_doc ≡ pos m
    → c.rerank_timeout_ms ≡ pos t
    → (is_invalid c ≡ false) ↔ AreUsable dim size overlap k m t
unfolding is_invalid
numbers_checked c dim size overlap k m t a b d e f g =
    rw (a, b, d, e, f, g) ((λ h. ground (arith, h)), (λ h. ground (arith, h)))

error_if-none : (b : Bool) (x : GoError) → (error_if b x ≡ none) ↔ (b ≡ false)
error_if-none true x = ((λ h. absurd (cc)), (λ h. absurd (cc)))
error_if-none false x = ((λ h. refl), (λ h. refl))

-- Where the variables of the numbers are set to decimals without a sign, of numbers below 2^63 and
-- an upload limit below 2^43 megabytes: Load reads these numbers, and counts the upload limit in
-- bytes; and it reports no error exactly if the dimension, the number of candidates, the limit of
-- hits of a document and the timeout are positive, and the overlap of chunks is below their size.
pub load-reads :
    (e : Environment) (dim size overlap k m t mb : ℕ)
    → Sets e (codes "EMBEDDING_DIM") dim
    → Sets e (codes "CHUNK_SIZE") size
    → Sets e (codes "CHUNK_OVERLAP") overlap
    → Sets e (codes "RETRIEVAL_CANDIDATE_K") k
    → Sets e (codes "RERANK_MAX_PER_DOC") m
    → Sets e (codes "RERANK_TIMEOUT_MS") t
    → Sets e (codes "MAX_UPLOAD_MB") mb
    → mb < 8_796_093_022_208
    → let c = (load e).0 in
      (c.embedding_dim ≡ pos dim)
      × (c.chunk_size ≡ pos size)
      × (c.chunk_overlap ≡ pos overlap)
      × (c.retrieval_candidate_k ≡ pos k)
      × (c.rerank_max_per_doc ≡ pos m)
      × (c.rerank_timeout_ms ≡ pos t)
      × (c.max_upload_bytes ≡ pos (mb * 1048576))
      × (((load e).1 ≡ none) ↔ AreUsable dim size overlap k m t)
unfolding load settings
load-reads e dim size overlap k m t mb a b c d f g u small =
    let a' = env_int-decimal e (codes "EMBEDDING_DIM") (pos 1024) dim a in
    let b' = env_int-decimal e (codes "CHUNK_SIZE") (pos 1200) size b in
    let c' = env_int-decimal e (codes "CHUNK_OVERLAP") (pos 200) overlap c in
    let d' = env_int-decimal e (codes "RETRIEVAL_CANDIDATE_K") (pos 50) k d in
    let f' = env_int-decimal e (codes "RERANK_MAX_PER_DOC") (pos 2) m f in
    let g' = env_int-decimal e (codes "RERANK_TIMEOUT_MS") (pos 30000) t g in
    let u' = env_int-decimal e (codes "MAX_UPLOAD_MB") (pos 10) mb u in
    let checked = numbers_checked (settings e) dim size overlap k m t a' b' c' d' f' g' in
    let reported = error_if-none (is_invalid (settings e)) invalid_configuration in
    (
      a',
      b',
      c',
      d',
      f',
      g',
      ap (λ n. wrap_int64 (times_ℤ (wrap_int64 (times_ℤ n 1024)) 1024)) u' ∙ megabytes mb small,
      ((λ h. checked.0 (reported.0 h)), (λ h. reported.1 (checked.1 h))),
    )
