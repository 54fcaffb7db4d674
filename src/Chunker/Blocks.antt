-- ===== src/Chunker/Blocks.antt =====
-- internal/rag/chunker.go: `ChunkBlocks`, `addHeadingContext` and `cloneMetadata`, which copies.
-- internal/rag/chunker.go's `ChunkPart` has the fields of `SourceBlock`.
use dong_rag.Base.{
  ℕ, zero, suc, ◌+◌, ◌-◌, ◌≤◌, ◌≡◌, refl, ap, ◌∙◌, inl, inr, Bool, true, false, ◌&&◌, Option, none,
  some, List, [], ◌∷◌, ◌++◌, arith, ltb, ◌==◌, if◌then◌else◌, length, ℤ, lookup, insert,
  lookup-insert, Text, codes, text_eq, text_eq_refl, trim_space, replace_crlf, join,
}
use dong_rag.Store.Tables.{
  Value, string_value, int_value, strings_value, anys_value, other_value, Metadata,
}
use dong_rag.Chunker.Split.{chunk_text}
use dong_rag.Chunker.Windows.{cut, chunk_text-Cuts}
use dong_rag.Chunker.Plain.{SourceBlock, line_feed}

unfoldable pub texts_eq : List Text → List Text → Bool
texts_eq [] [] = true
texts_eq [] (b ∷ bs) = false
texts_eq (a ∷ xs) [] = false
texts_eq (a ∷ xs) (b ∷ bs) = text_eq a b && texts_eq xs bs

abbrev option_text_eq : Option Text → Option Text → Bool
option_text_eq none none = true
option_text_eq none (some b) = false
option_text_eq (some a) none = false
option_text_eq (some a) (some b) = text_eq a b

unfoldable pub items_eq : List (Option Text) → List (Option Text) → Bool
unfolding text_eq
items_eq [] [] = true
items_eq [] (b ∷ bs) = false
items_eq (a ∷ xs) [] = false
items_eq (a ∷ xs) (b ∷ bs) = option_text_eq a b && items_eq xs bs

unfoldable pub value_eq : Value → Value → Bool
unfolding texts_eq items_eq
value_eq (string_value a) (string_value b) = text_eq a b
value_eq (int_value a) (int_value b) = a == b
value_eq (strings_value a) (strings_value b) = texts_eq a b
value_eq (anys_value a) (anys_value b) = items_eq a b
value_eq (other_value a) (other_value b) = text_eq a b
value_eq _ _ = false

abbrev same_value : Value → Option Value → Bool
same_value v none = false
same_value v (some w) = value_eq v w

-- Whether each entry of the first map stands in the second.
unfoldable pub submap : Metadata → Metadata → Bool
unfolding value_eq
submap [] n = true
submap ((k, v) ∷ m) n = same_value v (lookup k n) && submap m n

-- `reflect.DeepEqual` on two maps.
unfoldable pub metadata_eq : Metadata → Metadata → Bool
unfolding submap
metadata_eq m n = submap m n && submap n m

-- The texts of the blocks that follow with the same metadata, and the blocks behind them.
unfoldable pub take_group : Metadata → List SourceBlock → List Text × List SourceBlock
take_group m [] = ([], [])
take_group m (b ∷ bs) =
    let (texts, rest) = take_group m bs in
    if metadata_eq m b.metadata then (b.text ∷ texts, rest) else ([], b ∷ bs)

abbrev with_heading : Text → Option Value → Text
with_heading t (some (strings_value [])) = t
with_heading t (some (strings_value (h ∷ hs))) =
    join (codes " > ") (h ∷ hs) ++ (line_feed ++ (line_feed ++ t))
with_heading t _ = t

unfoldable pub add_heading_context : Text → Metadata → Text
unfolding join
add_heading_context t m = with_heading t (lookup (codes "heading_path") m)

unfoldable pub part_metadata : Metadata → ℕ → ℕ → ℕ → Metadata
part_metadata m start end index =
    let m' = insert (codes "block_index") (int_value start) m in
    let m'' =
      if ltb 1 (end - start)
      then insert (codes "block_end_index") (int_value (end - 1)) m'
      else m' in
    insert (codes "chunk_index") (int_value index) m''

-- The chunks of one group, appended to the parts so far.
unfoldable pub add_parts : Metadata → ℕ → ℕ → List Text → List SourceBlock → List SourceBlock
unfolding part_metadata add_heading_context
add_parts m start end [] parts = parts
add_parts m start end (chunk ∷ chunks) parts =
    let metadata = part_metadata m start end (length parts) in
    add_parts m start end chunks
      (parts ++ record { text = add_heading_context chunk metadata; metadata = metadata } ∷ [])

-- The loop of `ChunkBlocks` over the blocks from `start`; `none` if the fuel runs out.
unfoldable pub chunk_groups :
    ℕ → List SourceBlock → ℤ → ℤ → ℕ → List SourceBlock → Option (List SourceBlock)
unfolding take_group add_parts
chunk_groups fuel [] size overlap start parts = some parts
chunk_groups zero (b ∷ bs) size overlap start parts = none
chunk_groups (suc fuel) (b ∷ bs) size overlap start parts =
    let (texts, rest) = take_group b.metadata bs in
    let end = start + 1 + length texts in
    elim (chunk_text (join (line_feed ++ line_feed) (b.text ∷ texts)) size overlap) [
      | none ↦ none
      | some chunks ↦
          chunk_groups fuel rest size overlap end (add_parts b.metadata start end chunks parts)
    ]

unfoldable pub chunk_blocks : List SourceBlock → ℤ → ℤ → Option (List SourceBlock)
unfolding chunk_groups
chunk_blocks blocks size overlap = chunk_groups (length blocks) blocks size overlap 0 []

-- The parts from index `n` on carry their index.
abbrev pub Indexed : ℕ → List SourceBlock → Type 0
Indexed n [] = Unit {0}
Indexed n (p ∷ ps) =
    (lookup (codes "chunk_index") p.metadata ≡ some (int_value n)) × Indexed (suc n) ps

Indexed-append :
    (n k : ℕ) (ps : List SourceBlock) (p : SourceBlock)
    → Indexed n ps
    → n + length ps ≡ k
    → lookup (codes "chunk_index") p.metadata ≡ some (int_value k)
    → Indexed n (ps ++ p ∷ [])
Indexed-append n k [] p h e l = (rw l (ap (λ i. some (int_value i)) (omega arith)), tt)
Indexed-append n k (q ∷ ps) p h e l = (h.0, Indexed-append (suc n) k ps p h.1 (omega arith) l)

index_of_part :
    (m : Metadata) (start end index : ℕ)
    → lookup (codes "chunk_index") (part_metadata m start end index) ≡ some (int_value index)
unfolding part_metadata
index_of_part m start end index =
    lookup-insert (codes "chunk_index") (codes "chunk_index") (int_value index) _
    ∙ rw (text_eq_refl (codes "chunk_index"))

add_parts-Indexed :
    (m : Metadata) (start end : ℕ) (chunks : List Text) (parts : List SourceBlock)
    → Indexed 0 parts
    → Indexed 0 (add_parts m start end chunks parts)
unfolding add_parts
add_parts-Indexed m start end [] parts h = h
add_parts-Indexed m start end (chunk ∷ chunks) parts h = add_parts-Indexed m start end chunks _ (
    Indexed-append 0 (length parts) parts _ h (omega arith)
      (index_of_part m start end (length parts)))

length-take_group : (m : Metadata) (bs : List SourceBlock) → length (take_group m bs).1 ≤ length bs
unfolding take_group
length-take_group m [] = omega arith
length-take_group m (b ∷ bs) = ground (arith, length-take_group m bs)

chunk_text_total :
    (t : Text) (size overlap : ℤ) → (cs : List Text) × (chunk_text t size overlap ≡ some cs)
chunk_text_total t size overlap = elim (chunk_text-Cuts t size overlap) [
  | inl (why, e) ↦ ([], e)
  | inr (ws, chain, e, covered) ↦ (cut (trim_space (replace_crlf t)) ws, e)
]

chunk_groups-Indexed :
    (fuel : ℕ) (bs : List SourceBlock) (size overlap : ℤ) (start : ℕ) (parts : List SourceBlock)
    → length bs ≤ fuel
    → Indexed 0 parts
    → (ps : List SourceBlock) × (chunk_groups fuel bs size overlap start parts ≡ some ps)
      × Indexed 0 ps
unfolding chunk_groups
chunk_groups-Indexed fuel [] size overlap start parts f h = (parts, refl, h)
chunk_groups-Indexed zero (b ∷ bs) size overlap start parts f h = absurd (omega arith)
chunk_groups-Indexed (suc fuel) (b ∷ bs) size overlap start parts f h =
    let texts = (take_group b.metadata bs).0 in
    let end = start + 1 + length texts in
    let (cs, e) = chunk_text_total (join (line_feed ++ line_feed) (b.text ∷ texts)) size overlap in
    let (ps, e', i) =
      chunk_groups-Indexed fuel (take_group b.metadata bs).1 size overlap end
        (add_parts b.metadata start end cs parts) (omega (arith, length-take_group b.metadata bs))
        (add_parts-Indexed b.metadata start end cs parts h) in
    (ps, rw (e, chunk_groups) e', i)

-- `ChunkBlocks` always returns, and its parts carry their positions as `chunk_index`.
pub chunk_blocks-Indexed :
    (bs : List SourceBlock) (size overlap : ℤ)
    → (ps : List SourceBlock) × (chunk_blocks bs size overlap ≡ some ps) × Indexed 0 ps
unfolding chunk_blocks
chunk_blocks-Indexed bs size overlap =
    chunk_groups-Indexed (length bs) bs size overlap 0 [] (omega arith) tt
