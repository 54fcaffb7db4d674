-- ===== src/Search/Rows.antt =====
-- internal/store/store.go: the rows that the searches rank are no chunk twice and of documents that
-- exist, so that no join drops one.
use dong_rag.Base.{
  ℕ, ◌≡◌, refl, inl, inr, Bool, true, Option, none, some, List, [], ◌∷◌, arith, Permᴰ, Bool-cases,
  take, All, any, keep, find_where, Apart, Apart-keep, All-keep, Apart-perm, perm_refl, All-perm,
  All-take, Apart-take, Apart-weaken, text_eq, text_eq_sym,
}
use dong_rag.Store.Tables.{Document, Chunk}
use dong_rag.Store.Library.{Library, is_document_of, chunks_clash}
use dong_rag.Store.Library.Sound.{IsSound}
use dong_rag.Search.{place_row, order_by}

abbrev pub same_chunk : {Float : Type 0} → Chunk Float → Chunk Float → Bool
same_chunk a b = text_eq a.id b.id

abbrev pub Existing : {Float : Type 0} → Library Float → Chunk Float → Type 0
Existing l c = any (is_document_of c.document_id) l.documents ≡ true

-- The rows that a search ranks: no chunk twice, each of an existing document.
abbrev pub Rows : {Float : Type 0} → Library Float → List (Chunk Float) → Type 0
Rows l cs = Apart same_chunk cs × All (Existing l) cs

abbrev pub blank : Document
blank = record {
  id = [];
  name = [];
  content_type = [];
  size_bytes = 0;
  checksum = [];
  created_at = 0;
}

abbrev pub document_or_blank : Option Document → Document
document_or_blank none = blank
document_or_blank (some d) = d

pub find-any :
    {A : Type 0}
    → (p : A → Bool) (xs : List A) → any p xs ≡ true
    → (x : A) × (find_where p xs ≡ some x)
unfolding find_where
find-any p [] h = absurd (cc)
find-any p (x ∷ xs) h = elim (Bool-cases (p x)) [
  | inl y ↦ (x, rw (y, find_where) refl)
  | inr n ↦ let (z, e) = find-any p xs (ground (arith, h, n)) in (z, rw (n, find_where) e)
]

place_row-perm :
    {A : Type 0} → (p : A → A → Bool) (a : A) (xs : List A) → Permᴰ (a ∷ xs) (place_row p a xs)
unfolding place_row
place_row-perm p a [] = Permᴰ.cons refl Permᴰ.nil
place_row-perm p a (x ∷ xs) =
    let rest = place_row-perm p a xs in
    elim (Bool-cases (p x a)) [
      | inl y ↦ rw y (Permᴰ.trans (Permᴰ.swap refl refl) (Permᴰ.cons refl rest))
      | inr n ↦ rw n (perm_refl (a ∷ x ∷ xs))
    ]

order_by-perm : {A : Type 0} → (p : A → A → Bool) (xs : List A) → Permᴰ xs (order_by p xs)
unfolding order_by
order_by-perm p [] = Permᴰ.nil
order_by-perm p (x ∷ xs) =
    Permᴰ.trans (Permᴰ.cons refl (order_by-perm p xs)) (place_row-perm p x (order_by p xs))

module _ {Float : Type 0} (l : Library Float) where
  pub order_by-Rows :
      (p : Chunk Float → Chunk Float → Bool) (cs : List (Chunk Float))
      → Rows l cs
      → Rows l (order_by p cs)
  order_by-Rows p cs (a, e) = (
    Apart-perm same_chunk (λ x y. text_eq_sym x.id y.id) (order_by-perm p cs) a,
    All-perm (Existing l) (order_by-perm p cs) e,
  )

  pub take-Rows : (n : ℕ) (cs : List (Chunk Float)) → Rows l cs → Rows l (take n cs)
  take-Rows n cs (a, e) = (Apart-take same_chunk n cs a, All-take (Existing l) n cs e)

  pub keep-Rows :
      (q : Chunk Float → Bool) (cs : List (Chunk Float)) → Rows l cs → Rows l (keep q cs)
  keep-Rows q cs (a, e) =
      (Apart-keep same_chunk q cs a, All-keep (Existing l) (Existing l) q cs (λ x y h. h) e)

  pub chunks-Rows : IsSound l → Rows l l.chunks
  unfolding chunks_clash
  chunks-Rows s = (
    Apart-weaken chunks_clash same_chunk (λ a b h. ground (arith, h)) l.chunks s.chunks_apart,
    s.documents_exist,
  )

  abbrev pub document_of : Chunk Float → Document
  document_of c = document_or_blank (find_where (is_document_of c.document_id) l.documents)
