-- ===== src/Provider/Streams.antt =====
-- internal/provider/bailian.go: what Stream hands on of a stream that can be read.
use dong_rag.Base.{
  ◌≡◌, refl, sym, ap, ◌∙◌, inl, inr, true, false, not, Option, none, some, List, [], ◌∷◌, ◌++◌,
  append_assoc, append-nil, arith, if◌then◌else◌, Bool-cases, keep, Result, ok, Text, codes,
  text_eq, is_empty,
}
use dong_rag.Retrieval.Query.{Streamed}
use dong_rag.Provider.{HttpResponse, Exchange, response_of, is_success}
use dong_rag.Provider.Bailian.{
  Scanned, OnChunk, add_token, ended, unless_emitted, line_data, hand_on, with_data, scan_lines,
  bailian_stream,
}

-- The deltas that are not empty.
abbrev pub said : List Text → List Text
said ts = keep (λ t. not (is_empty t)) ts

abbrev pub adds : List Text → Streamed → Streamed
adds ts s = record { tokens = ts ++ s.tokens; stream_error = s.stream_error }

module _ (deltas : Text → List Text) where
  abbrev pub spoken_in : Option Text → List Text → List Text
  spoken_in none rest = rest
  spoken_in (some content) rest =
      if text_eq content (codes "[DONE]") then [] else said (deltas content) ++ rest

  -- The deltas of the data lines before the line that ends the stream.
  abbrev pub spoken : List Text → List Text
  spoken [] = []
  spoken (l ∷ ls) = spoken_in (line_data l) (spoken ls)

-- Every data line before the line that ends the stream is decoded, into its deltas.
abbrev pub ReadsData :
    (Text → Result (List Text)) → (Text → List Text) → Option Text → Type 0 → Type 0
ReadsData decode deltas none rest = rest
ReadsData decode deltas (some content) rest =
    text_eq content (codes "[DONE]") ≡ false → (decode content ≡ ok (deltas content)) × rest

abbrev pub Reads : (Text → Result (List Text)) → (Text → List Text) → List Text → Type 0
Reads decode deltas [] = Unit {0}
Reads decode deltas (l ∷ ls) = ReadsData decode deltas (line_data l) (Reads decode deltas ls)

module _ (on_chunk : OnChunk) (takes : (done : List Text) (t : Text) → on_chunk done t ≡ none) where
  hand_on_takes :
      (t : Text) (ts done : List Text) (rest : List Text → Streamed)
      → is_empty t ≡ false
      → hand_on on_chunk (t ∷ ts) done rest
        ≡ add_token t (hand_on on_chunk ts (done ++ (t ∷ [])) rest)
  unfolding hand_on
  hand_on_takes t ts done rest n = ground (arith, n, takes done t)

  hand_on_passes :
      (t : Text) (ts done : List Text) (rest : List Text → Streamed)
      → is_empty t ≡ true
      → hand_on on_chunk (t ∷ ts) done rest ≡ hand_on on_chunk ts done rest
  unfolding hand_on
  hand_on_passes t ts done rest n = ground (arith, n)

  hand_on-adds :
      (ts done : List Text) (rest : List Text → Streamed)
      → hand_on on_chunk ts done rest ≡ adds (said ts) (rest (done ++ said ts))
  unfolding hand_on keep
  hand_on-adds [] done rest = ap rest (sym (append-nil done))
  hand_on-adds (t ∷ ts) done rest = elim (Bool-cases (is_empty t)) [
    | inl y ↦ hand_on_passes t ts done rest y ∙ hand_on-adds ts done rest ∙ rw y refl
    | inr n ↦
        hand_on_takes t ts done rest n
        ∙ ap (add_token t) (hand_on-adds ts (done ++ (t ∷ [])) rest)
        ∙ rw (n, append_assoc done (t ∷ []) (said ts)) refl
  ]

  module _ (decode : Text → Result (List Text)) (deltas : Text → List Text) where
    with_data-spoken :
        (data_of : Option Text) (ls done : List Text) (rest : List Text → Streamed)
        → ReadsData decode deltas data_of (Reads decode deltas ls)
        → (Reads decode deltas ls
            → (d : List Text)
            → rest d ≡ record {
              tokens = spoken deltas ls;
              stream_error = unless_emitted (d ++ spoken deltas ls);
            })
        → with_data on_chunk decode data_of done rest ≡ record {
          tokens = spoken_in deltas data_of (spoken deltas ls);
          stream_error = unless_emitted (done ++ spoken_in deltas data_of (spoken deltas ls));
        }
    with_data-spoken none ls done rest reads h = h reads done
    with_data-spoken (some content) ls done rest reads h =
        elim (Bool-cases (text_eq content (codes "[DONE]"))) [
          | inl y ↦ rw y (ap (λ d. ended (unless_emitted d)) (sym (append-nil done)))
          | inr n ↦
              rw (n, (reads n).0)
                (hand_on-adds (deltas content) done rest
                  ∙ ap (adds (said (deltas content)))
                      (h (reads n).1 (done ++ said (deltas content)))
                  ∙ ap
                      (λ d.
                        adds (said (deltas content))
                          record { tokens = spoken deltas ls; stream_error = unless_emitted d })
                      (append_assoc done (said (deltas content)) (spoken deltas ls)))
        ]

    scan_lines-spoken :
        (ls done : List Text)
        → Reads decode deltas ls
        → scan_lines on_chunk decode ls none done ≡ record {
          tokens = spoken deltas ls;
          stream_error = unless_emitted (done ++ spoken deltas ls);
        }
    unfolding scan_lines
    scan_lines-spoken [] done reads = ap (λ d. ended (unless_emitted d)) (sym (append-nil done))
    scan_lines-spoken (l ∷ ls) done reads =
        with_data-spoken (line_data l) ls done (scan_lines on_chunk decode ls none) reads
          (λ more d. scan_lines-spoken ls d more)

    -- With a response that is a success, whose lines can be read to the end, where the data of each
    -- data line before the one that ends the stream can be decoded, and a callback that takes every
    -- delta: the callback gets the deltas of the data lines before the
    -- one that ends the stream, but for the empty ones, in order, and Stream fails exactly when
    -- there are none.
    pub stream-spoken :
        (x : Exchange) (scan : HttpResponse → Scanned) {r : HttpResponse}
        → response_of (codes "bailian stream request: ") x ≡ ok r
        → is_success r ≡ true
        → (scan r).scan_error ≡ none
        → Reads decode deltas (scan r).lines
        → bailian_stream on_chunk decode x scan ≡ record {
          tokens = spoken deltas (scan r).lines;
          stream_error = unless_emitted (spoken deltas (scan r).lines);
        }
    unfolding bailian_stream
    stream-spoken x scan {r} e s f reads = rw (e, s, f) (scan_lines-spoken (scan r).lines [] reads)
