-- ===== src/Provider/Bailian.antt =====
-- internal/provider/bailian.go: BailianChat's Stream, Complete and Health. The lines that
-- bufio.Scanner finds in the body, and its error, are a parameter.
use dong_rag.Base.{
  ◌*◌, Option, none, some, List, [], ◌∷◌, ◌++◌, if◌then◌else◌, take, drop, GoError, plain_error,
  Result, ok, err, and_then, Text, Bytes, codes, text_eq, is_empty, trim_space, has_prefix,
}
use dong_rag.Retrieval.Query.{Streamed}
use dong_rag.Provider.{
  HttpResponse, Exchange, wrapped, wrap_error, response_of, is_success, status_error, status_fault,
}

abbrev pub no_answer : GoError
no_answer = plain_error (codes "bailian returned no answer")

-- What is read of a stream: its lines, and the error of the scanner behind the last one.
pub record Scanned : Type 0 where
  pub lines : List Text
  pub scan_error : Option GoError

-- `onChunk`, on the deltas that it has had and one more.
abbrev pub OnChunk : Type 0
OnChunk = List Text → Text → Option GoError

abbrev pub add_token : Text → Streamed → Streamed
add_token t s = record s { tokens = t ∷ s.tokens }

abbrev pub ended : Option GoError → Streamed
ended e = record { tokens = []; stream_error = e }

abbrev pub unless_emitted : List Text → Option GoError
unless_emitted [] = some no_answer
unless_emitted (t ∷ ts) = none

-- The data of a line, where it has some.
unfoldable pub line_data : Text → Option Text
unfolding trim_space has_prefix
line_data text =
    let line = trim_space text in
    if has_prefix line (codes "data:") then some (trim_space (drop 5 line)) else none

module _ (on_chunk : OnChunk) where
  -- The loop over the choices of a chunk, and what follows it. `done` are the deltas up to here.
  unfoldable pub hand_on : List Text → List Text → (List Text → Streamed) → Streamed
  hand_on [] done rest = rest done
  hand_on (t ∷ ts) done rest =
      let more = hand_on ts done rest in
      let after = add_token t (hand_on ts (done ++ (t ∷ [])) rest) in
      if is_empty t
      then more
      else elim (on_chunk done t) [ some e ↦ add_token t (ended (some e)) | none ↦ after ]

  module _ (decode : Text → Result (List Text)) where
    abbrev pub decoded : Result (List Text) → List Text → (List Text → Streamed) → Streamed
    decoded (err e) done rest = ended (some (wrapped (codes "decode bailian stream response: ") e))
    decoded (ok deltas) done rest = hand_on deltas done rest

    abbrev pub end_of_lines : Option GoError → List Text → Streamed
    end_of_lines (some e) done = ended (some (wrapped (codes "read bailian stream: ") e))
    end_of_lines none done = ended (unless_emitted done)

    abbrev pub with_data : Option Text → List Text → (List Text → Streamed) → Streamed
    with_data none done rest = rest done
    with_data (some content) done rest =
        if text_eq content (codes "[DONE]")
        then ended (unless_emitted done)
        else decoded (decode content) done rest

    -- The loop over the lines.
    unfoldable pub scan_lines : List Text → Option GoError → List Text → Streamed
    scan_lines [] fault done = end_of_lines fault done
    scan_lines (l ∷ ls) fault done = with_data (line_data l) done (scan_lines ls fault)

    abbrev pub stream_from : Result HttpResponse → (HttpResponse → Scanned) → Streamed
    stream_from (err e) scan = ended (some e)
    stream_from (ok r) scan =
        if is_success r
        then scan_lines (scan r).lines (scan r).scan_error []
        else ended (some (status_error (codes "bailian stream") 1048576 r))

    -- Stream: the deltas that the callback gets, and the error. The callback is there.
    unfoldable pub bailian_stream : Exchange → (HttpResponse → Scanned) → Streamed
    unfolding response_of
    bailian_stream x scan = stream_from (response_of (codes "bailian stream request: ") x) scan

abbrev pub first_content : List Text → Result Text
first_content [] = err no_answer
first_content (t ∷ ts) = if is_empty (trim_space t) then err no_answer else ok (trim_space t)

abbrev pub completion_in : (Bytes → Result (List Text)) → HttpResponse → Result Text
completion_in decode r =
    if is_success r
    then and_then
        (wrap_error (codes "decode bailian response: ") (decode (take (8 * 1048576) r.body)))
        first_content
    else err (status_error (codes "bailian chat") (8 * 1048576) r)

-- Complete: `decode` reads the contents of the choices.
unfoldable pub bailian_complete : (Bytes → Result (List Text)) → Exchange → Result Text
unfolding response_of trim_space
bailian_complete decode x =
    and_then (response_of (codes "bailian chat request: ") x) (completion_in decode)

-- Health
unfoldable pub bailian_health : Exchange → Option GoError
unfolding response_of
bailian_health x =
    status_fault (codes "bailian health") 1048576 (response_of (codes "bailian health request: ") x)
