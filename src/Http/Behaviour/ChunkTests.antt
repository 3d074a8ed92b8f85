-- ===== src/Http/Behaviour/ChunkTests.antt =====
-- http_parser.c: a body in chunks, at concrete inputs.
use projectmoo.Base.{◌≡◌, refl, true, false, List, [], ◌∷◌, arith, codes}
use projectmoo.Http.Behaviour.Chunked.{Chunk, WellSized, execute_chunks}
use projectmoo.Http.Behaviour.LastChunk.{execute_chunked_body}
use projectmoo.Http.Chars.{unhex, unhex_value}
use projectmoo.Http.Execute.{http_parser_execute}
use projectmoo.Http.Frame.{returned, http_should_keep_alive, new_message}
use projectmoo.Http.Invariant.Execute.{Ready}
use projectmoo.Http.Log.{completed, got_body, recording, raw_memory}
use projectmoo.Http.Types.{
  http_request, hpe_ok, s_start_req, s_chunk_size_start, h_general, no_flags, Parser,
}

-- A parser of a request, before the first chunk of its body.
abbrev at_chunks : Parser
at_chunks = record raw_memory {
  type = http_request;
  state = s_chunk_size_start;
  header_state = h_general;
  index = 0;
  nread = 0;
  flags = record no_flags { chunked = true };
  content_length = 7;
  http_major = 1;
  http_minor = 1;
  http_errno = hpe_ok;
  upgrade = false;
}

abbrev two_chunks : List Chunk
two_chunks =
    record { size = codes "5"; content = codes "hello" }
    ∷ record { size = codes "00C"; content = codes ", big world!" }
    ∷ []

five_WellSized : WellSized (record { size = codes "5"; content = codes "hello" })
unfolding unhex_value unhex
five_WellSized = record {
  digits = refl;
  some_digits = omega arith;
  few = omega arith;
  exact = refl;
  some_content = omega arith;
  small = omega arith;
}

twelve_WellSized : WellSized (record { size = codes "00C"; content = codes ", big world!" })
unfolding unhex_value unhex
twelve_WellSized = record {
  digits = refl;
  some_digits = omega arith;
  few = omega arith;
  exact = refl;
  some_content = omega arith;
  small = omega arith;
}

at_chunks-Ready : Ready at_chunks
at_chunks-Ready = ground arith

execute_chunks_example :
    http_parser_execute recording (codes "5\r\nhello\r\n00C\r\n, big world!\r\n") at_chunks []
    ≡ returned
        (record at_chunks { content_length = 0 })
        (got_body (codes "hello") ∷ got_body (codes ", big world!") ∷ [])
        29
execute_chunks_example =
    execute_chunks recording (record { size = codes "5"; content = codes "hello" })
      (record { size = codes "00C"; content = codes ", big world!" } ∷ []) at_chunks []
      at_chunks-Ready refl (five_WellSized, (twelve_WellSized, tt))

execute_chunked_body_example :
    http_parser_execute recording
      (codes "5\r\nhello\r\n00C\r\n, big world!\r\n0\r\n\r\n")
      at_chunks
      []
    ≡ returned
        (record at_chunks {
          content_length = 0;
          state = s_start_req;
          nread = 2;
          flags = record no_flags { chunked = true; trailing = true };
        })
        (got_body (codes "hello") ∷ got_body (codes ", big world!") ∷ completed ∷ [])
        34
unfolding new_message http_should_keep_alive
execute_chunked_body_example =
    execute_chunked_body recording two_chunks at_chunks [] at_chunks-Ready refl
      (five_WellSized, (twelve_WellSized, tt)) (λ q w. refl)
