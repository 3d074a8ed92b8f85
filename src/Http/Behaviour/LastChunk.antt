-- ===== src/Http/Behaviour/LastChunk.antt =====
-- http_parser.c: calls of `http_parser_execute` on the end of a body in chunks.
use mathlib.Core.Path.{subst}
use projectmoo.Base.{
  ℕ, ◌+◌, ◌<◌, ◌≡◌, refl, ap, ◌∙◌, true, Option, none, some, List, [], ◌∷◌, ◌++◌, arith, Bytes,
  codes, length, length-append,
}
use projectmoo.Http.Behaviour.Chunked.{
  Chunk, encode_chunk, encode_chunks, AllWellSized, chunk_told, chunks_told, behind_chunks,
  between_chunks, behind_chunks_lem, Between-behind_chunks, Reads-chunks,
}
use projectmoo.Http.Behaviour.Chunks.{size_end_round}
use projectmoo.Http.Behaviour.Lengths.{first_hex_round}
use projectmoo.Http.Body.{step_chunk_size_almost_done}
use projectmoo.Http.Chars.{cr, lf, unhex, unhex_value}
use projectmoo.Http.Complete.{end_message, step_headers_almost_done}
use projectmoo.Http.Execute.{
  initial_frame, stored, step_in, round, http_parser_execute, execute_loop,
}
use projectmoo.Http.Frame.{Frame, returned, Flow, next, new_message, goto, notify}
use projectmoo.Http.Header.{step_header_field_start}
use projectmoo.Http.Invariant.Execute.{Ready}
use projectmoo.Http.Reads.{Reads, Reads-append, Reads-one, loop-Reads}
use projectmoo.Http.Types.{
  Errno, hpe_cb_message_complete, s_header_field_start, s_chunk_size_start, s_chunk_size,
  s_chunk_size_almost_done, s_headers_almost_done, Parser, http_max_header_size, Settings,
  state_code, parsing_header,
}

-- The last chunk, with no trailing headers.
abbrev pub last_chunk : Bytes
last_chunk = codes "0\r\n\r\n"

module _ {W : Type 0} where
  -- on_message_complete, if there is one, always gives 0.
  abbrev pub GoesOn : Option (Parser → W → ℕ × W) → Type 0
  GoesOn none = Unit {0}
  GoesOn (some cb) = (q : Parser) (w : W) → (cb q w).0 ≡ 0

  -- The client's world after it was called.
  abbrev pub message_told : Option (Parser → W → ℕ × W) → Parser → W → W
  message_told none q w = w
  message_told (some cb) q w = (cb q w).1

-- The parser at the end of a body in chunks.
abbrev pub trailing : Parser → Parser
trailing q =
    let fl = q.flags in record q { content_length = 0; flags = record fl { trailing = true } }

module _ {W : Type 0} (settings : Settings W) where
  -- The variables behind the last chunk.
  abbrev pub behind_last : Frame W → Frame W
  behind_last f =
      let q = trailing f.parser in
      record f {
        state = new_message q;
        nread = 2;
        p = f.p + 5;
        parser = q;
        world = message_told settings.on_message_complete q f.world;
      }

module _ {W : Type 0} (settings : Settings W) (input : Bytes) where
  notify_lem :
      (cb : Option (Parser → W → ℕ × W)) (e : Errno) (f : Frame W) (rest : Frame W → Flow W)
      → GoesOn cb
      → notify cb e f rest ≡ rest (record f { world = message_told cb f.parser f.world })
  unfolding notify
  notify_lem none e f rest h = refl
  notify_lem (some cb) e f rest h = ground (arith, h f.parser f.world)

  last_size_round :
      (f : Frame W)
      → f.state ≡ s_chunk_size_almost_done
      → f.parser.flags.chunked ≡ true
      → f.nread < http_max_header_size
      → f.parser.content_length ≡ 0
      → round settings input lf f
        ≡ next (record f { state = s_header_field_start; nread = 0; parser = trailing f.parser })
  unfolding round step_in step_chunk_size_almost_done parsing_header state_code
  last_size_round f at chunked few e = ground arith

  blank_round :
      (f : Frame W)
      → f.state ≡ s_header_field_start
      → f.nread < http_max_header_size
      → round settings input cr f
        ≡ next (record f { state = s_headers_almost_done; nread = f.nread + 1 })
  unfolding round step_in step_header_field_start parsing_header state_code
  blank_round f at few = ground arith

  end_round :
      (f : Frame W)
      → f.state ≡ s_headers_almost_done
      → f.nread < http_max_header_size
      → f.parser.flags.trailing ≡ true
      → round settings input lf f ≡ end_message settings (record f { nread = f.nread + 1 })
  unfolding round step_in step_headers_almost_done parsing_header state_code
  end_round f at few trailing = ground arith

  pub Reads-last :
      (f : Frame W)
      → f.state ≡ s_chunk_size_start
      → f.parser.flags.chunked ≡ true
      → f.nread ≡ 0
      → GoesOn settings.on_message_complete
      → Reads settings input last_chunk f (behind_last settings f)
  unfolding end_message unhex_value unhex
  Reads-last f at chunked none_yet goes_on =
      let q = f.parser in
      let r = trailing q in
      let f1 = record f {
        state = s_chunk_size;
        nread = 1;
        p = f.p + 1;
        parser = record q { content_length = 0 };
      } in
      let f2 = record f1 { state = s_chunk_size_almost_done; nread = 2; p = f1.p + 1 } in
      let f3 = record f2 { state = s_header_field_start; nread = 0; p = f2.p + 1; parser = r } in
      let f4 = record f3 { state = s_headers_almost_done; nread = 1; p = f3.p + 1 } in
      let f5 = record f4 {
        state = new_message r;
        nread = 2;
        p = f4.p + 1;
        world = message_told settings.on_message_complete r f.world;
      } in
      let e1 : round settings input b'0' f ≡ next (record f1 { p = f.p }) =
        first_hex_round settings input b'0' f at chunked none_yet refl in
      let e5 : round settings input lf f4 ≡ next (record f5 { p = f4.p }) =
        end_round f4 refl (omega arith) refl
        ∙ notify_lem settings.on_message_complete hpe_cb_message_complete (record f4 { nread = 2 })
            (λ g. goto (new_message g.parser) g) goes_on in
      let end : f5 ≡ behind_last settings f = ground arith in
      subst (λ k. Reads settings input last_chunk f k) end
        (Reads-append settings input (codes "0") (codes "\r\n\r\n") f f1 f5
          (Reads-one settings input b'0' f (record f1 { p = f.p }) e1 refl)
          (Reads-append settings input (codes "\r") (codes "\n\r\n") f1 f2 f5
            (Reads-one settings input cr f1 (record f2 { p = f1.p })
              (size_end_round settings input f1 refl chunked (omega arith)) refl)
            (Reads-append settings input (codes "\n") (codes "\r\n") f2 f3 f5
              (Reads-one settings input lf f2 (record f3 { p = f2.p })
                (last_size_round f2 refl chunked (omega arith) refl) refl)
              (Reads-append settings input (codes "\r") (codes "\n") f3 f4 f5
                (Reads-one settings input cr f3 (record f4 { p = f3.p })
                  (blank_round f3 refl (omega arith)) refl)
                (Reads-one settings input lf f4 (record f5 { p = f4.p }) e5 refl)))))

module _ {W : Type 0} (settings : Settings W) where
  -- Behind some chunks, or none, the variables differ from those before as the last chunk leaves them.
  behind_last-chunks :
      (cs : List Chunk) (f : Frame W)
      → let q = trailing f.parser in
        let w = chunks_told settings f.parser cs f.world in
        behind_last settings (behind_chunks settings cs f) ≡ record f {
          state = new_message q;
          nread = 2;
          p = f.p + length (encode_chunks cs) + 5;
          parser = q;
          world = message_told settings.on_message_complete q w;
        }
  behind_last-chunks [] f = ap (λ k. record (behind_last settings f) { p = k + 5 }) (omega arith)
  behind_last-chunks (c ∷ cs) f =
      ap (behind_last settings) (
        behind_chunks_lem settings cs f (f.p + length (encode_chunk c))
          (chunk_told settings f.parser c f.world))
      ∙ ap
          (λ k.
            record (behind_last settings
              (between_chunks settings f 0 (chunks_told settings f.parser (c ∷ cs) f.world))) {
                p = k + 5;
              })
          (omega (arith, length-append (encode_chunk c) (encode_chunks cs)))

  -- A parser between two chunks of a body, or before the first, that is given the rest of the body:
  -- any number of chunks with some content each, whose sizes are spelled in hexadecimal digits of
  -- any case and number within the limit on header bytes, and the last chunk, where
  -- on_message_complete, if there is one, gives 0. All bytes are read; on_body is given the content
  -- of each chunk, whole and in their order, and then on_message_complete is called; the parser is
  -- ready for the next message, or dead if the connection should not be kept alive.
  pub execute_chunked_body :
      (cs : List Chunk) (q : Parser) (w : W)
      → Ready q
      → q.state ≡ s_chunk_size_start
      → AllWellSized cs
      → GoesOn settings.on_message_complete
      → let input = encode_chunks cs ++ last_chunk in
        let r = trailing q in
        http_parser_execute settings input q w
        ≡ returned
            (record r { state = new_message r; nread = 2 })
            (message_told settings.on_message_complete r (chunks_told settings q cs w))
            (length input)
  execute_chunked_body cs q w h at sized goes_on =
      let input = encode_chunks cs ++ last_chunk in
      let r = trailing q in
      let f = initial_frame q w in
      let v = message_told settings.on_message_complete r (chunks_told settings q cs w) in
      let g = record f {
        state = new_message r;
        nread = 2;
        p = f.p + length (encode_chunks cs) + 5;
        parser = r;
        world = v;
      } in
      let chunked : q.flags.chunked ≡ true = ground (arith, at, h.chunks) in
      let some_input : 0 < length input =
        ground (arith, length-append (encode_chunks cs) last_chunk) in
      let middle = behind_chunks settings cs f in
      let (at', chunked', none_yet') =
        Between-behind_chunks settings input cs f (at, chunked, h.chunk_start at) in
      let reads : Reads settings input input f g =
        subst (λ k. Reads settings input input f k) (behind_last-chunks cs f)
          (Reads-append settings input (encode_chunks cs) last_chunk f middle
            (behind_last settings middle)
            (Reads-chunks settings input cs f sized (at, chunked, h.chunk_start at))
            (Reads-last settings input middle at' chunked' none_yet' goes_on)) in
      let no_field : g.header_field_mark ≡ none = ground (arith, at) in
      let no_value : g.header_value_mark ≡ none = ground (arith, at) in
      let no_url : g.url_mark ≡ none = ground (arith, at) in
      let kept : stored g ≡ record r { state = new_message r; nread = 2 } =
        ground (arith, h.index_small) in
      execute_loop settings input q w h.no_error some_input
      ∙ loop-Reads settings input f g refl reads no_field no_value no_url
      ∙ ap (λ k. returned k v (length input)) kept
