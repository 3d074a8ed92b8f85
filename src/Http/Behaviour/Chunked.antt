-- ===== src/Http/Behaviour/Chunked.antt =====
-- http_parser.c: calls of `http_parser_execute` on chunks of a body.
use mathlib.Core.Path.{subst}
use projectmoo.Base.{
  ℕ, ◌+◌, ◌≤◌, ◌<◌, ◌≡◌, refl, ap, ◌∙◌, true, none, List, [], ◌∷◌, ◌++◌, arith, Bytes, length,
  length-append,
}
use projectmoo.Http.Behaviour.Bodies.{body_told}
use projectmoo.Http.Behaviour.Chunks.{Runs-size, Reads-content, Reads-size_end, Reads-content_end}
use projectmoo.Http.Behaviour.Lengths.{counted, hexadecimal, all_unhex}
use projectmoo.Http.Chars.{cr, lf}
use projectmoo.Http.Execute.{initial_frame, stored, loop, http_parser_execute, execute_loop}
use projectmoo.Http.Frame.{Frame, returned, u64}
use projectmoo.Http.Invariant.Execute.{Ready}
use projectmoo.Http.Reads.{Reads, Reads-Runs, Reads-append, loop-Reads}
use projectmoo.Http.Runs.{Runs}
use projectmoo.Http.Types.{
  s_chunk_size_start, s_chunk_size, s_chunk_data, s_chunk_data_almost_done, Parser,
  http_max_header_size, Settings,
}

-- A chunk: its size as it is spelled, and its bytes.
pub record Chunk : Type 0 where
  pub size : Bytes
  pub content : Bytes

-- A chunk as it is sent.
abbrev pub encode_chunk : Chunk → Bytes
encode_chunk c = c.size ++ ((cr ∷ lf ∷ []) ++ (c.content ++ (cr ∷ lf ∷ [])))

-- Its size is spelled in hexadecimal digits within the limit on header bytes, and is that of its
-- content, of which there is some.
pub record WellSized (c : Chunk) : Type 0 where
  pub digits : all_unhex c.size ≡ true
  pub some_digits : 0 < length c.size
  pub few : length c.size + 2 ≤ http_max_header_size
  pub exact : hexadecimal 0 c.size ≡ length c.content
  pub some_content : 0 < length c.content
  pub small : length c.content < 9223372036854775808

abbrev pub encode_chunks : List Chunk → Bytes
encode_chunks [] = []
encode_chunks (c ∷ cs) = encode_chunk c ++ encode_chunks cs

abbrev pub AllWellSized : List Chunk → Type 0
AllWellSized [] = Unit {0}
AllWellSized (c ∷ cs) = WellSized c × AllWellSized cs

module _ {W : Type 0} (settings : Settings W) where
  -- The client's world after on_body was given the content, on a parser with its length.
  abbrev pub chunk_told : Parser → Chunk → W → W
  chunk_told q c w =
      body_told settings.on_body (record q { content_length = length c.content }) c.content w

  -- The variables behind a chunk.
  abbrev pub behind_chunk : Chunk → Frame W → Frame W
  behind_chunk c f =
      let q = f.parser in
      record f {
        state = s_chunk_size_start;
        nread = 0;
        p = f.p + length (encode_chunk c);
        world = chunk_told q c f.world;
        parser = record q { content_length = 0 };
      }

  -- The same for all chunks, in their order.
  abbrev pub chunks_told : Parser → List Chunk → W → W
  chunks_told q [] w = w
  chunks_told q (c ∷ cs) w = chunks_told q cs (chunk_told q c w)

  abbrev pub behind_chunks : List Chunk → Frame W → Frame W
  behind_chunks [] f = f
  behind_chunks (c ∷ cs) f = behind_chunks cs (behind_chunk c f)

  -- The variables between two chunks.
  abbrev pub between_chunks : Frame W → ℕ → W → Frame W
  between_chunks f n w =
      let q = f.parser in
      record f {
        state = s_chunk_size_start;
        nread = 0;
        p = n;
        world = w;
        parser = record q { content_length = 0 };
      }

  pub behind_chunks_lem :
      (cs : List Chunk) (f : Frame W) (n : ℕ) (w : W)
      → behind_chunks cs (between_chunks f n w)
        ≡ between_chunks f (n + length (encode_chunks cs)) (chunks_told f.parser cs w)
  behind_chunks_lem [] f n w = ap (λ k. between_chunks f k w) (omega arith)
  behind_chunks_lem (c ∷ cs) f n w =
      behind_chunks_lem cs f (n + length (encode_chunk c)) (chunk_told f.parser c w)
      ∙ ap (λ k. between_chunks f k (chunks_told f.parser (c ∷ cs) w))
          (omega (arith, length-append (encode_chunk c) (encode_chunks cs)))

module _ {W : Type 0} (settings : Settings W) (input : Bytes) where
  -- The loop is between two chunks.
  abbrev pub Between : Frame W → Type 0
  Between f = (f.state ≡ s_chunk_size_start) × (f.parser.flags.chunked ≡ true) × (f.nread ≡ 0)

  Reads-digits :
      (size : Bytes) (n : ℕ) (f : Frame W)
      → Between f
      → all_unhex size ≡ true
      → 0 < length size
      → length size ≤ http_max_header_size
      → hexadecimal 0 size ≡ n
      → n < 9223372036854775808
      → Reads settings input size f (counted (length size) n (record f { state = s_chunk_size }))
  Reads-digits [] n f b digits there few exact small = absurd (omega arith)
  Reads-digits (c ∷ cs) n f (at, chunked, none_yet) digits there few exact small =
      let whole : u64 (hexadecimal 0 (c ∷ cs)) ≡ n = ground (arith, exact) in
      let end : ℕ → Frame W =
        λ k. counted (length (c ∷ cs)) k (record f { state = s_chunk_size }) in
      Reads-Runs settings input (c ∷ cs) f (end n) (
        subst (λ k. Runs settings input (c ∷ cs) f (end k)) whole
          (Runs-size settings input c cs f at chunked none_yet few digits))

  Reads-bytes :
      (content : Bytes) (f : Frame W)
      → f.state ≡ s_chunk_data
      → f.parser.flags.chunked ≡ true
      → f.parser.content_length ≡ length content
      → 0 < length content
      → length content < 9223372036854775808
      → let q = f.parser in
        Reads settings input content f (record f {
          state = s_chunk_data_almost_done;
          p = f.p + length content;
          world = body_told settings.on_body q content f.world;
          parser = record q { content_length = 0 };
        })
  Reads-bytes [] f at chunked e there small = absurd (omega arith)
  Reads-bytes (c ∷ cs) f at chunked e there small =
      Reads-content settings input c cs f at chunked e small

  Reads-chunk :
      (c : Chunk) (f : Frame W)
      → WellSized c
      → Between f
      → Reads settings input (encode_chunk c) f (behind_chunk settings c f)
  Reads-chunk c f h (at, chunked, none_yet) =
      let size = c.size in
      let content = c.content in
      let f1 = counted (length size) (length content) (record f { state = s_chunk_size }) in
      let f2 = record f1 { state = s_chunk_data; nread = 0; p = f1.p + 1 + 1 } in
      let q2 = f2.parser in
      let f3 = record f2 {
        state = s_chunk_data_almost_done;
        p = f2.p + length content;
        world = body_told settings.on_body q2 content f2.world;
        parser = record q2 { content_length = 0 };
      } in
      let f4 = record f3 { state = s_chunk_size_start; p = f3.p + 1 + 1 } in
      let far : f4.p ≡ f.p + length (encode_chunk c) = ground (
        arith,
        length-append size ((cr ∷ lf ∷ []) ++ (content ++ (cr ∷ lf ∷ []))),
        length-append content (cr ∷ lf ∷ []),
      ) in
      let few : length size + 2 ≤ http_max_header_size = h.few in
      subst (λ k. Reads settings input (encode_chunk c) f (record f4 { p = k })) far
        (Reads-append settings input size ((cr ∷ lf ∷ []) ++ (content ++ (cr ∷ lf ∷ []))) f f1 f4
          (Reads-digits size (length content) f (at, chunked, none_yet) h.digits h.some_digits
            (omega arith) h.exact h.small)
          (Reads-append settings input (cr ∷ lf ∷ []) (content ++ (cr ∷ lf ∷ [])) f1 f2 f4
            (Reads-size_end settings input f1 refl chunked (omega arith) h.some_content)
            (Reads-append settings input content (cr ∷ lf ∷ []) f2 f3 f4
              (Reads-bytes content f2 refl chunked refl h.some_content h.small)
              (Reads-content_end settings input f3 refl chunked))))

  -- Behind chunks the loop is between two chunks again.
  pub Between-behind_chunks :
      (cs : List Chunk) (f : Frame W) → Between f → Between (behind_chunks settings cs f)
  Between-behind_chunks [] f between = between
  Between-behind_chunks (c ∷ cs) f (at, chunked, none_yet) =
      Between-behind_chunks cs (behind_chunk settings c f) (refl, chunked, refl)

  pub Reads-chunks :
      (cs : List Chunk) (f : Frame W)
      → AllWellSized cs
      → Between f
      → Reads settings input (encode_chunks cs) f (behind_chunks settings cs f)
  Reads-chunks [] f h between =
      λ rest fuel behind. (0, ap (λ k. loop settings input k f) (omega arith), behind)
  Reads-chunks (c ∷ cs) f (h, hs) (at, chunked, none_yet) =
      let g = behind_chunk settings c f in
      Reads-append settings input (encode_chunk c) (encode_chunks cs) f g
        (behind_chunks settings cs g) (Reads-chunk c f h (at, chunked, none_yet))
        (Reads-chunks cs g hs (refl, chunked, refl))

module _ {W : Type 0} (settings : Settings W) where
  -- A parser between two chunks of a body, that is given chunks with some content each, whose sizes
  -- are spelled in hexadecimal digits of any case and number within the limit on header bytes: all
  -- bytes are read, on_body is given the content of each chunk, whole and in their order, and
  -- the parser is between two chunks again, unchanged but for `content_length`, which is 0.
  pub execute_chunks :
      (c : Chunk) (cs : List Chunk) (q : Parser) (w : W)
      → Ready q
      → q.state ≡ s_chunk_size_start
      → AllWellSized (c ∷ cs)
      → let input = encode_chunks (c ∷ cs) in
        http_parser_execute settings input q w
        ≡ returned
            (record q { content_length = 0 })
            (chunks_told settings q (c ∷ cs) w)
            (length input)
  execute_chunks c cs q w h at (hc, hcs) =
      let input = encode_chunks (c ∷ cs) in
      let f = initial_frame q w in
      let n = length (encode_chunk c) in
      let v = chunk_told settings q c w in
      let g =
        between_chunks settings f (n + length (encode_chunks cs)) (chunks_told settings q cs v) in
      let chunked : q.flags.chunked ≡ true = ground (arith, at, h.chunks) in
      let some_input : 0 < length input = ground (
        arith,
        length-append (encode_chunk c) (encode_chunks cs),
        hc.some_digits,
        length-append c.size ((cr ∷ lf ∷ []) ++ (c.content ++ (cr ∷ lf ∷ []))),
      ) in
      let behind : behind_chunks settings (c ∷ cs) f ≡ g =
        ap (λ k. behind_chunks settings cs (between_chunks settings f k v)) (omega arith)
        ∙ behind_chunks_lem settings cs f n v in
      let reads : Reads settings input input f g =
        subst (λ k. Reads settings input input f k) behind
          (Reads-chunks settings input (c ∷ cs) f (hc, hcs) (at, chunked, h.chunk_start at)) in
      let no_field : g.header_field_mark ≡ none = ground (arith, at) in
      let no_value : g.header_value_mark ≡ none = ground (arith, at) in
      let no_url : g.url_mark ≡ none = ground (arith, at) in
      let kept : stored g ≡ record q { content_length = 0 } =
        ground (arith, at, h.chunk_start at, h.index_small) in
      execute_loop settings input q w h.no_error some_input
      ∙ loop-Reads settings input f g refl reads no_field no_value no_url
      ∙ ap (λ r. returned r (chunks_told settings q (c ∷ cs) w) (length input)) kept
