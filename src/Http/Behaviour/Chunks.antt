-- ===== src/Http/Behaviour/Chunks.antt =====
-- http_parser.c: the rounds of `http_parser_execute` on a chunk of a body.
use mathlib.Core.Path.{subst}
use projectmoo.Base.{
  ℕ, ◌+◌, ◌*◌, ◌≤◌, ◌<◌, ◌≡◌, refl, ap, ◌∙◌, true, Option, none, some, [], ◌∷◌, ◌++◌, arith, Bytes,
  length, take, drop, length-append, take-append, drop_cons, length-drop, drop_behind,
}
use projectmoo.Http.Behaviour.Bodies.{body_told}
use projectmoo.Http.Behaviour.Lengths.{
  counted, hexadecimal, all_unhex, u64-hexadecimal, hex_round, first_hex_round,
}
use projectmoo.Http.Body.{
  to_read, told, deliver, shorten, step_chunk_size, step_chunk_size_almost_done, step_chunk_data,
  step_chunk_data_almost_done, step_chunk_data_done,
}
use projectmoo.Http.Chars.{cr, lf, unhex_value, unhex_value-lt}
use projectmoo.Http.Execute.{step_in, round, loop}
use projectmoo.Http.Frame.{Frame, next, u64}
use projectmoo.Http.Reads.{Reads, Reads-append, Reads-one}
use projectmoo.Http.Rounds.{loop_next}
use projectmoo.Http.Runs.{Runs, Runs-one, Runs-append}
use projectmoo.Http.Types.{
  s_chunk_size_start, s_chunk_size, s_chunk_size_almost_done, s_chunk_data,
  s_chunk_data_almost_done, s_chunk_data_done, Parser, http_max_header_size, Settings, state_code,
  parsing_header,
}

module _ {W : Type 0} (settings : Settings W) (input : Bytes) where
  Runs-hex :
      (cs : Bytes) (f : Frame W)
      → f.state ≡ s_chunk_size
      → f.parser.flags.chunked ≡ true
      → f.nread + length cs ≤ http_max_header_size
      → all_unhex cs ≡ true
      → f.parser.content_length < 18446744073709551616
      → Runs settings input cs f
          (counted (length cs) (u64 (hexadecimal f.parser.content_length cs)) f)
  Runs-hex [] f at chunked few digits word = λ rest fuel behind. (ground arith, ground arith)
  Runs-hex (c ∷ cs) f at chunked few digits word =
      let n = f.parser.content_length * 16 + unhex_value c in
      let g = counted 1 (u64 n) f in
      let h = counted (length cs) (u64 (hexadecimal (u64 n) cs)) g in
      let end = counted (length (c ∷ cs)) (u64 (hexadecimal f.parser.content_length (c ∷ cs))) f in
      let same : h ≡ end = ground (arith, u64-hexadecimal n cs) in
      subst (λ k. Runs settings input (c ∷ cs) f k) same
        (Runs-append settings input (c ∷ []) cs f g h
          (Runs-one settings input c f (record g { p = f.p })
            (hex_round settings input c f at chunked (omega arith) (ground arith) (ground arith))
            refl)
          (Runs-hex cs g at chunked (omega arith) (ground arith) (omega arith)))

  -- The digits of a size, from the first.
  pub Runs-size :
      (c : ℕ) (cs : Bytes) (f : Frame W)
      → f.state ≡ s_chunk_size_start
      → f.parser.flags.chunked ≡ true
      → f.nread ≡ 0
      → length (c ∷ cs) ≤ http_max_header_size
      → all_unhex (c ∷ cs) ≡ true
      → Runs settings input (c ∷ cs) f (
          counted
            (length (c ∷ cs))
            (u64 (hexadecimal 0 (c ∷ cs)))
            (record f { state = s_chunk_size }))
  Runs-size c cs f at chunked none_yet few digits =
      let g0 = record f { state = s_chunk_size } in
      let g = counted 1 (unhex_value c) g0 in
      let h = counted (length cs) (u64 (hexadecimal (unhex_value c) cs)) g in
      let end = counted (length (c ∷ cs)) (u64 (hexadecimal 0 (c ∷ cs))) g0 in
      let same : h ≡ end = ground arith in
      subst (λ k. Runs settings input (c ∷ cs) f k) same
        (Runs-append settings input (c ∷ []) cs f g h
          (Runs-one settings input c f (record g { p = f.p })
            (first_hex_round settings input c f at chunked none_yet (ground arith) ∙ ground arith)
            refl)
          (Runs-hex cs g refl chunked (omega arith) (ground arith)
            (omega (arith, unhex_value-lt c))))

  pub size_end_round :
      (f : Frame W)
      → f.state ≡ s_chunk_size
      → f.parser.flags.chunked ≡ true
      → f.nread < http_max_header_size
      → round settings input cr f
        ≡ next (record f { state = s_chunk_size_almost_done; nread = f.nread + 1 })
  unfolding round step_in step_chunk_size parsing_header state_code
  size_end_round f at chunked few = ground arith

  size_done_round :
      (f : Frame W)
      → f.state ≡ s_chunk_size_almost_done
      → f.parser.flags.chunked ≡ true
      → f.nread < http_max_header_size
      → 0 < f.parser.content_length
      → round settings input lf f ≡ next (record f { state = s_chunk_data; nread = 0 })
  unfolding round step_in step_chunk_size_almost_done parsing_header state_code
  size_done_round f at chunked few there = ground arith

  told_front :
      (cb : Option (Parser → Bytes → W → ℕ × W)) (bytes rest : Bytes) (f : Frame W)
      → drop f.p input ≡ bytes ++ rest
      → told settings input cb (length bytes) f ≡ body_told cb f.parser bytes f.world
  unfolding told
  told_front none bytes rest f behind = refl
  told_front (some cb) bytes rest f behind =
      ap (λ b. (cb f.parser b f.world).1) (ap (take (length bytes)) behind ∙ take-append bytes rest)

  content_round :
      (c : ℕ) (cs rest : Bytes) (f : Frame W)
      → f.state ≡ s_chunk_data
      → f.parser.flags.chunked ≡ true
      → drop f.p input ≡ (c ∷ cs) ++ rest
      → f.parser.content_length ≡ length (c ∷ cs)
      → length (c ∷ cs) < 9223372036854775808
      → let q = f.parser in
        round settings input c f
        ≡ next (record f {
          state = s_chunk_data_almost_done;
          p = f.p + length cs;
          world = body_told settings.on_body q (c ∷ cs) f.world;
          parser = record q { content_length = 0 };
        })
  unfolding round step_in step_chunk_data to_read deliver shorten parsing_header state_code
  content_round c cs rest f at chunked behind e small = ground (
    arith,
    e,
    ap length behind,
    length-drop input f.p,
    length-append (c ∷ cs) rest,
    told_front settings.on_body (c ∷ cs) rest f behind,
  )

  content_end_round :
      (f : Frame W)
      → f.state ≡ s_chunk_data_almost_done
      → f.parser.flags.chunked ≡ true
      → round settings input cr f ≡ next (record f { state = s_chunk_data_done })
  unfolding round step_in step_chunk_data_almost_done parsing_header state_code
  content_end_round f at chunked = ground arith

  content_done_round :
      (f : Frame W)
      → f.state ≡ s_chunk_data_done
      → f.parser.flags.chunked ≡ true
      → round settings input lf f ≡ next (record f { state = s_chunk_size_start })
  unfolding round step_in step_chunk_data_done parsing_header state_code
  content_done_round f at chunked = ground arith

  -- The content of a chunk, in one round.
  pub Reads-content :
      (c : ℕ) (cs : Bytes) (f : Frame W)
      → f.state ≡ s_chunk_data
      → f.parser.flags.chunked ≡ true
      → f.parser.content_length ≡ length (c ∷ cs)
      → length (c ∷ cs) < 9223372036854775808
      → let q = f.parser in
        Reads settings input (c ∷ cs) f (record f {
          state = s_chunk_data_almost_done;
          p = f.p + length (c ∷ cs);
          world = body_told settings.on_body q (c ∷ cs) f.world;
          parser = record q { content_length = 0 };
        })
  Reads-content c cs f at chunked e small rest fuel behind =
      let q = f.parser in
      let g = record f {
        state = s_chunk_data_almost_done;
        p = f.p + length cs;
        world = body_told settings.on_body q (c ∷ cs) f.world;
        parser = record q { content_length = 0 };
      } in
      let (here, _) = drop_cons input f.p behind in
      (
        length cs,
        ap (λ k. loop settings input k f) (omega arith)
            ∙ loop_next settings input (length cs + fuel) f here
                (content_round c cs rest f at chunked behind e small)
            ∙ ap (λ k. loop settings input (length cs + fuel) (record g { p = k })) (omega arith),
        drop_behind input f.p (c ∷ cs) rest behind,
      )

  -- The end of a size line.
  pub Reads-size_end :
      (f : Frame W)
      → f.state ≡ s_chunk_size
      → f.parser.flags.chunked ≡ true
      → f.nread + 2 ≤ http_max_header_size
      → 0 < f.parser.content_length
      → Reads settings input
          (cr ∷ lf ∷ [])
          f
          (record f { state = s_chunk_data; nread = 0; p = f.p + 1 + 1 })
  Reads-size_end f at chunked few there =
      let g = record f { state = s_chunk_size_almost_done; nread = f.nread + 1; p = f.p + 1 } in
      let h = record g { state = s_chunk_data; nread = 0; p = g.p + 1 } in
      Reads-append settings input (cr ∷ []) (lf ∷ []) f g h
        (Reads-one settings input cr f (record g { p = f.p })
          (size_end_round f at chunked (omega arith)) refl)
        (Reads-one settings input lf g (record h { p = g.p })
          (size_done_round g refl chunked (omega arith) there) refl)

  -- The end of a chunk.
  pub Reads-content_end :
      (f : Frame W)
      → f.state ≡ s_chunk_data_almost_done
      → f.parser.flags.chunked ≡ true
      → Reads settings input
          (cr ∷ lf ∷ [])
          f
          (record f { state = s_chunk_size_start; p = f.p + 1 + 1 })
  Reads-content_end f at chunked =
      let g = record f { state = s_chunk_data_done; p = f.p + 1 } in
      let h = record g { state = s_chunk_size_start; p = g.p + 1 } in
      Reads-append settings input (cr ∷ []) (lf ∷ []) f g h
        (Reads-one settings input cr f (record g { p = f.p }) (content_end_round f at chunked) refl)
        (Reads-one settings input lf g (record h { p = g.p }) (content_done_round g refl chunked)
          refl)
