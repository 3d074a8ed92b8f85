-- ===== src/EchoServer/Start.antt =====
-- example/webserver1.c: the start of the server, but for the messages that it prints.
use projectmoo.Base.{ℕ, not, Bytes, ◌==◌, if◌then◌else◌}
use projectmoo.EchoServer.World.{tcp, pipe, tcp_server, pipe_server, Uv, World}

module _ {L : Type 0} (uv : Uv L) where
  -- `tcp4_echo_start`
  unfoldable pub tcp4_echo_start : ℕ → World L → ℕ × World L
  tcp4_echo_start port w =
      let (r, l1) = uv.tcp_init tcp_server w.loop in
      let (r', l2) = uv.tcp_bind port l1 in
      let (r'', l3) = uv.listen tcp_server l2 in
      let v = record w { server_type = tcp } in
      if not (r == 0)
      then (1, record v { loop = l1 })
      else if not (r' == 0)
      then (1, record v { loop = l2 })
      else if not (r'' == 0)
      then (1, record v { loop = l3 })
      else (0, record v { loop = l3 })

  -- `tcp6_echo_start`: where the address cannot be bound, the result is 0.
  unfoldable pub tcp6_echo_start : ℕ → World L → ℕ × World L
  tcp6_echo_start port w =
      let (r, l1) = uv.tcp_init tcp_server w.loop in
      let (r', l2) = uv.tcp_bind6 port l1 in
      let (r'', l3) = uv.listen tcp_server l2 in
      let v = record w { server_type = tcp } in
      if not (r == 0)
      then (1, record v { loop = l1 })
      else if not (r' == 0)
      then (0, record v { loop = l2 })
      else if not (r'' == 0)
      then (1, record v { loop = l3 })
      else (0, record v { loop = l3 })

  -- `pipe_echo_start`
  unfoldable pub pipe_echo_start : Bytes → World L → ℕ × World L
  pipe_echo_start name w =
      let (r, l1) = uv.pipe_init pipe_server w.loop in
      let (r', l2) = uv.pipe_bind name l1 in
      let (r'', l3) = uv.listen pipe_server l2 in
      let v = record w { server_type = pipe } in
      if not (r == 0)
      then (1, record v { loop = l1 })
      else if not (r' == 0)
      then (1, record v { loop = l2 })
      else if not (r'' == 0)
      then (1, record v { loop = l3 })
      else (0, record v { loop = l3 })

  -- The end of the three helpers: `uv_run`, if the start gave 0.
  abbrev pub run_started : ℕ × World L → ℕ × World L
  run_started (r, w) = if not (r == 0) then (1, w) else (0, record w { loop = uv.run w.loop })

  -- `run_helper_tcp4_echo_server`, which `main` calls; `TEST_PORT` is a parameter.
  unfoldable pub run_helper_tcp4_echo_server : ℕ → World L → ℕ × World L
  unfolding tcp4_echo_start
  run_helper_tcp4_echo_server test_port w = run_started (tcp4_echo_start test_port w)

  -- `run_helper_tcp6_echo_server`
  unfoldable pub run_helper_tcp6_echo_server : ℕ → World L → ℕ × World L
  unfolding tcp6_echo_start
  run_helper_tcp6_echo_server test_port w = run_started (tcp6_echo_start test_port w)

  -- `run_helper_pipe_echo_server`; `TEST_PIPENAME` is a parameter.
  unfoldable pub run_helper_pipe_echo_server : Bytes → World L → ℕ × World L
  unfolding pipe_echo_start
  run_helper_pipe_echo_server test_pipename w = run_started (pipe_echo_start test_pipename w)
