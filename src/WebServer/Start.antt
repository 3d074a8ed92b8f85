-- ===== src/WebServer/Start.antt =====
-- example/webserver.cc: `main`.
use projectmoo.Base.{ℕ, not, ◌==◌, if◌then◌else◌}
use projectmoo.WebServer.World.{Platform}

module _ {L : Type 0} (platform : Platform L) where
  -- `main`: its result, where -1 is 255, and the loop.
  unfoldable pub main : L → ℕ × L
  main l =
      let (r, l1) = platform.uv.tcp_init l in
      let (r', l2) = platform.uv.tcp_bind 8000 l1 in
      let (r'', l3) = platform.uv.listen l2 in
      if not (r == 0)
      then (1, l1)
      else if not (r' == 0)
      then (255, l2)
      else if not (r'' == 0)
      then (255, l3)
      else (0, platform.uv.run l3)
