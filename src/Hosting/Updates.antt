-- ===== src/Hosting/Updates.antt =====
-- How many updates the contents of the session library get.
use mo_session_server.Base.{some, ℕ, ◌%◌, ◌*◌, ◌+◌, ◌/◌, ◌^◌, ◌≡◌}
use mo_session_server.Base.Int.{pos}
use mo_session_server.Base.Table.{IsMap, find}
use mo_session_server.Hosting.{Host, Hosted}
use mo_session_server.Hosting.Dispatch.{waiting}

-- What is known of a contents with a period of ten times `k` after some turns
record Kept {A : Type 0} (n k turns : ℕ) (t : Host A) : Type 0 where
  hosted : Hosted A
  there : find n t.contents_map ≡ some hosted
  distinct : IsMap t.contents_map
  period : hosted.frame ≡ pos (10 * k)
  time : t.frame_count ≡ 10 * turns
  counted : (hosted.fps_count + waiting n t.port) % 2 ^ 32 ≡ (turns / k) % 2 ^ 32
