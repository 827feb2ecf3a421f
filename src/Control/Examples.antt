-- ===== src/Control/Examples.antt =====
-- The number of a match behind the last one.
use mo_session_server.Control.{advance_contents_num}
use mo_session_server.Base.{◌≡◌, refl}

went_round : advance_contents_num 999999999 ≡ 1
unfolding advance_contents_num
went_round = refl
