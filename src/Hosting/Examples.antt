-- ===== src/Hosting/Examples.antt =====
-- The lobby and a contents with a period of 20 ms on the session library, and the theorems about them.
use mo_session_server.Base.{[], false, ℕ, ◌+◌, ◌∷◌, ◌≡◌}
use mo_session_server.Base.Int.{negsuc, pos}
use mo_session_server.Hosting.{Handlers, Host, Hosted, post_update, receive, worker}
use mo_session_server.Match.{Lobby, on_enter, on_leave, on_shut_down}
use mo_session_server.Battle.{Effect}
use mo_session_server.Hosting.Dispatch.{waiting}
use mo_session_server.Hosting.Calls.{gives_back, worker-give_back}

-- The lobby as a contents: OnUpdate does nothing.
lobby_handlers : Handlers Lobby Effect
lobby_handlers = record {
  on_enter = λ session l. on_enter l session;
  on_leave = λ session l. on_leave l session;
  on_update = λ l. (l, []);
  on_shut_down = λ l. on_shut_down l;
}

abbrev empty_lobby : Lobby
empty_lobby = record { stop_requested = false; waiting = []; players = [] }

abbrev hosted_lobby : Hosted Lobby
hosted_lobby = record { member = empty_lobby; frame = negsuc 0; fps_count = 0; logic_count = 0 }

worker-give_back_example :
    gives_back (
      worker lobby_handlers
        (record { succeeded = false; transferred = 0; key = 5; overlapped = receive })
        ((1000000001, hosted_lobby) ∷ []))
    ≡ 5 ∷ []
worker-give_back_example =
    worker-give_back lobby_handlers
      (record { succeeded = false; transferred = 0; key = 5; overlapped = receive })
      ((1000000001, hosted_lobby) ∷ []) tt

-- A contents that counts its updates, with the period of a match
abbrev counting : Handlers ℕ Effect
counting = record {
  on_enter = λ session a. (a, []);
  on_leave = λ session a. (a, []);
  on_update = λ a. (a + 1, []);
  on_shut_down = λ a. (a, []);
}

abbrev counter : Hosted ℕ
counter = record { member = 0; frame = pos 20; fps_count = 0; logic_count = 0 }

abbrev fresh : Host ℕ
fresh = record { contents_map = (7, counter) ∷ []; port = []; frame_count = 0 }

-- Two turns post one update, and a worker thread takes it.
abbrev posted_once : Host ℕ
posted_once = record fresh { port = post_update 7 ∷ []; frame_count = 20 }

abbrev updated : Host ℕ
updated = record posted_once {
  contents_map = (7, record counter { member = 1; fps_count = 1 }) ∷ [];
  port = [];
}
