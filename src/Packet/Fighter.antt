-- ===== src/Packet/Fighter.antt =====
-- The messages of the fight (Servers/BattleSessionServer/RPC_Fighter): what the functions of FightProxy
-- write into a packet, and what FightStub::ProcMessage reads from one.
use mo_session_server.Base.{List, Option, [], if◌then◌else◌, ℕ, ◌++◌, ◌==◌, ◌∷◌}
use mo_session_server.Packet.{SBuffer, clear, get, write_all}
use mo_session_server.Battle.{
  Message, sc_attack1, sc_attack2, sc_attack3, sc_create_me, sc_create_other, sc_damage, sc_delete,
  sc_move_start, sc_move_stop,
}
use mo_session_server.Battle.Actions.{
  Request, attack, attack1, attack2, attack3, move_start, move_stop, unknown, Outcome, handle,
  proc_default,
}
use mo_session_server.Battle.{Roster}

-- `FighterDefine.h`
abbrev pub sc_type : Message → ℕ
sc_type (sc_create_me id dir x y hp) = 0
sc_type (sc_create_other id dir x y hp) = 1
sc_type (sc_delete id) = 2
sc_type (sc_move_start id dir x y) = 11
sc_type (sc_move_stop id dir x y) = 13
sc_type (sc_attack1 id dir x y) = 21
sc_type (sc_attack2 id dir x y) = 23
sc_type (sc_attack3 id dir x y) = 25
sc_type (sc_damage atk tgt hp) = 30

abbrev position_fields : ℕ → ℕ → ℕ → ℕ → List (ℕ × ℕ)
position_fields id dir x y = (4, id) ∷ (1, dir) ∷ (2, x) ∷ (2, y) ∷ []

abbrev argument_fields : Message → List (ℕ × ℕ)
argument_fields (sc_create_me id dir x y hp) = position_fields id dir x y ++ ((1, hp) ∷ [])
argument_fields (sc_create_other id dir x y hp) = position_fields id dir x y ++ ((1, hp) ∷ [])
argument_fields (sc_delete id) = (4, id) ∷ []
argument_fields (sc_move_start id dir x y) = position_fields id dir x y
argument_fields (sc_move_stop id dir x y) = position_fields id dir x y
argument_fields (sc_attack1 id dir x y) = position_fields id dir x y
argument_fields (sc_attack2 id dir x y) = position_fields id dir x y
argument_fields (sc_attack3 id dir x y) = position_fields id dir x y
argument_fields (sc_damage atk tgt hp) = (4, atk) ∷ (4, tgt) ∷ (1, hp) ∷ []

-- The fields that the proxy of a message writes, the type first
abbrev pub fields : Message → List (ℕ × ℕ)
fields m = (1, sc_type m) ∷ argument_fields m

-- The packet of a proxy function, in the buffer that its `CPacket` takes from the pool
unfoldable pub proxy_packet : Message → SBuffer → Option SBuffer
proxy_packet m b = write_all (fields m) (clear b)

-- The cases of the `switch`, on the arguments that are read
abbrev pub request_of : ℕ → ℕ → ℕ → ℕ → Request
request_of type dir x y =
    if type == 10
    then move_start dir x y
    else if type == 12
    then move_stop dir x y
    else if type == 20
    then attack attack1 dir x y
    else if type == 22
    then attack attack2 dir x y
    else if type == 24
    then attack attack3 dir x y
    else unknown

-- What FightStub::ProcMessage calls a handler with. `type` has no value of its own before it is read:
-- it is an argument here. The variables of a case are 0 before they are read.
unfoldable pub read_request : ℕ → SBuffer → Request
read_request type b =
    let (t, b1) = get 1 type b in
    let (dir, b2) = get 1 0 b1 in
    let (x, b3) = get 2 0 b2 in let (y, b4) = get 2 0 b3 in request_of t dir x y

-- FightStub::ProcMessage
unfoldable pub proc_message : ℕ → Roster → ℕ → ℕ → SBuffer → Outcome
proc_message type m s now b = handle m s now (read_request type b)

-- MatchStub::ProcMessage: every message of the lobby is the default.
unfoldable pub match_proc_message : Roster → ℕ → SBuffer → Outcome
match_proc_message m s b = proc_default m s
