-- ===== src/CommandHandler.antt =====
-- src/command_handler.c: which callback runs when the microcontroller reports a command done. A
-- table of the last 32 commands is written round and round, and searched from its start.
pub mod Lookup
pub mod Unused
pub mod Recent
use ultramat.Base.{
  ℕ, ◌+◌, ◌%◌, List, [], ◌∷◌, Option, none, some, Status, success, failure, ◌==◌, if◌then◌else◌,
  set, replicate,
}
use ultramat.Proto.{
  CmdType, cmd_number, cmd_undefined, hello_there, stop, recipe_step, move_x, move_y, Response,
}

-- COMMANDS_MAX_PENDING
abbrev pub max_pending : ℕ
max_pending = 32

-- The functions that a `handler_func` can point to.
pub data Handler : Type 0 where
  hello_there_handler recipe_step_handler move_x_handler move_y_handler : Handler

pub record CmdFuncPair : Type 0 where
  pub cmd : CmdType
  pub func : Option Handler

-- `none` is a null `func`.
pub record IdHandlerPair : Type 0 where
  pub id : ℕ
  pub func : Option Handler

-- What the handlers put into the idle queue of the GUI thread.
pub data IdleCall : Type 0 where
  cb_cmd_hello_there_done : Response → IdleCall
  cb_cmd_step_done cb_cmd_move_x_done cb_cmd_move_y_done : IdleCall

-- `pendingCmds_` and `handlerIndex_`
pub record Commands : Type 0 where
  pub pending : List IdHandlerPair
  pub handler_index : ℕ

-- The array has a slot for each of the 7 command types, and the last is zero-initialised.
abbrev pub cmd_func_map : List CmdFuncPair
cmd_func_map =
    record { cmd = cmd_undefined; func = none }
    ∷ record { cmd = hello_there; func = some hello_there_handler }
    ∷ record { cmd = stop; func = none }
    ∷ record { cmd = recipe_step; func = some recipe_step_handler }
    ∷ record { cmd = move_x; func = some move_x_handler }
    ∷ record { cmd = move_y; func = some move_y_handler }
    ∷ record { cmd = cmd_undefined; func = none }
    ∷ []

find_func : List CmdFuncPair → CmdType → Option Handler
find_func [] cmd = none
find_func (p ∷ ps) cmd = if cmd_number p.cmd == cmd_number cmd then p.func else find_func ps cmd

unfoldable pub get_handler_func : CmdType → Option Handler
unfolding find_func
get_handler_func cmd = find_func cmd_func_map cmd

-- A handler returns 0 and adds one call to the idle queue.
unfoldable pub call_handler : Handler → Response → IdleCall
call_handler hello_there_handler resp = cb_cmd_hello_there_done resp
call_handler recipe_step_handler resp = cb_cmd_step_done
call_handler move_x_handler resp = cb_cmd_move_x_done
call_handler move_y_handler resp = cb_cmd_move_y_done

-- The call of a `func` that may be null.
unfoldable pub run_func : Option Handler → Response → List IdleCall
unfolding call_handler
run_func none resp = []
run_func (some h) resp = call_handler h resp ∷ []

unfoldable pub find_pending : List IdHandlerPair → Response → Status × List IdleCall
unfolding run_func
find_pending [] resp = (failure, [])
find_pending (p ∷ ps) resp =
    if p.id == resp.id then (success, run_func p.func resp) else find_pending ps resp

-- `execute_cmd_handler`, and `command_handler_execute_done`, which only calls it. The id of a table
-- entry is 8 bits wide, and that of a response 32.
unfoldable pub execute_done : Commands → Response → Status × List IdleCall
unfolding find_pending
execute_done s resp = find_pending s.pending resp

unfoldable pub init : Commands
init = record {
  handler_index = 0;
  pending = replicate max_pending (record { id = 0; func = none });
}

unfoldable pub add_handler : Commands → ℕ → Option Handler → Status × Commands
add_handler s id none = (failure, s)
add_handler s id (some h) = (
  success,
  record s {
    pending = set s.pending s.handler_index (record { id = id; func = some h });
    handler_index = (s.handler_index + 1) % max_pending;
  },
)

unfoldable pub add : Commands → ℕ → CmdType → Status × Commands
unfolding add_handler
add s id cmd = add_handler s id (get_handler_func cmd)
