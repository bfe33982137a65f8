-- ===== src/Proto.antt =====
-- proto/commands.proto: the messages between the GUI and the microcontroller, as the C types that
-- nanopb generates from it. A `oneof` is a sum; an optional field with its `has_` flag an Option.
pub mod Position
use ultramat.Base.{ℕ, Bool, Option, none}

pub data CmdType : Type 0 where
  cmd_undefined hello_there stop recipe_step move_x move_y pump_step : CmdType

-- The number of an enum value, by which C compares.
abbrev pub cmd_number : CmdType → ℕ
cmd_number cmd_undefined = 0
cmd_number hello_there = 1
cmd_number stop = 2
cmd_number recipe_step = 3
cmd_number move_x = 4
cmd_number move_y = 5
cmd_number pump_step = 6

-- A decoded enum may hold a number that the schema does not name.
pub data ResponseType : Type 0 where
  rsp_undefined done error emergency_stop : ResponseType
  unrecognized : ℕ → ResponseType

-- PositionX is computed with, and a cast may leave its named values (`Proto.Position`): a number.
abbrev pub PositionX : Type 0
PositionX = ℕ

pub record McVersion : Type 0 where
  pub major : ℕ
  pub minor : ℕ
  pub bugfix : ℕ

pub record PumpStep : Type 0 where
  pub pump_pos : ℕ
  pub seconds : ℕ

pub record RecipeStep : Type 0 where
  pub x_pos : PositionX
  pub y_count : Option ℕ
  pub pump : Option PumpStep

pub data Payload : Type 0 where
  no_payload : Payload
  step : RecipeStep → Payload
  x_pos : PositionX → Payload
  y_count : ℕ → Payload
  stop_default : Bool → Payload
  pump_step_payload : PumpStep → Payload

pub record Message : Type 0 where
  pub id : ℕ
  pub type : CmdType
  pub payload : Payload

pub record Response : Type 0 where
  pub id : ℕ
  pub type : ResponseType
  pub version : Option McVersion
  pub error : Option ℕ

-- Message_init_zero and Response_init_zero
abbrev pub message_init_zero : Message
message_init_zero = record { id = 0; type = cmd_undefined; payload = no_payload }

abbrev pub response_init_zero : Response
response_init_zero = record { id = 0; type = rsp_undefined; version = none; error = none }
