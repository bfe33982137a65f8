-- ===== src/Wire.antt =====
-- `proto_comms_send_msg` of src/proto_serial.c, over what it uses of other programs: the encoder of
-- nanopb and the serial port.
use ultramat.Base.{ℕ, List, Bool, Option, none, some, Status, success, failure, if◌then◌else◌}
use ultramat.Proto.{Message}

-- `pb_encode` into a buffer of Message_size bytes (`none` if it fails), and whether `serial_write`
-- takes the bytes.
pub record Wire : Type 0 where
  pub encode : Message → Option (List ℕ)
  pub write : List ℕ → Bool

-- `proto_comms_msg_to_buffer` and the write of what it encodes.
unfoldable pub send_msg : Wire → Message → Status
send_msg w msg = elim (w.encode msg) [
  | none ↦ failure
  | some bytes ↦ if w.write bytes then success else failure
]
