-- ===== src/Queue.antt =====
-- src/util/queue.c and inc/util/queue.h: the queues of outgoing messages and incoming responses,
-- two copies of the circular buffer of `Ring`. Every caller passes the addresses of objects, so the
-- tests for null pointers never fail and are left out.
use ultramat.Base.{Bool, Option, Status}
use ultramat.Ring
use ultramat.Ring.{Ring}
use ultramat.Proto.{Message, message_init_zero, Response, response_init_zero}

abbrev pub OutMsgQ : Type 0
OutMsgQ = Ring Message

abbrev pub InRespQ : Type 0
InRespQ = Ring Response

-- The `memset` counts encoded sizes (`Message_size`, `Response_size`). What it clears beyond the array, or
-- leaves of it, is left out: the queue is empty, and its head and tail are 0.
abbrev pub out_msg_q_init : OutMsgQ
out_msg_q_init = Ring.init message_init_zero

abbrev pub in_resp_q_init : InRespQ
in_resp_q_init = Ring.init response_init_zero

abbrev pub out_msg_q_is_empty : OutMsgQ → Bool
out_msg_q_is_empty q = Ring.is_empty q

abbrev pub out_msg_q_push : OutMsgQ → Message → Status × OutMsgQ
out_msg_q_push q msg = Ring.push q msg

abbrev pub in_resp_q_push : InRespQ → Response → Status × InRespQ
in_resp_q_push q resp = Ring.push q resp

-- `none` is the return value -1.
abbrev pub out_msg_q_pop : OutMsgQ → Option Message × OutMsgQ
out_msg_q_pop q = Ring.pop message_init_zero q

abbrev pub in_resp_q_pop : InRespQ → Option Response × InRespQ
in_resp_q_pop q = Ring.pop response_init_zero q
