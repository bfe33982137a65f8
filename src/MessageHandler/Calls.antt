-- ===== src/MessageHandler/Calls.antt =====
-- What a round of the worker of src/message_handler.c gives to the GUI thread: calls that the handlers
-- of src/command_handler.c make for a response.
use ultramat.Base.{
  ℕ, inl, inr, List, [], ◌∷◌, ◌++◌, map, Option, none, some, Status, success, failure, Bool-cases,
  ◌==◌, u8,
}
use ultramat.Proto.{Message, Response, ResponseType}
use ultramat.Queue.{OutMsgQ, InRespQ, out_msg_q_pop, in_resp_q_pop}
use ultramat.RingBuffer.{ring_buffer_peek}
use ultramat.CommandHandler
use ultramat.CommandHandler.{IdleCall}
use ultramat.Wire.{Wire, send_msg}
use ultramat.MessageHandler.{
  System, WorkerState, idle, send_cmd, done_pending, error, Effect, idle_call, sent, serial_error,
  or_zero, take_done, done_awaited, incoming, receive, idle_on, process_idle, send_result, send_on,
  process_send, stop_timeout, pending_on, process_pending, process_in, process,
}

-- What a round gives to `gdk_threads_add_idle`, in order.
abbrev pub calls_in : List Effect → List IdleCall
calls_in [] = []
calls_in (idle_call call ∷ fx) = call ∷ calls_in fx
calls_in (sent m ∷ fx) = calls_in fx
calls_in (serial_error text ∷ fx) = calls_in fx

module _ (P : IdleCall → Type 0) where
  abbrev pub AllCalls : List IdleCall → Type 0
  AllCalls [] = Unit
  AllCalls (call ∷ calls) = P call × AllCalls calls

  pub AllCalls-append : (xs ys : List IdleCall) → AllCalls xs → AllCalls ys → AllCalls (xs ++ ys)
  AllCalls-append [] ys us vs = vs
  AllCalls-append (x ∷ xs) ys (u, us) vs = (u, AllCalls-append xs ys us vs)

  AllCalls-map :
      (calls : List IdleCall) → AllCalls calls → AllCalls (calls_in (map idle_call calls))
  AllCalls-map [] us = tt
  AllCalls-map (call ∷ calls) (u, us) = (u, AllCalls-map calls us)

  -- The handlers in the table give only such calls.
  abbrev pub Gives : System → Type 0
  Gives s = (resp : Response) → AllCalls (CommandHandler.execute_done s.commands resp).1

  done_awaited-calls :
      (s : System) (resp : Response) → Gives s → AllCalls (calls_in (done_awaited s resp).2)
  unfolding done_awaited take_done
  done_awaited-calls s resp g =
      elim (Bool-cases (or_zero (ring_buffer_peek s.worker.pending_dones) == u8 resp.id)) [
        | inl same ↦ rw same (AllCalls-map (CommandHandler.execute_done s.commands resp).1 (g resp))
        | inr other ↦ rw other tt
      ]

  incoming-calls :
      (type : ResponseType) (st : WorkerState) (s : System) (resp : Response)
      → Gives s
      → AllCalls (calls_in (incoming type st s resp).2)
  unfolding incoming
  incoming-calls ResponseType.done done_pending s resp g = done_awaited-calls s resp g
  incoming-calls ResponseType.done idle s resp g = tt
  incoming-calls ResponseType.done send_cmd s resp g = tt
  incoming-calls ResponseType.done error s resp g = tt
  incoming-calls ResponseType.error st s resp g = tt
  incoming-calls ResponseType.emergency_stop st s resp g = tt
  incoming-calls ResponseType.rsp_undefined st s resp g = tt
  incoming-calls (ResponseType.unrecognized n) st s resp g = tt

  idle_on-calls :
      (r : Option Response × InRespQ) (s : System) → Gives s → AllCalls (calls_in (idle_on r s).1)
  unfolding idle_on receive
  idle_on-calls (none, q) s g = tt
  idle_on-calls (some resp, q) s g =
      incoming-calls resp.type s.worker.fsm_state (record s { in_q = q }) resp g

  send_result-calls :
      (r : Status) (m : Message) (s : System) → AllCalls (calls_in (send_result r m s).1)
  unfolding send_result
  send_result-calls success m s = tt
  send_result-calls failure m s = tt

  send_on-calls :
      (r : Option Message × OutMsgQ) (w : Wire) (s : System) → AllCalls (calls_in (send_on r w s).1)
  unfolding send_on
  send_on-calls (none, q) w s = tt
  send_on-calls (some m, q) w s = send_result-calls (send_msg w m) m (record s { out_q = q })

  pending_on-calls :
      (r : Option Response × InRespQ) (now : ℕ) (s : System)
      → Gives s
      → AllCalls (calls_in (pending_on r now s).1)
  unfolding pending_on receive stop_timeout
  pending_on-calls (none, q) now s g = tt
  pending_on-calls (some resp, q) now s g =
      incoming-calls resp.type s.worker.fsm_state (stop_timeout (record s { in_q = q })) resp g

  process_in-calls :
      (st : WorkerState) (w : Wire) (now : ℕ) (s : System)
      → Gives s
      → AllCalls (calls_in (process_in st w now s).2)
  unfolding process_in process_idle process_send process_pending
  process_in-calls idle w now s g = idle_on-calls (in_resp_q_pop s.in_q) s g
  process_in-calls send_cmd w now s g = send_on-calls (out_msg_q_pop s.out_q) w s
  process_in-calls done_pending w now s g = pending_on-calls (in_resp_q_pop s.in_q) now s g
  process_in-calls error w now s g = tt

  -- So does a round.
  pub process-calls :
      (w : Wire) (now : ℕ) (s : System) → Gives s → AllCalls (calls_in (process w now s).2)
  unfolding process
  process-calls w now s g = process_in-calls s.worker.fsm_state w now s g
