-- ===== src/MessageHandler/Responses/Foreign.antt =====
-- A done response of src/message_handler.c whose id is larger than a byte: src/command_handler.c looks
-- for the whole id.
use ultramat.Base.{
  ℕ, ◌≤◌, ◌<◌, ◌≡◌, refl, ap, ◌∙◌, false, List, [], ◌∷◌, map, Status, failure, if◌then◌else◌, ◌==◌,
  u8, arith,
}
use ultramat.Fifo
use ultramat.Proto.{Response, ResponseType}
use ultramat.CommandHandler.{IdHandlerPair, IdleCall, find_pending, execute_done}
use ultramat.Wire.{Wire}
use ultramat.MessageHandler.{System, idle, done_pending, idle_call, process}
use ultramat.MessageHandler.Linked.{Linked, pending_ids}
use ultramat.MessageHandler.Responses.{responses}
use ultramat.MessageHandler.Responses.Done.{Done, process-done}

-- The ids in the table are bytes.
abbrev pub ShortIds : List IdHandlerPair → Type 0
ShortIds [] = Unit
ShortIds (p ∷ ps) = (p.id < 256) × ShortIds ps

find_pending-long :
    (ps : List IdHandlerPair) (resp : Response)
    → ShortIds ps
    → 256 ≤ resp.id
    → find_pending ps resp ≡ (failure, [])
unfolding find_pending
find_pending-long [] resp short long = refl
find_pending-long (p ∷ ps) resp (short, shorts) long =
    let other : (p.id == resp.id) ≡ false = ground arith in
    rw other (find_pending-long ps resp shorts long)

-- A worker awaits a done, its table has ids of 8 bits, and the next response is a done whose id is
-- larger than 255 and has the oldest pending id as its lowest 8 bits. Then the round takes both, just
-- as if the command were done, but runs no handler.
pub process-foreign_done :
    {s : System} (w : Wire) (now : ℕ) (resp : Response) (later : List Response) (first : ℕ)
    (rest : List ℕ)
    → Linked s
    → s.worker.fsm_state ≡ done_pending
    → responses s ≡ resp ∷ later
    → resp.type ≡ ResponseType.done
    → pending_ids s ≡ first ∷ rest
    → u8 resp.id ≡ first
    → ShortIds s.commands.pending
    → 256 ≤ resp.id
    → let (r, s', fx) = process w now s in
      Done s rest later (if Fifo.is_empty rest then idle else done_pending) s' × (fx ≡ [])
unfolding execute_done
process-foreign_done {s} w now resp later first rest l e r d p same short long =
    let (done, calls) = process-done w now resp later first rest l e r d p same in
    (
      done,
      calls
          ∙ ap (λ (x : Status × List IdleCall). map idle_call x.1)
              (find_pending-long s.commands.pending resp short long),
    )
