-- ===== src/Tests/Work.antt =====
-- The worker of src/message_handler.c beside its specification over lists, and its work done.
use ultramat.Base.{◌≡◌, refl, List, [], ◌∷◌, arith}
use ultramat.Proto.{ResponseType}
use ultramat.CommandHandler
use ultramat.CommandHandler.{cb_cmd_move_x_done}
use ultramat.MessageHandler.{process, idle_call, sent, System}
use ultramat.MessageHandler.Abstract.{round, view}
use ultramat.MessageHandler.Abstract.Refine.{process-view, seen_round}
use ultramat.MessageHandler.Abstract.Rounds.{rounds}
use ultramat.MessageHandler.Abstract.Work.{Rested, arrive, rounds-Rested}
use ultramat.MessageHandler.Trace.{Call, adds_outgoing, run, start}
use ultramat.MessageHandler.Trace.Account.{Accounted, run-start-Accounted}
use ultramat.Tests.Worker.{up, off, go, answer, two_sent, answered, played, played_Linked}

run-start-Accounted_example : Accounted (run (start off) two_sent)
run-start-Accounted_example = run-start-Accounted off two_sent

-- A done has come for the first of two messages.
abbrev halfway : System
halfway = (played (answered ResponseType.done 1)).system

process-view_example :
    seen_round (process up 2 (played (answered ResponseType.done 1)).system)
    ≡ round up 2 (view (played (answered ResponseType.done 1)).system)
process-view_example =
    process-view up 2 (played (answered ResponseType.done 1)).system
      (played_Linked (answered ResponseType.done 1))

abbrev two_queued : List Call
two_queued = adds_outgoing (go 1) ∷ adds_outgoing (go 2) ∷ []

rounds-Rested_example :
    let s = (played two_queued).system in
    let (s₁, out) = rounds up (0 ∷ 0 ∷ 1 ∷ 90 ∷ []) s in
    let (s₂, fx) =
      rounds up
        (200 ∷ 300 ∷ [])
        (arrive (answer ResponseType.done 1 ∷ answer ResponseType.done 2 ∷ []) s₁) in
    (out ≡ sent (record (go 1) { id = 1 }) ∷ sent (record (go 2) { id = 2 }) ∷ [])
    × Rested s₂
    × (fx ≡ idle_call cb_cmd_move_x_done ∷ idle_call cb_cmd_move_x_done ∷ [])
unfolding played CommandHandler.call_handler
rounds-Rested_example =
    rounds-Rested up up 0 (0 ∷ 0 ∷ 1 ∷ 90 ∷ []) (200 ∷ 300 ∷ []) (played two_queued).system
      (record (go 1) { id = 1 }) (record (go 2) { id = 2 } ∷ [])
      (answer ResponseType.done 1 ∷ answer ResponseType.done 2 ∷ []) (played_Linked two_queued) refl
      refl refl (refl, (refl, tt))
      (
        omega arith,
        omega arith,
        (omega arith, omega arith, (omega arith, omega arith, (omega arith, omega arith, tt))),
      )
      tt refl ((refl, refl, (refl, refl, tt))) refl
