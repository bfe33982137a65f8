-- ===== src/Orders/Manual.antt =====
-- The manual moves along the x axis (src/callbacks_position.c) and the message they queue.
use ultramat.Base.{
  ◌≤◌, ◌<◌, ◌≡◌, refl, ap, ◌⊎◌, inl, inr, true, false, ◌||◌, List, [], ◌∷◌, ◌++◌, map, arith, ltb,
  leb, length,
}
use ultramat.Proto.{Message, PositionX, move_x, x_pos, message_init_zero}
use ultramat.MessageHandler.{System, add_outgoing, message_move_x}
use ultramat.MessageHandler.Linked.{Linked, pending_ids, queued}
use ultramat.MessageHandler.Linked.Outgoing.{numbered, add_outgoing_cases}
use ultramat.Orders.{Page, Toggle, set_manual, on_manual_pos_toggle, cmd_move_x_done}

-- A button that can be used and is not toggled.
abbrev pub ready : Toggle → Toggle
ready t = record { active = false; sensitive = true }

-- A button that cannot be used.
abbrev pub unusable : Toggle → Toggle
unusable t = record { active = t.active; sensitive = false }

-- The message of a move to an x position.
abbrev pub move_message : PositionX → Message
move_message x = record message_init_zero { type = move_x; payload = x_pos x }

pub set_manual-set_manual :
    (ts : List Toggle) → map (set_manual true) (map (set_manual false) ts) ≡ map ready ts
set_manual-set_manual [] = refl
set_manual-set_manual (t ∷ ts) = ap (◌∷◌ (ready t)) (set_manual-set_manual ts)

pub message_move_x-valid :
    (s : System) (x : PositionX)
    → 0 < x
    → x ≤ 8
    → message_move_x s x ≡ add_outgoing s (move_message x)
unfolding message_move_x
message_move_x-valid s x low high =
    let inside : (leb x 0 || ltb 8 x) ≡ false = ground arith in rw inside

-- The user toggles the button of x position 1 to 8 while the thread runs. Then the move is queued
-- with the next id, or, if 31 ids are pending, it is not, and nobody is told. Either way no manual
-- button can be used, and a done of a move along x makes all of them ready again.
pub on_manual_pos_toggle_cases :
    (x : PositionX) (p : Page) (s : System)
    → 0 < x
    → x ≤ 8
    → Linked s
    → let (p', s', shown) = on_manual_pos_toggle true x p s in
      ((queued s' ≡ queued s ++ (numbered s (move_message x) ∷ []))
        ⊎ ((queued s' ≡ queued s) × (31 ≤ length (pending_ids s))))
      × (p' ≡ record p { manual_pos_buttons = map unusable p.manual_pos_buttons })
      × ((cmd_move_x_done p').manual_pos_buttons ≡ map ready p.manual_pos_buttons)
      × (shown ≡ [])
unfolding on_manual_pos_toggle cmd_move_x_done
on_manual_pos_toggle_cases x p s low high l =
    let moved = message_move_x-valid s x low high in
    (
      elim (add_outgoing_cases (move_message x) l) [
        | inl a ↦ rw (moved, a.result) (inl a.joins)
        | inr r ↦ rw (moved, r.result) (inr (refl, r.full))
      ],
      refl,
      set_manual-set_manual p.manual_pos_buttons,
      refl,
    )
