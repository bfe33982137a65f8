-- ===== src/Orders/Motor.antt =====
-- The motor switch (`cb_on_motor_switch_toggle` of src/callbacks_position.c) and the connection.
use ultramat.Base.{◌≡◌, refl, ◌⊎◌, inl, inr, true, false, [], ◌∷◌}
use ultramat.Wire.{Wire}
use ultramat.Serial.{Connection, Answers}
use ultramat.Serial.Lifecycle.{Started, Failed, start_serial_connection_either}
use ultramat.Orders.{Page, error_modal, switched_on, on_motor_switch_toggle}

-- The user toggles the motor switch on. Either the connection is made, the switch stays on and nothing
-- is shown; or it is not, the switch goes off and the user is told. The other widgets stay as they are.
pub on_motor_switch_toggle_cases :
    (a : Answers) (w : Wire) (p : Page) (c : Connection)
    → let (p', c', fx, shown) = on_motor_switch_toggle true a w p c in
      (Started c c' × (p' ≡ record p { motor_switch = true }) × (shown ≡ []))
      ⊎ (Failed a c c'
          × (p' ≡ record p { motor_switch = false })
          × (shown ≡ error_modal "Fehler bei Kommunikationsaufbau" ∷ []))
unfolding on_motor_switch_toggle switched_on
on_motor_switch_toggle_cases a w p c = elim (start_serial_connection_either a c) [
  | inl (good, started) ↦ rw good (inl (started, refl, refl))
  | inr (bad, failed) ↦ rw bad (inr (failed, refl, refl))
]
