-- ===== src/Tests/Connection.antt =====
-- The connection and its thread (src/proto_serial.c) with concrete ports.
use ultramat.Base.{◌≡◌, ◌⊎◌, false, true, [], ◌∷◌, none, failure, List}
use ultramat.MessageHandler.Trace.{run, start}
use ultramat.MessageHandler.Trace.Order.{run-start-Ordered}
use ultramat.Serial.{
  Port, Event, rounds, adds, loop, Connection, Answers, null, absent, start_serial_connection,
  stop_serial_connection, thread_round, round, poll_port, read_response, take_response, process_on,
}
use ultramat.Serial.Thread.{Onward, accepted_in, loop-Onward}
use ultramat.Serial.Lifecycle.{
  Live, Started, Failed, Stuck, start_serial_connection_cases, thread_round_cases,
}
use ultramat.Orders.{error_modal, on_motor_switch_toggle}
use ultramat.Orders.Motor.{on_motor_switch_toggle_cases}
use ultramat.Tests.Orders.{page}
use ultramat.Tests.Worker.{off, up, go}

abbrev pub silent : Port
silent = record { polls = false; read = none; decode = λ bytes. none; wire = up }

-- Bytes are there, but reading them fails.
abbrev unplugged : Port
unplugged = record { polls = true; read = none; decode = λ bytes. none; wire = up }

abbrev events : List Event
events = adds (go 1) ∷ rounds silent 0 ∷ rounds silent 0 ∷ adds (go 2) ∷ rounds unplugged 1 ∷ []

loop-Onward_example :
    let (s, fx) = loop events (start off).system in
    Onward (run (start off) []) s (accepted_in events (start off).system) fx
unfolding run
loop-Onward_example = loop-Onward events (run (start off) []) (run-start-Ordered off [])

abbrev pub unconnected : Connection
unconnected = record {
  ser = null;
  thread_running = false;
  thread = absent;
  left_open = 0;
  system = off;
}

abbrev no_thread : Answers
no_thread = record { allocates = true; opens = true; creates = false }

abbrev pub all_well : Answers
all_well = record { allocates = true; opens = true; creates = true }

start_serial_connection_cases_example :
    let (r, c) = start_serial_connection no_thread unconnected in
    (r ≡ failure) × Failed no_thread unconnected c
start_serial_connection_cases_example = start_serial_connection_cases no_thread unconnected

abbrev connected : Connection
connected = (start_serial_connection all_well unconnected).1

connected-Live : Live connected
unfolding start_serial_connection
connected-Live = (start_serial_connection_cases all_well unconnected).1.live

thread_round_cases_example :
    let (c, _) = thread_round unplugged 1 connected in
    let (c', fx) = stop_serial_connection up c in Stuck c c' fx
unfolding round poll_port read_response take_response process_on
thread_round_cases_example = thread_round_cases unplugged 1 up connected connected-Live

on_motor_switch_toggle_cases_example :
    let (p', c', fx, shown) = on_motor_switch_toggle true no_thread up page unconnected in
    (Started unconnected c' × (p' ≡ record page { motor_switch = true }) × (shown ≡ []))
    ⊎ (Failed no_thread unconnected c'
        × (p' ≡ record page { motor_switch = false })
        × (shown ≡ error_modal "Fehler bei Kommunikationsaufbau" ∷ []))
on_motor_switch_toggle_cases_example = on_motor_switch_toggle_cases no_thread up page unconnected
