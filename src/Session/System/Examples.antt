-- ===== src/Session/System/Examples.antt =====
-- The sample sensor and a data recorder, from their initialisation on.
use libsdi.Base.{ℕ, ◌≡◌, refl, false, List, [], ◌∷◌, some, arith, length, codes}
use libsdi.Protocol.{Err, valid_address}
use libsdi.Sensor.Types.{Sensor}
use libsdi.Sensor.Api.{init, fresh, is_set, restore_address, register_param}
use libsdi.Sensor.Sample.{floats, ident, callbacks, ident-IsIdent, seven-IsPrintable}
use libsdi.Master.Bus.{Master}
use libsdi.Master.Setup.{fresh_master, init_bound, master_init}
use libsdi.Master.Calls.{Call, run_calls}
use libsdi.Session.{Wire, wire_send, wire_recv}
use libsdi.Session.System.{registered, noise, Reach, start, later}
use libsdi.Session.System.Safe.{IsSystem, Reach-IsSystem, reach_calls}

-- The first character of a text, for a conversion.
abbrev first : List ℕ → ℕ
first [] = 0
first (c ∷ cs) = c

abbrev new_sensor : Sensor ℕ ℕ
unfolding fresh
new_sensor = fresh b'0' ident callbacks 0

abbrev new_system : Master (Wire ℕ ℕ)
unfolding fresh_master
new_system =
    fresh_master (wire_send floats) wire_recv
      (record { sensor = new_sensor; incoming = []; faulted = false })

new_system-Reach : Reach floats first new_system
unfolding init is_set restore_address valid_address master_init init_bound new_system fresh_master
new_system-Reach =
    start b'0' ident callbacks 0 new_sensor new_system ident-IsIdent (λ i w. seven-IsPrintable) tt
      refl refl

-- A parameter of group 0, and noise.
abbrev with_parameter : Master (Wire ℕ ℕ)
with_parameter = record new_system {
  world = record new_system.world {
    sensor = (register_param 0 (some (codes "TA")) (some (codes "C")) 1 new_sensor).1;
  };
}

abbrev noisy : Master (Wire ℕ ℕ)
noisy = record with_parameter { world = record with_parameter.world { incoming = codes "0?" } }

noisy-Reach : Reach floats first noisy
unfolding new_system new_sensor
noisy-Reach =
    later
      (later new_system-Reach (
        registered 0 1 (codes "TA") (codes "C") (omega arith, omega arith)
          (omega arith, omega arith) refl))
      (noise (codes "0?") refl)

Reach-IsSystem_example : IsSystem floats noisy
Reach-IsSystem_example = Reach-IsSystem floats first noisy-Reach

abbrev some_calls : List Call
some_calls = Call.acknowledge_call b'0' ∷ Call.get_data_call b'0' 0 false ∷ Call.break_call ∷ []

reach_calls_example :
    (errors : List Err) × (m' : Master (Wire ℕ ℕ)) × (run_calls first some_calls noisy
      ≡ some (errors, m'))
    × (length errors ≡ 3)
    × Reach floats first m'
    × IsSystem floats m'
reach_calls_example =
    reach_calls floats first some_calls noisy noisy-Reach
      ((λ e. absurd (omega arith)), ((λ e. absurd (omega arith)), (tt, tt)))
