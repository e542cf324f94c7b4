-- ===== src/Session/System/Safe.antt =====
-- No run of the system faults, and its contexts stay well-formed.
use libsdi.Base.{
  ℕ, ◌≡◌, refl, subst, sym, false, List, [], ◌∷◌, ◌++◌, none, some, All, length, arith,
}
use libsdi.Protocol.{Err}
use libsdi.Sensor.Types.{Floats, Run}
use libsdi.Sensor.Valid.{IsValid, Answers}
use libsdi.Sensor.ApiValid.{
  Initialised, init-Initialised, register_param-IsValid, register_xcmd-IsValid,
}
use libsdi.Sensor.Lifecycle.{measurement_done-Done, break-IsValid}
use libsdi.Sensor.ProcessAnswers.{process-Answers}
use libsdi.Master.Bus.{Master}
use libsdi.Master.Setup.{fresh_master, init_bound, master_init}
use libsdi.Master.Safe.{Guarded, Stays}
use libsdi.Master.Calls.{Call, Allowed, run_calls}
use libsdi.Master.Calls.Safe.{run_call-Safe}
use libsdi.Session.Wired.{IsWired, wired-IsMaster, SameBus-IsWired}
use libsdi.Session.{Wire, after_run, wire_send, wire_recv}
use libsdi.Session.System.{
  Processable, Step, called, measured, broken, registered, extended_by, noise, Reach, start, later,
}

module _ {F V : Type 0} (fl : Floats F) where
  -- The property of the bus that every command keeps.
  abbrev pub HasSensor : Wire F V → Type 0
  HasSensor wire = IsValid fl wire.sensor × (wire.faulted ≡ false)

  -- A data recorder on a bus with a well-formed sensor.
  pub record IsSystem (m : Master (Wire F V)) : Type 0 where
    pub wired : IsWired fl m
    pub sensor : HasSensor m.world

  after_run-IsValid :
      (wire : Wire F V) (run : Run F V)
      → wire.faulted ≡ false
      → Answers fl [] run
      → HasSensor (after_run wire run)
  unfolding after_run
  after_run-IsValid wire none f h = absurd h
  after_run-IsValid wire (some (e, s)) f h = (h.0, f)

  wire_send-IsValid :
      (cmd : List ℕ) (wire : Wire F V)
      → Processable cmd
      → HasSensor wire
      → HasSensor (wire_send fl cmd wire)
  unfolding wire_send
  wire_send-IsValid cmd wire c v =
      after_run-IsValid wire _ v.1
        (process-Answers fl (cmd ++ 0 ∷ []) (length cmd) (record wire.sensor { trace = [] }) v.0 c)

  system-Guarded : (m : Master (Wire F V)) → IsSystem m → Guarded HasSensor Processable m
  unfolding wire_recv
  system-Guarded m h = record {
    arrays = wired-IsMaster fl m h.wired;
    sends = λ cmd wire c v.
        subst (λ (f : List ℕ → Wire F V → Wire F V). HasSensor (f cmd wire)) (sym h.wired.sends)
          (wire_send-IsValid cmd wire c v);
    receives = λ room timeout wire v.
        subst (λ (f : ℕ → ℕ → Wire F V → List ℕ × Wire F V). HasSensor (f room timeout wire).1)
          (sym h.wired.receives) v;
    holds = h.sensor;
  }

  Stays-IsSystem :
      (m m' : Master (Wire F V)) → IsSystem m → Stays HasSensor Processable m m' → IsSystem m'
  Stays-IsSystem m m' h s = record {
    wired = SameBus-IsWired fl m m' h.wired s.bus;
    sensor = s.guarded.holds;
  }

  -- Something happens on the line or in the sensor.
  elsewhere :
      (m m' : Master (Wire F V)) (wire : Wire F V)
      → m' ≡ record m { world = wire }
      → IsSystem m
      → HasSensor wire
      → IsSystem m'
  elsewhere m m' wire e h v = subst IsSystem (sym e) (record {
    wired = record {
      sends = h.wired.sends;
      receives = h.wired.receives;
      commands = h.wired.commands;
      responses = h.wired.responses;
    };
    sensor = v;
  })

  module _ (strtod : List ℕ → F) where
    Step-IsSystem : (m m' : Master (Wire F V)) → Step fl strtod m m' → IsSystem m → IsSystem m'
    Step-IsSystem m m' (called call e c done) h =
        let (e', m₁, ran, s) =
          run_call-Safe strtod HasSensor Processable call m (system-Guarded m h) c in
        let same : m₁ ≡ m' = cc in subst IsSystem same (Stays-IsSystem m m₁ h s)
    Step-IsSystem m m' (measured values count e s p few done at_line) h =
        let (s', ran, d) =
          measurement_done-Done fl values count (record m.world.sensor { trace = [] }) h.sensor.0 p
            few in
        let same : s' ≡ s = cc in
        elsewhere m m' _ at_line h (subst (IsValid fl) same d.valid, h.sensor.1)
    Step-IsSystem m m' (broken e) h =
        elsewhere m m' _ e h ((break-IsValid fl m.world.sensor h.sensor.0).1, h.sensor.1)
    Step-IsSystem m m' (registered group decimals shef units hs hu e) h = elsewhere m m' _ e h (
      register_param-IsValid fl group decimals shef units m.world.sensor hs hu h.sensor.0,
      h.sensor.1,
    )
    Step-IsSystem m m' (extended_by prefix handler contract e) h =
        elsewhere m m' _ e h
          (register_xcmd-IsValid fl prefix handler m.world.sensor contract h.sensor.0, h.sensor.1)
    Step-IsSystem m m' (noise bytes e) h = elsewhere m m' _ e h h.sensor

    -- In every state that the system gets into from its initialisation on - by calls of the data
    -- recorder that send no number of a parameter that overflows an `int`, by calls of the
    -- sensor's application, by breaks and by noise on the line, in any order - the data recorder
    -- still has its callbacks and arrays of their sizes, and the sensor is well-formed and has
    -- made no access outside an array.
    pub Reach-IsSystem : {m : Master (Wire F V)} → Reach fl strtod m → IsSystem m
    unfolding master_init init_bound fresh_master
    Reach-IsSystem (start address ident cb v s m hi hr hb made started) =
        let valid = subst (Initialised fl) made (init-Initialised fl address ident cb v hi hr hb) in
        let same : fresh_master (wire_send fl) wire_recv
              (record { sensor = s; incoming = []; faulted = false })
            ≡ m =
          cc in
        subst IsSystem same (record {
          wired = record { sends = refl; receives = refl; commands = refl; responses = refl };
          sensor = (valid.1, refl);
        })
    Reach-IsSystem (later {m} {m'} r step) = Step-IsSystem m m' step (Reach-IsSystem r)

    -- From every state that the system gets into, every sequence of calls of the data recorder
    -- that send no number of a parameter that overflows an `int` runs to its end without an access
    -- outside an array of the data recorder, and returns a code for every call. It ends in a state
    -- that the system gets into, in which the data recorder still has its callbacks and arrays of
    -- their sizes, and the sensor is well-formed and has, in all commands that it was sent, made
    -- no access outside an array.
    pub reach_calls :
        (calls : List Call) (m : Master (Wire F V))
        → Reach fl strtod m
        → All (Allowed Processable) calls
        → (codes : List Err) × (m' : Master (Wire F V)) × (run_calls strtod calls m
            ≡ some (codes, m'))
          × (length codes ≡ length calls)
          × Reach fl strtod m'
          × IsSystem m'
    unfolding run_calls
    reach_calls [] m r h = ([], m, refl, refl, r, Reach-IsSystem r)
    reach_calls (call ∷ calls) m r h =
        let (e, m₁, ran, s) =
          run_call-Safe strtod HasSensor Processable call m (system-Guarded m (Reach-IsSystem r))
            h.0 in
        let (es, m₂, rest, size, r', holds) =
          reach_calls calls m₁ (later r (called call e h.0 ran)) h.1 in
        (e ∷ es, m₂, rw (ran, rest) refl, omega (arith, size), r', holds)
