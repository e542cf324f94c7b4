-- ===== src/Sensor/Waiting.antt =====
-- sdi12_sensor.c: what a measurement command announces that takes its time.
use libsdi.Base.{
  ℕ, ◌+◌, ◌<◌, ◌≡◌, ◌≢◌, refl, ap, ◌∙◌, Bool, true, false, List, [], ◌∷◌, ◌++◌, Option, some,
  if◌then◌else◌, arith, length, drop, min, ltb, ◌==◌,
}
use libsdi.Base.Text.{zero_pad}
use libsdi.Crc.{crlf}
use libsdi.Protocol.{
  ok, MeasType, standard, concurrent, highvol_ascii, highvol_binary, verification, continuous,
  State, measuring, measuring_c,
}
use libsdi.Sensor.Types.{Floats, Sensor, sent}
use libsdi.Sensor.Groups.{count_group}
use libsdi.Sensor.Measure.{count_text, busy, measure_async, start, handle_measurement}
use libsdi.Sensor.Reply.{reply}
use libsdi.Sensor.Valid.{IsValid}
use libsdi.Sensor.Answer.{cons-IsText, IsText-mono, reply_lem}
use libsdi.Sensor.MeasureAnswers.{timing-IsText, zero_pad_three-IsText, printed_lem}
use libsdi.Sensor.Counting.{count_group-le}

-- The state of a sensor in which a measurement of a type runs: SDI12_STATE_MEASURING if its end makes
-- a service request, and else SDI12_STATE_MEASURING_C.
abbrev pub running_state : MeasType → State
running_state standard = measuring
running_state verification = measuring
running_state _ = measuring_c

busy-running_state :
    (type : MeasType) (s : State) → type ≢ continuous → busy type s ≡ running_state type
unfolding busy
busy-running_state standard s ne = refl
busy-running_state verification s ne = refl
busy-running_state concurrent s ne = refl
busy-running_state highvol_ascii s ne = refl
busy-running_state highvol_binary s ne = refl
busy-running_state continuous s ne = absurd (ne refl)

module _ {F W : Type 0} where
  start_async :
      (callback : Option (ℕ → MeasType → W → ℕ × W)) (f : ℕ → MeasType → W → ℕ × W) (group : ℕ)
      (type : MeasType) (n : ℕ) (s : Sensor F W)
      → callback ≡ some f
      → start callback group type n s
        ≡ measure_async group type n
            (f group type s.world).0
            (record s { world = (f group type s.world).1 })
  unfolding start
  start_async callback f group type n s e = ap (λ c. start c group type n s) e

  -- What a sensor whose measurement takes its time does on a measurement command: it announces the
  -- time and the count, and has no data until the measurement is done.
  pub record Waits (text : List ℕ) (crc : Bool) (type : MeasType) (s s' : Sensor F W) : Type 0 where
    pub sends : s'.trace ≡ s.trace ++ sent text ∷ []
    pub state : s'.state ≡ running_state type
    pub unavailable : s'.data_available ≡ false
    pub type_kept : s'.pending_meas_type ≡ type
    pub crc_kept : s'.crc_requested ≡ crc
    pub address : s'.address ≡ s.address
    pub callbacks : s'.cb ≡ s.cb

  -- If the start_measurement callback of a well-formed sensor needs a time, then a measurement
  -- command, not a continuous one, for a group that has active parameters succeeds: it sends the
  -- address, the time, cut to 999, and the number of the group's active parameters in the form of
  -- the command (cut to the one or two digits that it has room for, or three digits), and leaves
  -- the sensor without data, in SDI12_STATE_MEASURING after a command for a standard measurement
  -- or a verification and in SDI12_STATE_MEASURING_C after any other, its address and its
  -- callbacks unchanged, with the type and the CRC flag of the command.
  pub handle_measurement-Waits :
      (fl : Floats F) (group : ℕ) (crc : Bool) (type : MeasType) (s : Sensor F W)
      (f : ℕ → MeasType → W → ℕ × W)
      → IsValid fl s
      → s.resp_len ≡ 0
      → type ≢ continuous
      → s.cb.start_measurement ≡ some f
      → 0 < (f group type s.world).0
      → 0 < count_group s.params group
      → (s' : Sensor F W) × (handle_measurement group crc type s ≡ some (ok, s'))
        × Waits
            (s.address
              ∷ (zero_pad 3 (min (f group type s.world).0 999)
                  ++ (count_text type (count_group s.params group) ++ crlf)))
            crc
            type
            s
            s'
  unfolding handle_measurement measure_async reply
  handle_measurement-Waits fl group crc type s f (config, buffer, cache) nolen ne callback later
        some_values =
      let n = count_group s.params group in
      let t = (f group type s.world).0 in
      let ttt = if ltb 999 t then 999 else t in
      let cut : ttt ≡ min t 999 = ground arith in
      let body = zero_pad 3 (min t 999) ++ (count_text type n ++ crlf) in
      let few = count_group-le s.params group config.params_fit in
      let small =
        timing-IsText (zero_pad 3 (min t 999)) type n
          (zero_pad_three-IsText (min t 999) (omega arith)) few in
      let text =
        cons-IsText s.address 80 body config.address_valid
          (IsText-mono 8 80 body (omega arith) small) in
      let set : Sensor F W = record s {
        crc_requested = crc;
        pending_meas_type = type;
        pending_meas_group = group;
      } in
      let line = s.address ∷ body in
      let busy_now : Sensor F W = record set {
        state = busy type s.state;
        data_available = false;
        world = (f group type s.world).1;
      } in
      let there : (n == 0) ≡ false = ground arith in
      let running : ltb 0 (min t 999) ≡ true = ground arith in
      let not_now : (min t 999 == 0) ≡ false = ground arith in
      let shown = printed_lem type s.resp_buf line ne in
      (
        record busy_now {
          resp_buf = line ++ 0 ∷ drop (length line + 1) s.resp_buf;
          trace = s.trace ++ sent line ∷ [];
        },
        rw there (
            start_async s.cb.start_measurement f group type n set callback
            ∙ rw (cut, running, not_now, shown)
                (reply_lem busy_now line config.sends nolen buffer text)),
        record {
          sends = refl;
          state = busy-running_state type s.state ne;
          unavailable = refl;
          type_kept = refl;
          crc_kept = refl;
          address = refl;
          callbacks = refl;
        },
      )
