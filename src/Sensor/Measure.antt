-- ===== src/Sensor/Measure.antt =====
-- sdi12_sensor.c: handle_measurement, and the answer of a sensor that has nothing to send.
use libsdi.Base.{
  ℕ, Bool, true, false, List, [], ◌∷◌, ◌++◌, Option, none, some, codes, ltb, ◌==◌, if◌then◌else◌,
  ◌>>=◌,
}
use libsdi.Base.Buffer.{snprintf}
use libsdi.Base.Text.{decimal, zero_pad}
use libsdi.Crc.{crlf, crc_append}
use libsdi.Protocol.{
  ok, MeasType, standard, concurrent, highvol_ascii, highvol_binary, verification, continuous,
  State, measuring, measuring_c, data_ready, max_response_len,
}
use libsdi.Sensor.Types.{Sensor, Run}
use libsdi.Sensor.Groups.{count_group, read_group_sync}
use libsdi.Sensor.Reply.{send_response, reply}

-- The count of values as the response prints it: n, nn or nnn. The type of a measurement command is
-- never `continuous`; for it the branch with a callback writes no response text.
unfoldable pub count_text : MeasType → ℕ → List ℕ
count_text standard n = decimal (if ltb 9 n then 9 else n)
count_text verification n = decimal (if ltb 9 n then 9 else n)
count_text concurrent n = zero_pad 2 (if ltb 99 n then 99 else n)
count_text highvol_ascii n = zero_pad 3 n
count_text highvol_binary n = zero_pad 3 n
count_text continuous n = zero_pad 3 n

-- The state while a measurement runs.
unfoldable pub busy : MeasType → State → State
busy standard s = measuring
busy verification s = measuring
busy concurrent s = measuring_c
busy highvol_ascii s = measuring_c
busy highvol_binary s = measuring_c
busy continuous s = s

unfoldable pub finished : MeasType → State → State
finished continuous s = s
finished _ s = data_ready

unfoldable pub no_values : MeasType → List ℕ
no_values standard = codes "0000"
no_values verification = codes "0000"
no_values _ = codes "00000"

unfoldable pub printed : MeasType → List ℕ → List ℕ → List ℕ
printed continuous buf text = buf
printed _ buf text = snprintf buf text

module _ {F W : Type 0} where
  -- The branch of handle_measurement with a start_measurement callback, which has returned `t`.
  unfoldable pub measure_async : ℕ → MeasType → ℕ → ℕ → Sensor F W → Run F W
  measure_async group type n t s =
      let ttt = if ltb 999 t then 999 else t in
      let text = s.address ∷ (zero_pad 3 ttt ++ (count_text type n ++ crlf)) in
      let shown = record s {
        resp_buf = printed type s.resp_buf text;
        state = if ltb 0 ttt then busy type s.state else finished type s.state;
      } in
      let filled =
        if ttt == 0 then read_group_sync group shown else record shown { data_available = false } in
      send_response filled >>= λ s'. some (ok, s')

  -- The branch without one.
  unfoldable pub measure_sync : ℕ → MeasType → ℕ → Sensor F W → Run F W
  measure_sync group type n s =
      let filled = read_group_sync group s in
      let text = s.address ∷ (codes "000" ++ (count_text type n ++ crlf)) in
      reply text (record filled { state = data_ready })

  unfoldable pub start : Option (ℕ → MeasType → W → ℕ × W) → ℕ → MeasType → ℕ → Sensor F W → Run F W
  start none group type n s = measure_sync group type n s
  start (some f) group type n s =
      let started = f group type s.world in
      measure_async group type n started.0 (record s { world = started.1 })

  unfoldable pub handle_measurement : ℕ → Bool → MeasType → Sensor F W → Run F W
  handle_measurement group with_crc type s₀ =
      let s = record s₀ {
        crc_requested = with_crc;
        pending_meas_type = type;
        pending_meas_group = group;
      } in
      let n = count_group s.params group in
      if n == 0
      then reply (s.address ∷ (no_values type ++ crlf)) s
      else start s.cb.start_measurement group type n s

  -- The answer that is only the address, with a CRC if one is asked for.
  unfoldable pub reply_address : Bool → Sensor F W → Run F W
  reply_address false s = reply (s.address ∷ crlf) s
  reply_address true s = do
    (err, buf) ← crc_append (snprintf s.resp_buf (s.address ∷ [])) max_response_len
    s' ← send_response (record s { resp_buf = buf })
    some (ok, s')
