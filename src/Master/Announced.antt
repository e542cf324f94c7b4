-- ===== src/Master/Announced.antt =====
-- sdi12_master.c: sdi12_master_start_measurement, with the answers and the dispatch of
-- sdi12_sensor.c.
use libsdi.Base.{
  ℕ, ◌≤◌, ◌<◌, ◌≡◌, refl, ◌∙◌, ◌≢◌, ap, Bool, true, List, ◌∷◌, ◌++◌, some, Option-cases, inl, inr,
  arith, length, take, length-take,
}
use libsdi.Base.Text.{zero_pad}
use libsdi.Crc.{crlf}
use libsdi.Protocol.{
  ok, Err, MeasType, standard, concurrent, highvol_ascii, highvol_binary, verification, continuous,
  valid_address, max_params,
}
use libsdi.Sensor.Measure.{count_text}
use libsdi.Master.Parse.{trim_crlf, MeasResponse, parse_meas_response, read_announcement}
use libsdi.Master.RoundTrip.{announced, read_announcement_lem}
use libsdi.Master.Bus.{response_timeout_ms, Master}
use libsdi.Master.Transact.{IsMaster, SameBus, same_bus}
use libsdi.Master.Trim.{length-trim_crlf}
use libsdi.Master.Line.{transact_got}
use libsdi.Master.Commands.{measure_command, announced_by, send_measure, start_measurement}

cut-fits : (text cmd : List ℕ) → some (take 15 text) ≡ some cmd → length cmd ≤ 15
cut-fits text cmd e = ground (arith, length-take 15 text)

-- A command that is sent fits the buffer.
measure_command-fits :
    (a : ℕ) (type : MeasType) (group : ℕ) (crc : Bool) (cmd : List ℕ)
    → measure_command a type group crc ≡ some cmd
    → length cmd ≤ 15
unfolding measure_command
measure_command-fits a standard group crc cmd e = cut-fits _ cmd e
measure_command-fits a concurrent group crc cmd e = cut-fits _ cmd e
measure_command-fits a verification group crc cmd e = ground arith
measure_command-fits a highvol_ascii group crc cmd e = cut-fits _ cmd e
measure_command-fits a highvol_binary group crc cmd e = cut-fits _ cmd e
measure_command-fits a continuous group crc cmd e = cc

module _ {W : Type 0} where
  announced_by_lem :
      (type : MeasType) (m : Master W) (read : Err × MeasResponse)
      → read_announcement m.resp_buf m.resp_len type ≡ some read
      → (m' : Master W) × (announced_by type (ok, m) ≡ some ((read.0, some read.1), m'))
        × (m'.world ≡ m.world)
        × SameBus m m'
  unfolding announced_by read_announcement
  announced_by_lem type m read e = elim (Option-cases (trim_crlf m.resp_buf m.resp_len)) [
    | inl f ↦ absurd (cc (rw f at e))
    | inr (t, f) ↦
        let m' = record m { resp_buf = t.0 } in
        let same : some (parse_meas_response t.0 t.1 type) ≡ some read = rw f at e in
        let read_so : parse_meas_response t.0 t.1 type ≡ read = cc in
        (
          m',
          rw f (ap (λ (r : Err × MeasResponse). some ((r.0, some r.1), m')) read_so),
          refl,
          record {
            sends = refl;
            receives = refl;
            commands = refl;
            responses = length-trim_crlf m.resp_buf m.resp_len t f;
          },
        )
  ]

  -- The data recorder reads back what the sensor announces: when the answer to the command that it
  -- builds for a valid address, a type and a group is the address, a time of at most 999 seconds
  -- and a count of at most 20 values, as the sensor prints them for that type, then starting a
  -- measurement returns SDI12_OK with that address, that time and that count (for a standard
  -- measurement or a verification at most 9), and leaves the world as the answer has left it, the
  -- callbacks as they were, and the arrays at their sizes.
  pub start_measurement_lem :
      (a : ℕ) (type : MeasType) (group : ℕ) (crc : Bool) (t n : ℕ) (m : Master W) (cmd : List ℕ)
      → valid_address a ≡ true
      → t < 1000
      → n ≤ max_params
      → type ≢ continuous
      → IsMaster m
      → measure_command a type group crc ≡ some cmd
      → (m.recv 85 response_timeout_ms (m.send cmd m.world)).0
        ≡ a ∷ (zero_pad 3 t ++ (count_text type n ++ crlf))
      → (m' : Master W) × (start_measurement a type group crc m
          ≡ some (
            (
              ok,
              some (record {
                address = a;
                wait_seconds = t;
                value_count = announced type n;
                type = standard;
              }),
            ),
            m',
          ))
        × (m'.world ≡ (m.recv 85 response_timeout_ms (m.send cmd m.world)).1)
        × SameBus m m'
  unfolding start_measurement send_measure
  start_measurement_lem a type group crc t n m cmd h ht hn hc v c e =
      let line = a ∷ (zero_pad 3 t ++ (count_text type n ++ crlf)) in
      let few = measure_command-fits a type group crc cmd c in
      let (m₁, sent, (rest, stored), count, world, bus) =
        transact_got cmd line response_timeout_ms m (omega (arith, few)) v (omega arith) e in
      let read = rw (← stored, ← count) at (read_announcement_lem a t n type rest ht hn hc) in
      let (m', done, kept, bus') = announced_by_lem type m₁ _ read in
      (m', rw (h, c, sent) done, kept ∙ world, same_bus m m₁ m' bus bus')
