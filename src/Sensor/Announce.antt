-- ===== src/Sensor/Announce.antt =====
-- sdi12_sensor.c: what a measurement command announces, and what it reads.
use libsdi.Base.{
  ℕ, ◌+◌, ◌≤◌, ◌<◌, ◌≡◌, refl, ◌∙◌, Bool, true, false, List, [], ◌∷◌, ◌++◌, Option, none, some,
  arith, length, drop, codes, ltb, ◌==◌,
}
use libsdi.Crc.{crlf}
use libsdi.Protocol.{ok, MeasType, data_ready, max_params}
use libsdi.Sensor.Types.{Floats, Value, Sensor, sent}
use libsdi.Sensor.Groups.{
  count_group, read_loop, read_values, read_group_sync, collect_group_indices,
}
use libsdi.Sensor.Measure.{count_text, measure_sync, start, handle_measurement}
use libsdi.Sensor.Valid.{IsValid}
use libsdi.Sensor.Answer.{cons-IsText, IsText-mono, reply_lem}
use libsdi.Sensor.MeasureAnswers.{timing-IsText}
use libsdi.Sensor.Counting.{positions, count_group_lem, count_group-le, collect_group_indices_lem}

module _ {F W : Type 0} where
  length-read_loop :
      (read : ℕ → W → Value F × W) (n : ℕ) (is : List ℕ) (w : W)
      → n + length is ≤ max_params
      → length (read_loop read n is w).0 ≡ length is
  unfolding read_loop
  length-read_loop read n [] w h = refl
  length-read_loop read n (i ∷ is) w h =
      let room : ltb n max_params ≡ true = ground arith in
      rw room (omega (arith, length-read_loop read (n + 1) is (read i w).1 (omega arith)))

  length-read_group_sync :
      (group : ℕ) (s : Sensor F W) (read : ℕ → W → Value F × W)
      → length s.params ≤ max_params
      → s.cb.read_param ≡ some read
      → length (read_group_sync group s).data_cache ≡ count_group s.params group
  unfolding read_group_sync read_values
  length-read_group_sync group s read h e =
      let same = (collect_group_indices_lem s.params group h).0 in
      let size = count_group_lem s.params group h in
      let few = count_group-le s.params group h in
      rw (e, same)
        (omega (
          arith,
          size,
          length-read_loop read 0 (positions group 0 s.params) s.world (omega (arith, size, few)),
        ))

  start_sync :
      (f : Option (ℕ → MeasType → W → ℕ × W)) (group : ℕ) (type : MeasType) (n : ℕ) (s : Sensor F W)
      → f ≡ none
      → start f group type n s ≡ measure_sync group type n s
  unfolding start
  start_sync none group type n s e = refl
  start_sync (some f) group type n s e = cc

  -- What a sensor without a start_measurement callback does on a measurement command: it reads and
  -- announces the values, and is ready to send them.
  pub record Announced (text : List ℕ) (n group : ℕ) (crc : Bool) (type : MeasType)
      (s s' : Sensor F W) : Type 0 where
    pub sends : s'.trace ≡ s.trace ++ sent text ∷ []
    pub reads : length s'.data_cache ≡ n
    pub state : s'.state ≡ data_ready
    pub available : s'.data_available ≡ true
    pub type_kept : s'.pending_meas_type ≡ type
    pub crc_kept : s'.crc_requested ≡ crc
    pub address : s'.address ≡ s.address
    pub cache :
        s'.data_cache
        ≡ (read_values s.cb.read_param (collect_group_indices s.params group max_params) s.world).0

  -- Without a start_measurement callback, a measurement command to a well-formed sensor for a
  -- group that has parameters succeeds: it sends the address, `000` and the number of the group's
  -- parameters in the form of the command, fills the cache with exactly as many values, what the
  -- callback reads for the group's parameters in their order, and leaves the sensor in the
  -- data-ready state, its address unchanged, with the type and the CRC flag of the command.
  pub handle_measurement-announces :
      (fl : Floats F) (group : ℕ) (crc : Bool) (type : MeasType) (s : Sensor F W)
      (read : ℕ → W → Value F × W)
      → IsValid fl s
      → s.resp_len ≡ 0
      → s.cb.start_measurement ≡ none
      → s.cb.read_param ≡ some read
      → 0 < count_group s.params group
      → let n = count_group s.params group in
        (s' : Sensor F W) × (handle_measurement group crc type s ≡ some (ok, s'))
        × Announced (s.address ∷ (codes "000" ++ (count_text type n ++ crlf))) n group crc type s s'
  unfolding handle_measurement measure_sync read_group_sync
  handle_measurement-announces fl group crc type s read (config, buffer, cache) nolen sync reading
        h =
      let n = count_group s.params group in
      let body = codes "000" ++ (count_text type n ++ crlf) in
      let few = count_group-le s.params group config.params_fit in
      let small = timing-IsText (codes "000") type n (omega arith) few in
      let text =
        cons-IsText s.address 80 body config.address_valid
          (IsText-mono 8 80 body (omega arith) small) in
      let set : Sensor F W = record s {
        crc_requested = crc;
        pending_meas_type = type;
        pending_meas_group = group;
      } in
      let filled = record (read_group_sync group set) { state = data_ready } in
      let some_values : (n == 0) ≡ false = ground arith in
      let line = s.address ∷ body in
      let out : Sensor F W = record filled {
        resp_buf = line ++ 0 ∷ drop (length line + 1) s.resp_buf;
        trace = s.trace ++ sent line ∷ [];
      } in
      (
        out,
        rw some_values (
            start_sync s.cb.start_measurement group type n set sync
            ∙ reply_lem filled line config.sends nolen buffer text),
        record {
          sends = refl;
          reads = length-read_group_sync group set read config.params_fit reading;
          state = refl;
          available = refl;
          type_kept = refl;
          crc_kept = refl;
          address = refl;
          cache = refl;
        },
      )
