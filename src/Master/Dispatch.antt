-- ===== src/Master/Dispatch.antt =====
-- sdi12_master.c builds the measurement commands that sdi12_sensor.c dispatches.
use libsdi.Base.{
  ℕ, ◌+◌, ◌-◌, ◌≤◌, ◌≡◌, refl, Bool, true, false, List, [], ◌∷◌, ◌++◌, some, arith, zero, suc,
  subst, length, length-append, take_all, ltb, leb, ◌==◌,
}
use libsdi.Base.Text.{decimal_one}
use libsdi.Protocol.{
  MeasType, standard, concurrent, highvol_ascii, highvol_binary, verification, continuous,
}
use libsdi.Sensor.Types.{Floats, Sensor}
use libsdi.Sensor.Measure.{handle_measurement}
use libsdi.Sensor.Metadata.{group_digit}
use libsdi.Sensor.Process.{
  abort_concurrent, strip_bang, dispatch, dispatch_highvol, process_command, process,
}
use libsdi.Master.Commands.{cut_to, grouped, measure_command}

-- The group and the CRC that a command of the type can ask for.
abbrev pub asked_group : MeasType → ℕ → ℕ
asked_group standard group = group
asked_group concurrent group = group
asked_group type group = 0

abbrev pub asked_crc : MeasType → Bool → Bool
asked_crc verification crc = false
asked_crc type crc = crc

module _ {F W : Type 0} (fl : Floats F) where
  -- The sensor as it enters the handler of a command with its address.
  abbrev pub prepared : Sensor F W → Sensor F W
  prepared s = abort_concurrent s.state (record s { resp_len = 0 })

  -- What is to be shown of a command.
  abbrev Arrives : Sensor F W → MeasType → ℕ → Bool → List ℕ → Type 0
  Arrives s type group crc cmd =
      (rest : List ℕ)
      → process fl (cmd ++ rest) (length cmd) s ≡ handle_measurement group crc type (prepared s)

  plain-Arrives :
      (s : Sensor F W)
      → Arrives s verification 0 false (s.address ∷ b'V' ∷ b'!' ∷ [])
        × Arrives s standard 0 false (s.address ∷ b'M' ∷ b'!' ∷ [])
        × Arrives s standard 0 true (s.address ∷ b'M' ∷ b'C' ∷ b'!' ∷ [])
        × Arrives s concurrent 0 false (s.address ∷ b'C' ∷ b'!' ∷ [])
        × Arrives s concurrent 0 true (s.address ∷ b'C' ∷ b'C' ∷ b'!' ∷ [])
  unfolding process process_command dispatch strip_bang group_digit
  plain-Arrives s =
      let same : (s.address == s.address) ≡ true = ground arith in
      (
        λ rest. rw same refl,
        λ rest. rw same refl,
        λ rest. rw same refl,
        λ rest. rw same refl,
        λ rest. rw same refl,
      )

  highvol-Arrives :
      (s : Sensor F W)
      → Arrives s highvol_ascii 0 false (s.address ∷ b'H' ∷ b'A' ∷ b'!' ∷ [])
        × Arrives s highvol_ascii 0 true (s.address ∷ b'H' ∷ b'A' ∷ b'C' ∷ b'!' ∷ [])
        × Arrives s highvol_binary 0 false (s.address ∷ b'H' ∷ b'B' ∷ b'!' ∷ [])
        × Arrives s highvol_binary 0 true (s.address ∷ b'H' ∷ b'B' ∷ b'C' ∷ b'!' ∷ [])
  unfolding process process_command dispatch dispatch_highvol strip_bang
  highvol-Arrives s =
      let same : (s.address == s.address) ≡ true = ground arith in
      (λ rest. rw same refl, λ rest. rw same refl, λ rest. rw same refl, λ rest. rw same refl)

  grouped-Arrives :
      (s : Sensor F W) (group : ℕ)
      → 1 ≤ group
      → group ≤ 9
      → Arrives s standard group false (s.address ∷ b'M' ∷ (b'0' + group) ∷ b'!' ∷ [])
        × Arrives s standard group true (s.address ∷ b'M' ∷ b'C' ∷ (b'0' + group) ∷ b'!' ∷ [])
        × Arrives s concurrent group false (s.address ∷ b'C' ∷ (b'0' + group) ∷ b'!' ∷ [])
        × Arrives s concurrent group true (s.address ∷ b'C' ∷ b'C' ∷ (b'0' + group) ∷ b'!' ∷ [])
  unfolding process process_command dispatch strip_bang group_digit
  grouped-Arrives s group low high =
      let same : (s.address == s.address) ≡ true = ground arith in
      let other : (b'0' + group == b'C') ≡ false = ground arith in
      let above : leb b'1' (b'0' + group) ≡ true = ground arith in
      let below : leb (b'0' + group) b'9' ≡ true = ground arith in
      let value : b'0' + group - b'0' ≡ group = omega arith in
      (
        λ rest. rw (same, other, above, below, value) refl,
        λ rest. rw (same, above, below, value) refl,
        λ rest. rw (same, other, above, below, value) refl,
        λ rest. rw (same, above, below, value) refl,
      )

  -- A short command is not cut.
  uncut :
      (s : Sensor F W) (type : MeasType) (group : ℕ) (crc : Bool) (text cmd : List ℕ)
      → length text ≤ 15
      → some (cut_to 16 text) ≡ some cmd
      → Arrives s type group crc text
      → Arrives s type group crc cmd
  uncut s type group crc text cmd short e arrives =
      let whole = take_all 15 text short in
      let same : text ≡ cmd = cc in subst (Arrives s type group crc) same arrives

  -- The command of a group.
  grouped_command :
      (s : Sensor F W) (type : MeasType) (letters : List ℕ) (crc : Bool) (group : ℕ) (cmd : List ℕ)
      → group ≤ 9
      → length letters ≤ 2
      → Arrives s type 0 crc (s.address ∷ (letters ++ b'!' ∷ []))
      → (1 ≤ group → Arrives s type group crc (s.address ∷ (letters ++ (b'0' + group) ∷ b'!' ∷ [])))
      → some (cut_to 16 (grouped s.address letters group)) ≡ some cmd
      → Arrives s type group crc cmd
  unfolding grouped
  grouped_command s type letters crc zero cmd h short plain numbered e =
      uncut s type 0 crc (s.address ∷ (letters ++ b'!' ∷ [])) cmd
        (omega (arith, length-append letters (b'!' ∷ []))) e plain
  grouped_command s type letters crc (suc g) cmd h short plain numbered e =
      let group = suc g in
      let tail = (b'0' + group) ∷ b'!' ∷ [] in
      let text = s.address ∷ (letters ++ tail) in
      let there : ltb 0 group ≡ true = ground arith in
      uncut s type group crc text cmd (omega (arith, length-append letters tail))
        (rw (there, decimal_one group (omega arith)) at e) (numbered (omega arith))

  -- A measurement command that the data recorder builds, for the address of a sensor, a type other
  -- than a continuous one and a group of at most 9, is dispatched by the sensor to the handler of
  -- measurements with that type, that group (for standard and concurrent measurements) and the CRC
  -- that was asked for (but for a verification).
  pub process-measure_command :
      (s : Sensor F W) (type : MeasType) (group : ℕ) (crc : Bool) (cmd rest : List ℕ)
      → group ≤ 9
      → measure_command s.address type group crc ≡ some cmd
      → process fl (cmd ++ rest) (length cmd) s
        ≡ handle_measurement (asked_group type group) (asked_crc type crc) type (prepared s)
  unfolding measure_command
  process-measure_command s standard group false cmd rest h e =
      let (v, m, mc, c, crc_c) = plain-Arrives s in
      grouped_command s standard (b'M' ∷ []) false group cmd h (omega arith) m
        (λ low. (grouped-Arrives s group low h).0) e rest
  process-measure_command s standard group true cmd rest h e =
      let (v, m, mc, c, crc_c) = plain-Arrives s in
      grouped_command s standard (b'M' ∷ b'C' ∷ []) true group cmd h (omega arith) mc
        (λ low. (grouped-Arrives s group low h).1) e rest
  process-measure_command s concurrent group false cmd rest h e =
      let (v, m, mc, c, crc_c) = plain-Arrives s in
      grouped_command s concurrent (b'C' ∷ []) false group cmd h (omega arith) c
        (λ low. (grouped-Arrives s group low h).2) e rest
  process-measure_command s concurrent group true cmd rest h e =
      let (v, m, mc, c, crc_c) = plain-Arrives s in
      grouped_command s concurrent (b'C' ∷ b'C' ∷ []) true group cmd h (omega arith) crc_c
        (λ low. (grouped-Arrives s group low h).3) e rest
  process-measure_command s verification group crc cmd rest h e =
      uncut s verification 0 false (s.address ∷ b'V' ∷ b'!' ∷ []) cmd (omega arith) e
        (plain-Arrives s).0 rest
  process-measure_command s highvol_ascii group false cmd rest h e =
      uncut s highvol_ascii 0 false (s.address ∷ b'H' ∷ b'A' ∷ b'!' ∷ []) cmd (omega arith) e
        (highvol-Arrives s).0 rest
  process-measure_command s highvol_ascii group true cmd rest h e =
      uncut s highvol_ascii 0 true (s.address ∷ b'H' ∷ b'A' ∷ b'C' ∷ b'!' ∷ []) cmd (omega arith) e
        (highvol-Arrives s).1 rest
  process-measure_command s highvol_binary group false cmd rest h e =
      uncut s highvol_binary 0 false (s.address ∷ b'H' ∷ b'B' ∷ b'!' ∷ []) cmd (omega arith) e
        (highvol-Arrives s).2 rest
  process-measure_command s highvol_binary group true cmd rest h e =
      uncut s highvol_binary 0 true (s.address ∷ b'H' ∷ b'B' ∷ b'C' ∷ b'!' ∷ []) cmd (omega arith) e
        (highvol-Arrives s).3 rest
  process-measure_command s continuous group crc cmd rest h e = cc
