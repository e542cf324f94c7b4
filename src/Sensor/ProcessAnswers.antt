-- ===== src/Sensor/ProcessAnswers.antt =====
-- sdi12_sensor.c: sdi12_sensor_process as a whole.
use libsdi.Base.{
  ℕ, ◌≡◌, ◌≢◌, refl, subst, Bool, true, false, not, ◌&&◌, List, some, arith, leb, ◌==◌,
  if◌then◌else◌, Bool-cases, inl, inr, if_both, if_known,
}
use libsdi.Base.Buffer.{byte_at}
use libsdi.Protocol.{
  Err, ok, err_invalid_address, err_invalid_command, State, measuring_c, MeasType, standard,
  concurrent, verification, highvol_ascii, highvol_binary, continuous,
}
use libsdi.Sensor.Types.{Floats, Sensor, Event, Run}
use libsdi.Sensor.Reply.{handle_acknowledge}
use libsdi.Sensor.Process.{
  abort_concurrent, dispatch_highvol, dispatch_data, dispatch, strip_bang, is_print,
  process_command, process,
}
use libsdi.Sensor.Valid.{IsValid, silent, Answers}
use libsdi.Sensor.Answer.{
  handle_acknowledge-Answers, handle_identify-Answers, handle_highvol_stub-Answers,
}
use libsdi.Sensor.MeasureAnswers.{handle_measurement-Answers}
use libsdi.Sensor.DataAnswers.{handle_send_data-Answers, handle_continuous-Answers}
use libsdi.Sensor.CommandAnswers.{NumberFits, handle_identify_measurement-Answers}
use libsdi.Sensor.BinaryAnswers.{handle_send_binary_data-Answers}
use libsdi.Sensor.XcmdAnswers.{handle_extended-Answers, handle_change_address-Answers}

module _ {F W : Type 0} (fl : Floats F) where
  -- `Answers`, as a type of its own.
  data Outcome (before : List Event) (run : Run F W) : Type 0 where
    outcome : Answers fl before run → Outcome before run

  result : (before : List Event) (run : Run F W) → Outcome before run → Answers fl before run
  result before run (outcome h) = h

  wrap : (before : List Event) (run : Run F W) → Answers fl before run → Outcome before run
  wrap before run h = outcome h

  abort_concurrent-IsValid :
      (state : State) (s : Sensor F W)
      → IsValid fl s
      → s.resp_len ≡ 0
      → IsValid fl (abort_concurrent state s)
        × ((abort_concurrent state s).resp_len ≡ 0)
        × ((abort_concurrent state s).trace ≡ s.trace)
  unfolding abort_concurrent
  abort_concurrent-IsValid measuring_c s (config, buffer, cache) nolen =
      ((config, buffer, omega arith), nolen, refl)
  abort_concurrent-IsValid _ s v nolen = (v, nolen, refl)

  dispatch_highvol-Answers :
      (cmd : List ℕ) (len : ℕ) (s : Sensor F W)
      → IsValid fl s
      → s.resp_len ≡ 0
      → Answers fl s.trace (dispatch_highvol cmd len s)
  unfolding dispatch_highvol
  dispatch_highvol-Answers cmd len s v nolen =
      elim (Bool-cases (leb 3 len && byte_at cmd 2 == b'A')) [
        | inl e ↦ rw e (handle_measurement-Answers fl 0 _ highvol_ascii s (λ h. cc) v nolen)
        | inr e ↦ elim (Bool-cases (leb 3 len && byte_at cmd 2 == b'B')) [
          | inl f ↦ rw (e, f) (handle_measurement-Answers fl 0 _ highvol_binary s (λ h. cc) v nolen)
          | inr f ↦ rw (e, f) (handle_highvol_stub-Answers fl s v nolen)
        ]
      ]

  dispatch_data-Answers :
      (cmd : List ℕ) (len : ℕ) (s : Sensor F W)
      → IsValid fl s
      → s.resp_len ≡ 0
      → Answers fl s.trace (dispatch_data fl cmd len s)
  unfolding dispatch_data
  dispatch_data-Answers cmd len s v nolen = elim (Bool-cases (leb 3 len)) [
    | inl e ↦ elim (Bool-cases (byte_at cmd 2 == b'B')) [
      | inl f ↦ rw (e, f) (handle_send_binary_data-Answers fl _ s v)
      | inr f ↦ rw (e, f) (handle_send_data-Answers fl _ s v nolen)
    ]
    | inr e ↦ rw e (v, silent refl (λ h. cc))
  ]

  dispatch-Answers :
      (cmd : List ℕ) (len : ℕ) (s : Sensor F W)
      → IsValid fl s
      → s.resp_len ≡ 0
      → (byte_at cmd 1 ≡ b'I' → NumberFits cmd len)
      → Answers fl s.trace (dispatch fl cmd len s)
  unfolding dispatch
  dispatch-Answers cmd len s v nolen known =
      let c = byte_at cmd 1 in
      let P = Outcome s.trace in
      let measure = λ (group : ℕ) (crc : Bool) (type : MeasType) (ne : type ≢ continuous).
        wrap _ _ (handle_measurement-Answers fl group crc type s ne v nolen) in
      let refuse = λ (e : Err) (ne : e ≢ ok). wrap s.trace (some (e, s)) (v, silent refl ne) in
      result s.trace (dispatch fl cmd len s) (
        if_known P (c == b'I') _ _
          (λ e. if_both P (len == 2) _ _ (wrap _ _ (handle_identify-Answers fl s v nolen)) (
            wrap _ _
              (handle_identify_measurement-Answers fl cmd len s v nolen (known (ground arith)))))
          (if_both P (c == b'M') _ _ (measure _ _ standard (λ h. cc)) (
            if_both P (c == b'C') _ _ (measure _ _ concurrent (λ h. cc)) (
              if_both P (c == b'D') _ _ (wrap _ _ (dispatch_data-Answers cmd len s v nolen)) (
                if_both P (c == b'R') _ _ (wrap _ _ (handle_continuous-Answers fl _ _ s v nolen)) (
                  if_both P (c == b'V') _ _ (measure 0 false verification (λ h. cc)) (
                    if_both P (c == b'A') _ _
                      (if_both P (leb 3 len && is_print (byte_at cmd 2)) _ _
                        (wrap _ _ (handle_change_address-Answers fl (byte_at cmd 2) s v nolen))
                        (refuse err_invalid_address (λ h. cc)))
                      (if_both P (c == b'H') _ _
                        (wrap _ _ (dispatch_highvol-Answers cmd len s v nolen))
                        (if_both P (c == b'X') _ _
                          (wrap _ _ (handle_extended-Answers fl cmd len s v nolen))
                          (refuse err_invalid_command (λ h. cc)))))))))))

  -- The state in which a command is executed.
  aborted-IsValid :
      (addressed : Bool) (s : Sensor F W)
      → IsValid fl s
      → s.resp_len ≡ 0
      → let s' = if addressed then abort_concurrent s.state s else s in
        IsValid fl s' × (s'.resp_len ≡ 0) × (s'.trace ≡ s.trace)
  aborted-IsValid true s v nolen = abort_concurrent-IsValid s.state s v nolen
  aborted-IsValid false s v nolen = (v, nolen, refl)

  process_command-Answers :
      (cmd : List ℕ) (len : ℕ) (s : Sensor F W)
      → IsValid fl s
      → s.resp_len ≡ 0
      → (byte_at cmd 1 ≡ b'I' → NumberFits cmd len)
      → Answers fl s.trace (process_command fl cmd len s)
  unfolding process_command
  process_command-Answers cmd len s v nolen known =
      let c = byte_at cmd 0 in
      let s' = if c == s.address then abort_concurrent s.state s else s in
      let (v', nolen', same) = aborted-IsValid (c == s.address) s v nolen in
      elim (Bool-cases (not (c == s.address) && not (len == 1 && c == b'?'))) [
        | inl e ↦ rw e (v, silent refl (λ h. cc))
        | inr e ↦ elim (Bool-cases (len == 1)) [
          | inl f ↦
              rw (e, f)
                (subst (λ t. Answers fl t (handle_acknowledge s')) same
                  (handle_acknowledge-Answers fl s' v' nolen'))
          | inr f ↦
              rw (e, f)
                (subst (λ t. Answers fl t (dispatch fl cmd len s')) same
                  (dispatch-Answers cmd len s' v' nolen' known))
        ]
      ]

  -- From a well-formed sensor, every command that is not an identify command with the number of a
  -- parameter that overflows an `int` is processed without an access outside an array and leaves a
  -- well-formed sensor; it either fails and sends nothing, or succeeds and sends one response that
  -- starts with the sensor's address, after at most one save of a changed address.
  pub process-Answers :
      (cmd : List ℕ) (len : ℕ) (s : Sensor F W)
      → IsValid fl s
      → (byte_at cmd 1 ≡ b'I' → NumberFits cmd (strip_bang cmd len))
      → Answers fl s.trace (process fl cmd len s)
  unfolding process
  process-Answers cmd len s v known = elim (Bool-cases (len == 0)) [
    | inl e ↦ rw e (v, silent refl (λ h. cc))
    | inr e ↦ elim (Bool-cases (strip_bang cmd len == 0)) [
      | inl f ↦ rw (e, f) (v, silent refl (λ h. cc))
      | inr f ↦
          rw (e, f)
            (process_command-Answers cmd (strip_bang cmd len) (record s { resp_len = 0 }) v refl
              known)
    ]
  ]
