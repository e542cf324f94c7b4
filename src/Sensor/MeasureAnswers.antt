-- ===== src/Sensor/MeasureAnswers.antt =====
-- sdi12_sensor.c: handle_measurement answers with the address and the time and count of values.
use libsdi.Base.{
  ℕ, suc, ◌+◌, ◌≤◌, ◌<◌, ◌≡◌, ◌≢◌, refl, ◌∙◌, Bool, List, ◌∷◌, ◌++◌, Option, none, some, arith,
  length, drop, codes, ltb, ◌==◌, if◌then◌else◌, Bool-cases, inl, inr,
}
use libsdi.Base.Buffer.{snprintf, snprintf_fits}
use libsdi.Base.Text.{decimal, zero_pad, decimal_one, zero_pad_two, zero_pad_three}
use libsdi.Crc.{crlf}
use libsdi.Protocol.{
  MeasType, standard, concurrent, highvol_ascii, highvol_binary, verification, continuous,
  max_params,
}
use libsdi.Sensor.Types.{Floats, Sensor}
use libsdi.Sensor.Groups.{count_group, read_group_sync}
use libsdi.Sensor.Measure.{
  count_text, no_values, printed, measure_async, measure_sync, start, handle_measurement,
}
use libsdi.Sensor.Valid.{IsText, IsValid, Answers}
use libsdi.Sensor.Answer.{
  send_line-Answers, append-IsText, cons-IsText, IsText-mono, line-IsBuffer, reply-Answers,
}
use libsdi.Sensor.Counting.{count_group-le}
use libsdi.Sensor.GroupValues.{read_group_sync-IsCache}

pub zero_pad_three-IsText : (n : ℕ) → n < 1000 → IsText 3 (zero_pad 3 n)
zero_pad_three-IsText n h = rw (zero_pad_three n h) (omega arith)

zero_pad_two-IsText : (n : ℕ) → n < 100 → IsText 3 (zero_pad 2 n)
zero_pad_two-IsText n h = rw (zero_pad_two n h) (omega arith)

decimal-IsText : (n : ℕ) → n < 10 → IsText 3 (decimal n)
decimal-IsText n h = rw (decimal_one n h) (omega arith)

cut-lt : (n m : ℕ) → (if ltb m n then m else n) < m + 1
cut-lt n m = ground arith

pub count_text-IsText : (type : MeasType) (n : ℕ) → n ≤ max_params → IsText 3 (count_text type n)
unfolding count_text
count_text-IsText standard n h = decimal-IsText _ (cut-lt n 9)
count_text-IsText verification n h = decimal-IsText _ (cut-lt n 9)
count_text-IsText concurrent n h = zero_pad_two-IsText _ (cut-lt n 99)
count_text-IsText highvol_ascii n h = zero_pad_three-IsText n (omega arith)
count_text-IsText highvol_binary n h = zero_pad_three-IsText n (omega arith)
count_text-IsText continuous n h = zero_pad_three-IsText n (omega arith)

no_values-IsText : (type : MeasType) → IsText 5 (no_values type)
unfolding no_values
no_values-IsText standard = omega arith
no_values-IsText _ = omega arith

pub printed_lem :
    (type : MeasType) (buf text : List ℕ)
    → type ≢ continuous
    → printed type buf text ≡ snprintf buf text
unfolding printed
printed_lem continuous buf text h = absurd (h refl)
printed_lem _ buf text h = refl

-- The time and the count behind the address.
pub timing-IsText :
    (front : List ℕ) (type : MeasType) (n : ℕ)
    → IsText 3 front
    → n ≤ max_params
    → IsText 8 (front ++ (count_text type n ++ crlf))
timing-IsText front type n hf h =
    append-IsText 3 5 front _ hf
      (append-IsText 3 2 (count_text type n) crlf (count_text-IsText type n h) (omega arith))

module _ {F W : Type 0} (fl : Floats F) where
  measure_sync-Answers :
      (group : ℕ) (type : MeasType) (n : ℕ) (s : Sensor F W)
      → IsValid fl s
      → s.resp_len ≡ 0
      → n ≤ max_params
      → Answers fl s.trace (measure_sync group type n s)
  unfolding measure_sync read_group_sync
  measure_sync-Answers group type n s (config, buffer, cache) nolen h =
      reply-Answers fl _ (codes "000" ++ (count_text type n ++ crlf))
        (config, buffer, read_group_sync-IsCache fl group s config.read_ok) nolen
        (IsText-mono 8 80 (codes "000" ++ (count_text type n ++ crlf)) (omega arith)
          (timing-IsText (codes "000") type n (omega arith) h))

  measure_async-Answers :
      (group : ℕ) (type : MeasType) (n t : ℕ) (s : Sensor F W)
      → type ≢ continuous
      → IsValid fl s
      → s.resp_len ≡ 0
      → n ≤ max_params
      → Answers fl s.trace (measure_async group type n t s)
  unfolding measure_async read_group_sync
  measure_async-Answers group type n t s ne (config, buffer, cache) nolen h =
      let ttt = if ltb 999 t then 999 else t in
      let body = zero_pad 3 ttt ++ (count_text type n ++ crlf) in
      let small =
        timing-IsText (zero_pad 3 ttt) type n (zero_pad_three-IsText ttt (cut-lt t 999)) h in
      let text =
        cons-IsText s.address 80 body config.address_valid
          (IsText-mono 8 80 body (omega arith) small) in
      let rest = drop (length body + 2) s.resp_buf in
      let written : printed type s.resp_buf (s.address ∷ body)
          ≡ s.address ∷ (body ++ 0 ∷ drop (suc (length body) + 1) s.resp_buf) =
        printed_lem type s.resp_buf (s.address ∷ body) ne
        ∙ snprintf_fits s.resp_buf (s.address ∷ body) (omega arith) in
      let array = line-IsBuffer (s.address ∷ body) s.resp_buf text buffer in
      rw written (elim (Bool-cases (ttt == 0)) [
        | inl e ↦ rw e (
            send_line-Answers fl _ body _
              (config, array, read_group_sync-IsCache fl group s config.read_ok) nolen refl small.1)
        | inr e ↦ rw e (send_line-Answers fl _ body _ (config, array, cache) nolen refl small.1)
      ])

  start-Answers :
      (f : Option (ℕ → MeasType → W → ℕ × W)) (group : ℕ) (type : MeasType) (n : ℕ) (s : Sensor F W)
      → type ≢ continuous
      → IsValid fl s
      → s.resp_len ≡ 0
      → n ≤ max_params
      → Answers fl s.trace (start f group type n s)
  unfolding start
  start-Answers none group type n s ne v nolen h = measure_sync-Answers group type n s v nolen h
  start-Answers (some f) group type n s ne v nolen h =
      measure_async-Answers group type n _ (record s { world = (f group type s.world).1 }) ne v
        nolen h

  pub handle_measurement-Answers :
      (group : ℕ) (crc : Bool) (type : MeasType) (s : Sensor F W)
      → type ≢ continuous
      → IsValid fl s
      → s.resp_len ≡ 0
      → Answers fl s.trace (handle_measurement group crc type s)
  unfolding handle_measurement
  handle_measurement-Answers group crc type s ne v nolen =
      let set : Sensor F W = record s {
        crc_requested = crc;
        pending_meas_type = type;
        pending_meas_group = group;
      } in
      elim (Bool-cases (count_group s.params group == 0)) [
        | inl e ↦ rw e (
            reply-Answers fl set (no_values type ++ crlf) v nolen (
              IsText-mono 7 80 (no_values type ++ crlf) (omega arith)
                (append-IsText 5 2 (no_values type) crlf (no_values-IsText type) (omega arith))))
        | inr e ↦ rw e (
            start-Answers s.cb.start_measurement group type _ set ne v nolen
              (count_group-le s.params group v.0.params_fit))
      ]
