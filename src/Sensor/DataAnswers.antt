-- ===== src/Sensor/DataAnswers.antt =====
-- sdi12_sensor.c: the text data commands answer inside the response array, behind the address.
use libsdi.Base.{ℕ, ◌≡◌, Bool, not, List, Option, some, ◌==◌, Bool-cases, inl, inr}
use libsdi.Protocol.{MeasType, highvol_binary, continuous, c_values_max_chars}
use libsdi.Sensor.Types.{Floats, Value, Sensor}
use libsdi.Sensor.Groups.{count_group, read_group_sync}
use libsdi.Sensor.Pages.{format_data_page}
use libsdi.Sensor.Data.{max_chars, send_page, send_available, handle_send_data, handle_continuous}
use libsdi.Sensor.Valid.{IsValid, BinaryOk, Answers}
use libsdi.Sensor.CrcLine.{send_Line-Answers, reply_address-Answers}
use libsdi.Sensor.PageAnswers.{render_page-Rendered}
use libsdi.Sensor.GroupValues.{read_group_sync-IsCache}
use libsdi.Sensor.BinaryAnswers.{send_binary_page-Answers}

module _ {F W : Type 0} (fl : Floats F) where
  send_page-Answers :
      (page limit : ℕ) (s : Sensor F W)
      → IsValid fl s
      → s.resp_len ≡ 0
      → Answers fl s.trace (send_page fl page limit s)
  unfolding send_page format_data_page
  send_page-Answers page limit s (config, buffer, cache) nolen =
      let (out, e, b, (line, ended)) =
        render_page-Rendered fl page limit s.crc_requested s.address s.data_cache s.resp_buf
          config.address_valid cache.1 buffer in
      rw e (send_Line-Answers fl (record s { resp_buf = out }) (config, b, cache) nolen line)

  send_available-Answers :
      (type : MeasType) (format : Option (ℕ → List (Value F) → List ℕ → W → (ℕ × List ℕ) × W))
      (page : ℕ) (s : Sensor F W)
      → BinaryOk format
      → IsValid fl s
      → s.resp_len ≡ 0
      → Answers fl s.trace (send_available fl type format page s)
  unfolding send_available
  send_available-Answers highvol_binary (some format) page s good v nolen =
      send_binary_page-Answers fl format page s good v
  send_available-Answers type _ page s good v nolen =
      send_page-Answers page (max_chars type) s v nolen

  pub handle_send_data-Answers :
      (page : ℕ) (s : Sensor F W)
      → IsValid fl s
      → s.resp_len ≡ 0
      → Answers fl s.trace (handle_send_data fl page s)
  unfolding handle_send_data
  handle_send_data-Answers page s v nolen = elim (Bool-cases (not s.data_available)) [
    | inl e ↦ rw e (reply_address-Answers fl s.crc_requested s v nolen)
    | inr e ↦ rw e (
        send_available-Answers s.pending_meas_type s.cb.format_binary_page page s v.0.binary_ok v
          nolen)
  ]

  pub handle_continuous-Answers :
      (index : ℕ) (crc : Bool) (s : Sensor F W)
      → IsValid fl s
      → s.resp_len ≡ 0
      → Answers fl s.trace (handle_continuous fl index crc s)
  unfolding handle_continuous read_group_sync
  handle_continuous-Answers index crc s (config, buffer, cache) nolen =
      let set : Sensor F W = record s { crc_requested = crc; pending_meas_type = continuous } in
      elim (Bool-cases (count_group s.params index == 0)) [
        | inl e ↦ rw e (reply_address-Answers fl crc set (config, buffer, cache) nolen)
        | inr e ↦ rw e (
            send_page-Answers 0 c_values_max_chars (read_group_sync index set)
              (config, buffer, read_group_sync-IsCache fl index set config.read_ok) nolen)
      ]
