-- ===== src/Sensor/Data.antt =====
-- sdi12_sensor.c: handle_send_data, handle_continuous and handle_send_binary_data.
use libsdi.Base.{
  ℕ, ◌+◌, ◌-◌, ◌/◌, ◌%◌, ◌^◌, Bool, true, false, not, List, [], ◌∷◌, ◌++◌, Option, none, some, ltb,
  leb, ◌==◌, bit_and, length, take, drop, replicate, if◌then◌else◌, ◌>>=◌, ◌>>◌, check,
}
use libsdi.Base.Buffer.{byte_at, store}
use libsdi.Crc.{crlf, crc16, crc_append_n}
use libsdi.Protocol.{
  ok, MeasType, concurrent, highvol_ascii, highvol_binary, continuous, max_response_len,
  m_values_max_chars, c_values_max_chars,
}
use libsdi.Sensor.Types.{Floats, Value, Sensor, Run}
use libsdi.Sensor.Groups.{count_group, read_group_sync}
use libsdi.Sensor.Reply.{send_response}
use libsdi.Sensor.Pages.{format_data_page}
use libsdi.Sensor.Measure.{reply_address}

unfoldable pub max_chars : MeasType → ℕ
max_chars concurrent = c_values_max_chars
max_chars continuous = c_values_max_chars
max_chars highvol_ascii = c_values_max_chars
max_chars _ = m_values_max_chars

-- The end of a binary page of `pos` bytes in handle_send_data: the array and resp_len.
unfoldable pub close_binary : Bool → List ℕ → ℕ → Option (List ℕ × ℕ)
close_binary true buf pos = do
  (err, buf') ← crc_append_n buf pos max_response_len
  some (buf', pos + 3 + 2)
close_binary false buf pos = do
  buf' ← (if ltb (pos + 2) max_response_len then store buf pos (crlf ++ 0 ∷ []) else some buf)
  some (buf', pos + 2)

-- The array on the stack that the callback is given: only its first byte is set by the code, and
-- the others stand for what the callback leaves unwritten.
unfoldable pub tmpbuf_of : ℕ → List ℕ
tmpbuf_of address = address ∷ replicate (max_response_len - 1) 0

-- Two bytes, the lower one first.
unfoldable pub le16 : ℕ → List ℕ
le16 n = bit_and n 0xFF ∷ bit_and (n / 2 ^ 8) 0xFF ∷ []

module _ {F W : Type 0} where
  -- The high-volume binary branch of handle_send_data.
  unfoldable pub send_binary_page :
      (ℕ → List (Value F) → List ℕ → W → (ℕ × List ℕ) × W) → ℕ → Sensor F W → Run F W
  unfolding close_binary
  send_binary_page format page s = do
    buf₀ ← store s.resp_buf 0 (s.address ∷ [])
    let called = format page s.data_cache buf₀ s.world
    framed ← close_binary s.crc_requested called.0.1 (1 + called.0.0)
    s' ← send_response (record s { resp_buf = framed.0; resp_len = framed.1; world = called.1 })
    some (ok, s')

  -- The packet with no payload.
  unfoldable pub empty_packet : Sensor F W → Run F W
  empty_packet s = do
    pkt ← store s.resp_buf 0 (s.address ∷ 0 ∷ 0 ∷ 0 ∷ [])
    pkt' ← store pkt 4 (le16 (crc16 pkt 4))
    s' ← send_response (record s { resp_buf = pkt'; resp_len = 6 })
    some (ok, s')

  -- The packet of the `cb_bytes` bytes from `tmpbuf[1]` on: a type and a payload.
  unfoldable pub full_packet : ℕ → List ℕ → Sensor F W → Run F W
  full_packet cb_bytes tmpbuf s = do
    let data_type = byte_at tmpbuf 1
    let payload_size = (cb_bytes - 1) % 2 ^ 16
    pkt ← store s.resp_buf 0 (s.address ∷ (le16 payload_size ++ data_type ∷ []))
    check (leb (2 + payload_size) (length tmpbuf))
    pkt₁ ← store pkt 4 (take payload_size (drop 2 tmpbuf))
    let data_end = 4 + payload_size
    pkt₂ ← store pkt₁ data_end (le16 (crc16 pkt₁ data_end))
    s' ← send_response (record s { resp_buf = pkt₂; resp_len = data_end + 2 })
    some (ok, s')

  unfoldable pub packet_of :
      Option (ℕ → List (Value F) → List ℕ → W → (ℕ × List ℕ) × W) → ℕ → Sensor F W → Run F W
  packet_of none page s = empty_packet s
  packet_of (some format) page s =
      let called = format page s.data_cache (tmpbuf_of s.address) s.world in
      let s' = record s { world = called.1 } in
      if called.0.0 == 0 then empty_packet s' else full_packet called.0.0 called.0.1 s'

  unfoldable pub handle_send_binary_data : ℕ → Sensor F W → Run F W
  handle_send_binary_data page s =
      if not s.data_available then empty_packet s else packet_of s.cb.format_binary_page page s

module _ {F W : Type 0} (fl : Floats F) where
  unfoldable pub send_page : ℕ → ℕ → Sensor F W → Run F W
  send_page page limit s = do
    s₁ ← format_data_page fl page limit s
    s₂ ← send_response s₁
    some (ok, s₂)

  unfoldable pub send_available :
      MeasType
      → Option (ℕ → List (Value F) → List ℕ → W → (ℕ × List ℕ) × W)
      → ℕ
      → Sensor F W
      → Run F W
  send_available highvol_binary (some format) page s = send_binary_page format page s
  send_available type _ page s = send_page page (max_chars type) s

  unfoldable pub handle_send_data : ℕ → Sensor F W → Run F W
  handle_send_data page s =
      if not s.data_available
      then reply_address s.crc_requested s
      else send_available s.pending_meas_type s.cb.format_binary_page page s

  unfoldable pub handle_continuous : ℕ → Bool → Sensor F W → Run F W
  handle_continuous index with_crc s₀ =
      let s = record s₀ { crc_requested = with_crc; pending_meas_type = continuous } in
      if count_group s.params index == 0
      then reply_address with_crc s
      else send_page 0 c_values_max_chars (read_group_sync index s)
