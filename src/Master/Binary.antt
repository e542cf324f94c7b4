-- ===== src/Master/Binary.antt =====
-- sdi12_master.c: recv_exact, sdi12_master_get_hv_binary_data and sdi12_bintype_size. The local
-- arrays are not initialised by the code; their bytes are written before they are read.
use libsdi.Base.{
  ℕ, zero, suc, ◌+◌, ◌-◌, ◌*◌, ◌^◌, not, ◌||◌, List, [], ◌∷◌, ◌++◌, Option, none, some, ltb, ◌==◌,
  bit_or, min, take, replicate, length, if◌then◌else◌, ◌>>=◌,
}
use libsdi.Base.Buffer.{byte_at, store}
use libsdi.Base.Text.{decimal}
use libsdi.Crc.{crc16}
use libsdi.Protocol.{
  Err, ok, err_invalid_address, err_timeout, err_buffer_overflow, err_crc_mismatch, valid_address,
}
use libsdi.Master.Bus.{Master, response_timeout_ms, send_command}
use libsdi.Master.Commands.{cut_to}

-- SDI12_BIN_MAX_PAYLOAD
abbrev pub bin_max_payload : ℕ
bin_max_payload = 1000

-- sdi12_bintype_size. A type is its number in sdi12_bintype_t, which a received byte may leave.
unfoldable pub bintype_size : ℕ → ℕ
bintype_size type =
    if type == 1 || type == 2
    then 1
    else if type == 3 || type == 4
    then 2
    else if type == 5 || (type == 6 || type == 9)
    then 4
    else if type == 7 || (type == 8 || type == 10)
    then 8
    else 0

-- Two bytes as a `uint16_t`, the lower one first.
unfoldable pub word_of : ℕ → ℕ → ℕ
word_of low high = bit_or low (high * 2 ^ 8)

-- What the caller's pointers point to: the type, the payload array, and its room or its length.
pub record BinaryOut : Type 0 where
  pub out_type : ℕ
  pub out_payload : List ℕ
  pub out_len : ℕ

module _ {W : Type 0} where
  -- recv_exact on an array, with `got` of `count` bytes there; `none` is out of fuel, or a write
  -- outside the array.
  unfoldable pub recv_exact : ℕ → List ℕ → ℕ → ℕ → Master W → Option (Err × (List ℕ × Master W))
  recv_exact zero buf count got m = if ltb got count then none else some (ok, (buf, m))
  recv_exact (suc fuel) buf count got m =
      let called = m.recv (count - got) response_timeout_ms m.world in
      let n = length called.0 in
      let m' = record m { world = called.1 } in
      let rest = store buf got called.0 >>= λ buf'. recv_exact fuel buf' count (got + n) m' in
      if not (ltb got count)
      then some (ok, (buf, m))
      else if n == 0
      then some (err_timeout, (buf, m'))
      else rest

  -- The packet as it has been received, and the caller's memory after it.
  unfoldable pub check_packet :
      List ℕ → ℕ → ℕ → List ℕ → BinaryOut → Master W → Option ((Err × BinaryOut) × Master W)
  check_packet hdr type_byte pkt_size tail out m = do
    let crc_buf = take 3 hdr ++ type_byte ∷ take pkt_size tail
    let crc = crc16 crc_buf (4 + pkt_size)
    let received_crc = word_of (byte_at tail pkt_size) (byte_at tail (pkt_size + 1))
    let copy = store out.out_payload 0 (take (min pkt_size out.out_len) tail) >>= λ payload. some (
      (ok, record out { out_payload = payload; out_len = pkt_size }),
      record m { resp_len = 3 + 1 + (pkt_size + 2) },
    )
    if not (crc == received_crc) then some ((err_crc_mismatch, out), m) else copy

  unfoldable pub tail_received :
      List ℕ → ℕ → ℕ → BinaryOut → Err × (List ℕ × Master W) → Option ((Err × BinaryOut) × Master W)
  unfolding check_packet
  tail_received hdr type_byte pkt_size out (ok, (tail, m)) =
      check_packet hdr type_byte pkt_size tail out m
  tail_received hdr type_byte pkt_size out (err, (tail, m)) = some ((err, out), m)

  unfoldable pub type_received :
      List ℕ → BinaryOut → Err × (List ℕ × Master W) → Option ((Err × BinaryOut) × Master W)
  type_received hdr out (ok, (type_buf, m)) =
      let type_byte = byte_at type_buf 0 in
      let pkt_size = word_of (byte_at hdr 1) (byte_at hdr 2) in
      let typed = record out { out_type = type_byte } in
      let tail = replicate (bin_max_payload + 2) 0 in
      let tail_len = pkt_size + 2 in
      if ltb bin_max_payload pkt_size
      then some ((err_buffer_overflow, typed), m)
      else recv_exact tail_len tail tail_len 0 m >>= tail_received hdr type_byte pkt_size typed
  type_received hdr out (err, (type_buf, m)) = some ((err, out), m)

  unfoldable pub header_received :
      BinaryOut → Err × (List ℕ × Master W) → Option ((Err × BinaryOut) × Master W)
  header_received out (ok, (hdr, m)) = recv_exact 1 (0 ∷ []) 1 0 m >>= type_received hdr out
  header_received out (err, (hdr, m)) = some ((err, out), m)

  unfoldable pub packet_requested :
      BinaryOut → Err × Master W → Option ((Err × BinaryOut) × Master W)
  packet_requested out (ok, m) = recv_exact 3 (replicate 4 0) 3 0 m >>= header_received out
  packet_requested out (err, m) = some ((err, out), m)

  -- sdi12_master_get_hv_binary_data: the code, and the caller's memory.
  unfoldable pub get_hv_binary_data :
      ℕ → ℕ → BinaryOut → Master W → Option ((Err × BinaryOut) × Master W)
  unfolding packet_requested
  get_hv_binary_data addr page out m =
      let cmd = cut_to 16 (addr ∷ b'D' ∷ b'B' ∷ (decimal page ++ b'!' ∷ [])) in
      if not (valid_address addr)
      then some ((err_invalid_address, out), m)
      else send_command cmd m >>= packet_requested out
