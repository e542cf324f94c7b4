-- ===== src/Sensor/Packets.antt =====
-- sdi12_sensor.c: the binary packets that handle_send_binary_data sends.
use libsdi.Base.{
  ℕ, zero, suc, ◌+◌, ◌-◌, ◌%◌, ◌^◌, ◌≤◌, ◌<◌, replicate, ◌≡◌, refl, sym, ap, ◌∙◌, Bool, true, false,
  not, List, [], ◌∷◌, ◌++◌, append_assoc, Option, none, some, arith, length, length-append,
  length-take, length-drop, take, drop, take-append, take_all, leb, ◌==◌, if◌then◌else◌,
}
use libsdi.Base.Buffer.{splice, byte_at, overwrite, store_fits, length-overwrite}
use libsdi.Crc.{crc_loop, crc16}
use libsdi.Protocol.{ok, max_response_len}
use libsdi.Sensor.Types.{Floats, Value, Sensor, Run, sent}
use libsdi.Sensor.Reply.{send_response}
use libsdi.Sensor.Data.{
  le16, tmpbuf_of, empty_packet, full_packet, packet_of, handle_send_binary_data,
}
use libsdi.Sensor.Valid.{IsBuffer, BinaryOk, IsValid}
use libsdi.Sensor.Answer.{address_byte, send_bytes}

-- The packet of a type and a payload: address, size, type, payload, CRC.
abbrev pub frame : ℕ → ℕ → List ℕ → List ℕ
frame a type payload = a ∷ (le16 (length payload) ++ type ∷ payload)

abbrev pub packet : ℕ → ℕ → List ℕ → List ℕ
packet a type payload =
    frame a type payload ++ le16 (crc16 (frame a type payload) (4 + length payload))

length-frame : (a type : ℕ) (payload : List ℕ) → length (frame a type payload) ≡ 4 + length payload
unfolding le16
length-frame a type payload = omega arith

crc16_front : (xs ys : List ℕ) (n : ℕ) → n ≡ length xs → crc16 (xs ++ ys) n ≡ crc16 xs n
unfolding crc16
crc16_front xs ys n e = ap (crc_loop 0) (take-append n xs ys e ∙ sym (take_all n xs (omega arith)))

le16_two : (n : ℕ) → length (le16 n) ≡ 2
unfolding le16
le16_two n = refl

le16_framed : (a n type : ℕ) → length (a ∷ (le16 n ++ type ∷ [])) ≡ 4
unfolding le16
le16_framed a n type = refl

-- The array with a whole packet in front.
packet_written :
    (buf payload : List ℕ) (a type : ℕ)
    → let pkt = overwrite buf 0 (a ∷ (le16 (length payload) ++ type ∷ [])) in
      let pkt₁ = overwrite pkt 4 payload in
      let n = 4 + length payload in
      (rest : List ℕ) × (overwrite pkt₁ n (le16 (crc16 pkt₁ n)) ≡ packet a type payload ++ rest)
unfolding le16
packet_written buf payload a type =
    let front = a ∷ (le16 (length payload) ++ type ∷ []) in
    let pkt = overwrite buf 0 front in
    let behind = drop (4 + length payload) pkt in
    let pkt₁ = overwrite pkt 4 payload in
    let n = 4 + length payload in
    let whole = frame a type payload in
    let shape : pkt₁ ≡ whole ++ behind = splice front (drop 4 buf) payload pkt 4 refl refl in
    let crc : crc16 pkt₁ n ≡ crc16 whole n =
      ap (λ (t : List ℕ). crc16 t n) shape
      ∙ crc16_front whole behind n (omega (arith, length-frame a type payload)) in
    let last = drop (n + 2) pkt₁ in
    (
      last,
      splice whole behind (le16 (crc16 pkt₁ n)) pkt₁ n shape
            (omega (arith, length-frame a type payload))
          ∙ ap (λ (c : ℕ). whole ++ (le16 c ++ last)) crc
          ∙ sym (append_assoc whole (le16 (crc16 whole n)) last),
    )

length-packet :
    (a type : ℕ) (payload : List ℕ) → length (packet a type payload) ≡ 6 + length payload
unfolding le16
length-packet a type payload =
    let whole = frame a type payload in
    let crc = le16 (crc16 whole (4 + length payload)) in
    omega (arith, length-append whole crc, length-frame a type payload)

-- The type and the payload in the array that the callback has filled with `count` bytes.
abbrev pub written_packet : ℕ → ℕ → List ℕ → List ℕ
written_packet a zero tmp = packet a 0 []
written_packet a (suc n) tmp = packet a (byte_at tmp 1) (take n (drop 2 tmp))

module _ {F W : Type 0} where
  -- The array is sent up to the end of the packet.
  packet_sent :
      (s : Sensor F W) (a type : ℕ) (payload rest : List ℕ)
      → s.cb.send_response ≡ true
      → s.resp_buf ≡ packet a type payload ++ rest
      → s.resp_len ≡ 6 + length payload
      → send_response s ≡ some (record s { trace = s.trace ++ sent (packet a type payload) ∷ [] })
  packet_sent s a type payload rest on e n =
      let whole = packet a type payload in
      let size = length-packet a type payload in
      let long : suc (5 + length payload) ≤ length s.resp_buf =
        omega (arith, ap length e, length-append whole rest, size) in
      let cut : take (suc (5 + length payload)) s.resp_buf ≡ whole =
        ap (take (suc (5 + length payload))) e
        ∙ take-append (suc (5 + length payload)) whole rest (omega (arith, size)) in
      send_bytes s (5 + length payload) on (omega (arith, n)) long
      ∙ ap (λ (t : List ℕ). some (record s { trace = s.trace ++ sent t ∷ [] })) cut

  full_packet-sends :
      (n : ℕ) (tmp : List ℕ) (s : Sensor F W)
      → s.cb.send_response ≡ true
      → length s.resp_buf ≡ max_response_len
      → length tmp ≡ max_response_len
      → n ≤ 75
      → (s' : Sensor F W) × (full_packet (suc n) tmp s ≡ some (ok, s'))
        × (s'.trace ≡ s.trace ++ sent (written_packet s.address (suc n) tmp) ∷ [])
  unfolding full_packet
  full_packet-sends n tmp s on buffer array h =
      let a = s.address in
      let type = byte_at tmp 1 in
      let payload = take n (drop 2 tmp) in
      let size : (suc n - 1) % 2 ^ 16 ≡ length payload =
        omega (arith, length-take n (drop 2 tmp), length-drop 2 tmp) in
      let same : length payload ≡ n =
        omega (arith, length-take n (drop 2 tmp), length-drop 2 tmp) in
      let again : take (length payload) (drop 2 tmp) ≡ payload =
        ap (λ (k : ℕ). take k (drop 2 tmp)) same in
      let front = a ∷ (le16 (length payload) ++ type ∷ []) in
      let pkt = overwrite s.resp_buf 0 front in
      let pkt₁ = overwrite pkt 4 payload in
      let crc = le16 (crc16 pkt₁ (4 + length payload)) in
      let four : length front ≡ 4 = le16_framed a (length payload) type in
      let long = length-overwrite s.resp_buf 0 front (omega (arith, buffer, four)) in
      let long₁ = length-overwrite pkt 4 payload (omega (arith, long, buffer, same)) in
      let inside : leb (2 + length payload) (length tmp) ≡ true = ground (arith, array, same) in
      let put = store_fits s.resp_buf 0 front (omega (arith, buffer, four)) in
      let put₁ = store_fits pkt 4 payload (omega (arith, long, buffer, same)) in
      let put₂ =
        store_fits pkt₁ (4 + length payload) crc
          (omega (arith, long₁, long, buffer, same, le16_two (crc16 pkt₁ (4 + length payload)))) in
      let (rest, shape) = packet_written s.resp_buf payload a type in
      let s₁ = record s {
        resp_buf = overwrite pkt₁ (4 + length payload) crc;
        resp_len = 4 + length payload + 2;
      } in
      let sends = packet_sent s₁ a type payload rest on shape (omega arith) in
      (
        record s₁ { trace = s.trace ++ sent (packet a type payload) ∷ [] },
        rw (size, put, inside, again, put₁, put₂, sends) refl,
        refl,
      )

  empty_packet-sends :
      (s : Sensor F W)
      → s.cb.send_response ≡ true
      → length s.resp_buf ≡ max_response_len
      → (s' : Sensor F W) × (empty_packet s ≡ some (ok, s'))
        × (s'.trace ≡ s.trace ++ sent (packet s.address 0 []) ∷ [])
  unfolding empty_packet le16
  empty_packet-sends s on buffer =
      let a = s.address in
      let front = a ∷ 0 ∷ 0 ∷ 0 ∷ [] in
      let pkt = overwrite s.resp_buf 0 front in
      let crc = le16 (crc16 pkt 4) in
      let long = length-overwrite s.resp_buf 0 front (omega (arith, buffer)) in
      let put = store_fits s.resp_buf 0 front (omega (arith, buffer)) in
      let put₁ = store_fits pkt 4 crc (omega (arith, long, buffer)) in
      let (rest, shape) = packet_written s.resp_buf [] a 0 in
      let s₁ = record s { resp_buf = overwrite pkt 4 crc; resp_len = 6 } in
      let sends = packet_sent s₁ a 0 [] rest on shape (omega arith) in
      (record s₁ { trace = s.trace ++ sent (packet a 0 []) ∷ [] }, rw (put, put₁, sends) refl, refl)

  counted_packet-sends :
      (count : ℕ) (tmp : List ℕ) (s : Sensor F W)
      → s.cb.send_response ≡ true
      → length s.resp_buf ≡ max_response_len
      → length tmp ≡ max_response_len
      → count ≤ 76
      → (s' : Sensor F W) × ((if count == 0 then empty_packet s else full_packet count tmp s)
          ≡ some (ok, s'))
        × (s'.trace ≡ s.trace ++ sent (written_packet s.address count tmp) ∷ [])
  counted_packet-sends zero tmp s on buffer array h = empty_packet-sends s on buffer
  counted_packet-sends (suc n) tmp s on buffer array h =
      let (s', done, sends) = full_packet-sends n tmp s on buffer array (omega arith) in
      let more : (suc n == 0) ≡ false = ground arith in (s', rw more done, sends)

  -- The packet of a page: the empty one without data or without a callback.
  abbrev pub page_packet :
      Option (ℕ → List (Value F) → List ℕ → W → (ℕ × List ℕ) × W) → ℕ → Sensor F W → List ℕ
  page_packet none page s = packet s.address 0 []
  page_packet (some format) page s =
      let called = (format page s.data_cache (tmpbuf_of s.address) s.world).0 in
      written_packet s.address called.0 called.1

  packet_of-sends :
      (format : Option (ℕ → List (Value F) → List ℕ → W → (ℕ × List ℕ) × W)) (page : ℕ)
      (s : Sensor F W)
      → s.cb.send_response ≡ true
      → IsBuffer s.resp_buf
      → s.address < 2 ^ 8
      → BinaryOk format
      → (s' : Sensor F W) × (packet_of format page s ≡ some (ok, s'))
        × (s'.trace ≡ s.trace ++ sent (page_packet format page s) ∷ [])
  unfolding packet_of tmpbuf_of
  packet_of-sends none page s on buffer small good = empty_packet-sends s on buffer.0
  packet_of-sends (some format) page s on buffer small good =
      let tmp = s.address ∷ replicate 81 0 in
      let called = format page s.data_cache tmp s.world in
      let (count, array, same) =
        good page s.data_cache tmp s.world (omega arith, (small, omega arith)) in
      counted_packet-sends called.0.0 called.0.1 (record s { world = called.1 }) on buffer.0 array.0
        count

  -- A run that sends one text, on either side of a test.
  abbrev Sends : Sensor F W → Run F W → List ℕ → Type 0
  Sends s run text =
      (s' : Sensor F W) × (run ≡ some (ok, s')) × (s'.trace ≡ s.trace ++ sent text ∷ [])

  either-Sends :
      (s : Sensor F W) (b : Bool) (x y : Run F W) (p q : List ℕ)
      → Sends s x p
      → Sends s y q
      → Sends s (if not b then y else x) (if b then p else q)
  either-Sends s true x y p q h k = h
  either-Sends s false x y p q h k = k

  -- A well-formed sensor answers a request of binary data with SDI12_OK and one packet: its
  -- address, the size of the payload and the type, the payload, and the CRC of all of that. The
  -- type and the payload are those that the callback wrote, and 0 and nothing without data,
  -- without a callback, or when the callback wrote nothing.
  pub handle_send_binary_data-sends :
      (fl : Floats F) (page : ℕ) (s : Sensor F W)
      → IsValid fl s
      → (s' : Sensor F W) × (handle_send_binary_data page s ≡ some (ok, s'))
        × (s'.trace
            ≡ s.trace
              ++ sent (
                  if s.data_available
                  then page_packet s.cb.format_binary_page page s
                  else packet s.address 0 [])
                ∷ [])
  unfolding handle_send_binary_data
  handle_send_binary_data-sends fl page s (config, buffer, cache) =
      let (nz, small, ncr) = address_byte s.address config.address_valid in
      either-Sends s s.data_available (packet_of s.cb.format_binary_page page s) (empty_packet s)
        (page_packet s.cb.format_binary_page page s) (packet s.address 0 [])
        (packet_of-sends s.cb.format_binary_page page s config.sends buffer small config.binary_ok)
        (empty_packet-sends s config.sends buffer.0)
