-- ===== src/Sensor/BinaryAnswers.antt =====
-- sdi12_sensor.c: the binary data commands answer inside the response array, behind the address.
use libsdi.Base.{
  ℕ, zero, suc, ◌+◌, ◌-◌, ◌%◌, ◌/◌, ◌^◌, ◌≤◌, ◌≡◌, ◌≢◌, refl, ap, Bool, true, false, not, List, [],
  ◌∷◌, ◌++◌, Option, none, some, All, All-take, All-drop, All-append, arith, length, length-append,
  length-take, take, drop, ltb, leb, ◌==◌, Bool-cases, inl, inr, replicate, ◌>>=◌,
}
use libsdi.Base.Bits.{and-lt}
use libsdi.Base.Buffer.{byte_at, overwrite, store_fits}
use libsdi.Crc.{crlf, crc16, strip_crlf, crc_append_n}
use libsdi.Crc.Step.{IsByte}
use libsdi.Crc.RoundTrip.{trailer, length-trailer, insert_crc_lem, strip_crlf-le}
use libsdi.Protocol.{ok, max_response_len}
use libsdi.Sensor.Types.{Floats, Value, Sensor, sent}
use libsdi.Sensor.Reply.{send_response}
use libsdi.Sensor.Data.{
  close_binary, le16, tmpbuf_of, send_binary_page, empty_packet, full_packet, packet_of,
  handle_send_binary_data,
}
use libsdi.Sensor.Valid.{IsBuffer, IsValid, BinaryOk, answered, Answers}
use libsdi.Sensor.Answer.{address_byte, send_bytes}
use libsdi.Sensor.CrcLine.{strip_pos, trailer-bytes, overwrite-IsBuffer}

-- The array begins with the address.
abbrev Headed : ℕ → List ℕ → Type 0
Headed a buf = (tl : List ℕ) × (buf ≡ a ∷ tl)

byte_at-Headed : (a : ℕ) (buf : List ℕ) → IsBuffer buf → byte_at buf 0 ≡ a → Headed a buf
byte_at-Headed a [] b h = absurd (omega (arith, b.0))
byte_at-Headed a (x ∷ tl) b h = (tl, ap (λ (t : ℕ). t ∷ tl) h)

overwrite-Headed :
    (a pos : ℕ) (buf bytes : List ℕ) → Headed a buf → 1 ≤ pos → Headed a (overwrite buf pos bytes)
overwrite-Headed a zero buf bytes (tl, e) h = absurd (omega arith)
overwrite-Headed a (suc k) buf bytes (tl, e) h =
    (_, ap (λ t. take (suc k) t ++ (bytes ++ drop (suc k + length bytes) buf)) e)

pub byte_at-IsByte : (i : ℕ) (buf : List ℕ) → All IsByte buf → IsByte (byte_at buf i)
byte_at-IsByte i [] h = omega arith
byte_at-IsByte zero (x ∷ buf) h = h.0
byte_at-IsByte (suc i) (x ∷ buf) h = byte_at-IsByte i buf h.1

le16-bytes : (n : ℕ) → All IsByte (le16 n) × (length (le16 n) ≡ 2)
unfolding le16
le16-bytes n =
    ((and-lt 8 n 0xFF (omega arith), (and-lt 8 (n / 2 ^ 8) 0xFF (omega arith), tt)), refl)

-- The array after a binary page, and the length that is sent.
abbrev Closed : ℕ → ℕ → Option (List ℕ × ℕ) → Type 0
Closed a limit none = ⊥
Closed a limit (some (buf, len)) =
    IsBuffer buf × Headed a buf × ((n : ℕ) × (len ≡ suc n) × (suc n ≤ limit))

close_binary-Closed :
    (crc : Bool) (buf : List ℕ) (a count : ℕ)
    → a ≢ 0x0D
    → IsBuffer buf
    → Headed a buf
    → count ≤ 76
    → Closed a max_response_len (close_binary crc buf (1 + count))
unfolding close_binary crc_append_n
close_binary-Closed true buf a count ncr b (tl, e) h =
    let pos = 1 + count in
    let d = strip_crlf buf pos in
    let one : pos ≡ suc count = omega arith in
    let low : 1 ≤ d = rw (one, e) (strip_pos a count tl ncr) in
    let high : d ≤ pos = strip_crlf-le buf pos in
    let inside : leb pos (length buf) ≡ true = ground (arith, b.0) in
    let whole = insert_crc_lem buf d max_response_len b.1 (omega (arith, b.0)) in
    rw (inside, whole)
      (elim (Bool-cases (ltb max_response_len (d + 6))) [
        | inl f ↦ rw f (b, (tl, e), (count + 5, omega arith, omega arith))
        | inr f ↦
            let fits : d + 6 ≤ max_response_len = ground arith in
            let size = length-trailer buf d b.1 in
            rw f (
              overwrite-IsBuffer buf (trailer buf d) d b (trailer-bytes buf d b.1).0 (omega arith),
              overwrite-Headed a d buf (trailer buf d) (tl, e) low,
              (count + 5, omega arith, omega arith),
            )
      ])
close_binary-Closed false buf a count ncr b (tl, e) h =
    let pos = 1 + count in
    elim (Bool-cases (ltb (pos + 2) max_response_len)) [
      | inl f ↦
          let fits : pos + 3 ≤ max_response_len = ground arith in
          rw (f, store_fits buf pos (crlf ++ 0 ∷ []) (omega (arith, b.0)))
            (
              overwrite-IsBuffer buf (crlf ++ 0 ∷ []) pos b (omega arith) (omega arith),
              overwrite-Headed a pos buf (crlf ++ 0 ∷ []) (tl, e) (omega arith),
              (count + 2, omega arith, omega arith),
            )
      | inr f ↦ rw f (b, (tl, e), (count + 2, omega arith, omega arith))
    ]

module _ {F W : Type 0} (fl : Floats F) where
  -- A counted array is sent.
  send_Headed-Answers :
      (s : Sensor F W) (n : ℕ)
      → IsValid fl s
      → s.resp_len ≡ suc n
      → suc n ≤ max_response_len
      → Headed s.address s.resp_buf
      → Answers fl s.trace (send_response s >>= λ s'. some (ok, s'))
  send_Headed-Answers s n v e h (tl, shape) =
      rw (send_bytes s n v.0.sends e (omega (arith, v.1.0)))
        (v, answered (take n tl) refl (ap (λ t. s.trace ++ sent (take (suc n) t) ∷ []) shape))

  pub send_binary_page-Answers :
      (format : ℕ → List (Value F) → List ℕ → W → (ℕ × List ℕ) × W) (page : ℕ) (s : Sensor F W)
      → BinaryOk (some format)
      → IsValid fl s
      → Answers fl s.trace (send_binary_page format page s)
  unfolding send_binary_page
  send_binary_page-Answers format page s good (config, buffer, cache) =
      let a = s.address in
      let (nz, small, ncr) = address_byte a config.address_valid in
      let start = overwrite-IsBuffer s.resp_buf (a ∷ []) 0 buffer (small, tt) (omega arith) in
      let (count, array, same) = good page s.data_cache (a ∷ drop 1 s.resp_buf) s.world start in
      rw (store_fits s.resp_buf 0 (a ∷ []) (omega (arith, buffer.0))) (
        go _ _ (
          close_binary-Closed s.crc_requested _ a _ ncr array (byte_at-Headed a _ array same)
            count))
    where
      go :
          (w : W) (r : Option (List ℕ × ℕ))
          → Closed s.address max_response_len r
          → Answers fl s.trace (
              r >>= λ framed.
              send_response (record s { resp_buf = framed.0; resp_len = framed.1; world = w })
              >>= λ s'. some (ok, s'))
      go w none c = c
      go w (some (buf, len)) (b, head, (n, e, fits)) =
          send_Headed-Answers (record s { resp_buf = buf; resp_len = len; world = w }) n
            (config, b, cache) e fits head

  empty_packet-Answers : (s : Sensor F W) → IsValid fl s → Answers fl s.trace (empty_packet s)
  unfolding empty_packet
  empty_packet-Answers s (config, buffer, cache) =
      let a = s.address in
      let (nz, small, ncr) = address_byte a config.address_valid in
      let front = a ∷ 0 ∷ 0 ∷ 0 ∷ [] in
      let pkt = overwrite s.resp_buf 0 front in
      let array = overwrite-IsBuffer s.resp_buf front 0 buffer (small, omega arith) (omega arith) in
      let crc = le16 (crc16 pkt 4) in
      let (bytes, two) = le16-bytes (crc16 pkt 4) in
      let array' = overwrite-IsBuffer pkt crc 4 array bytes (omega arith) in
      rw
        (
          store_fits s.resp_buf 0 front (omega (arith, buffer.0)),
          store_fits pkt 4 crc (omega (arith, array.0)),
        )
        (send_Headed-Answers (record s { resp_buf = overwrite pkt 4 crc; resp_len = 6 }) 5
          (config, array', cache) refl (omega arith)
          (overwrite-Headed a 4 pkt crc (_, refl) (omega arith)))

  full_packet-Answers :
      (count : ℕ) (tmp : List ℕ) (s : Sensor F W)
      → IsValid fl s
      → IsBuffer tmp
      → 1 ≤ count
      → count ≤ 76
      → Answers fl s.trace (full_packet count tmp s)
  unfolding full_packet
  full_packet-Answers count tmp s (config, buffer, cache) b low high =
      let a = s.address in
      let (nz, small, ncr) = address_byte a config.address_valid in
      let size = (count - 1) % 2 ^ 16 in
      let fits : size ≤ 75 = omega arith in
      let (sb, s2) = le16-bytes size in
      let front = a ∷ (le16 size ++ byte_at tmp 1 ∷ []) in
      let four : length front ≡ 4 = omega (arith, length-append (le16 size) (byte_at tmp 1 ∷ [])) in
      let front_bytes : All IsByte front =
        (small, All-append IsByte (le16 size) _ sb (byte_at-IsByte 1 tmp b.1, tt)) in
      let pkt = overwrite s.resp_buf 0 front in
      let array = overwrite-IsBuffer s.resp_buf front 0 buffer front_bytes (omega arith) in
      let payload = take size (drop 2 tmp) in
      let long : length payload ≤ size = omega (arith, length-take size (drop 2 tmp)) in
      let payload_bytes = All-take IsByte size (drop 2 tmp) (All-drop IsByte 2 tmp b.1) in
      let pkt₁ = overwrite pkt 4 payload in
      let array₁ = overwrite-IsBuffer pkt payload 4 array payload_bytes (omega arith) in
      let crc = le16 (crc16 pkt₁ (4 + size)) in
      let (cb, c2) = le16-bytes (crc16 pkt₁ (4 + size)) in
      let array₂ = overwrite-IsBuffer pkt₁ crc (4 + size) array₁ cb (omega arith) in
      let head =
        overwrite-Headed a (4 + size) pkt₁ crc
          (overwrite-Headed a 4 pkt payload (_, refl) (omega arith)) (omega arith) in
      let inside : leb (2 + size) (length tmp) ≡ true = ground (arith, b.0) in
      let write₀ = store_fits s.resp_buf 0 front (omega (arith, buffer.0)) in
      let write₁ = store_fits pkt 4 payload (omega (arith, array.0)) in
      let write₂ = store_fits pkt₁ (4 + size) crc (omega (arith, array₁.0)) in
      rw (write₀, inside, write₁, write₂)
        (send_Headed-Answers
          (record s { resp_buf = overwrite pkt₁ (4 + size) crc; resp_len = 4 + size + 2 })
          (size + 5) (config, array₂, cache) (omega arith) (omega arith) head)

  packet_of-Answers :
      (format : Option (ℕ → List (Value F) → List ℕ → W → (ℕ × List ℕ) × W)) (page : ℕ)
      (s : Sensor F W)
      → BinaryOk format
      → IsValid fl s
      → Answers fl s.trace (packet_of format page s)
  unfolding packet_of tmpbuf_of
  packet_of-Answers none page s good v = empty_packet-Answers s v
  packet_of-Answers (some format) page s good v =
      let a = s.address in
      let (nz, small, ncr) = address_byte a v.0.address_valid in
      let tmp = a ∷ replicate 81 0 in
      let called = format page s.data_cache tmp s.world in
      let (count, array, same) =
        good page s.data_cache tmp s.world (omega arith, (small, omega arith)) in
      let s' = record s { world = called.1 } in
      elim (Bool-cases (called.0.0 == 0)) [
        | inl e ↦ rw e (empty_packet-Answers s' v)
        | inr e ↦ rw e (full_packet-Answers called.0.0 called.0.1 s' v array (ground arith) count)
      ]

  pub handle_send_binary_data-Answers :
      (page : ℕ) (s : Sensor F W)
      → IsValid fl s
      → Answers fl s.trace (handle_send_binary_data page s)
  unfolding handle_send_binary_data
  handle_send_binary_data-Answers page s v = elim (Bool-cases (not s.data_available)) [
    | inl e ↦ rw e (empty_packet-Answers s v)
    | inr e ↦ rw e (packet_of-Answers s.cb.format_binary_page page s v.0.binary_ok v)
  ]
