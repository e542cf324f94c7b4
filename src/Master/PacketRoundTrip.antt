-- ===== src/Master/PacketRoundTrip.antt =====
-- sdi12_master.c: sdi12_master_get_hv_binary_data on the packets that sdi12_sensor.c sends, intact
-- and with an error in a byte.
use libsdi.Base.{
  ℕ, ◌+◌, ◌/◌, ◌^◌, ◌≤◌, ◌<◌, ◌≡◌, ◌≢◌, sym, ap, ◌∙◌, true, false, List, [], ◌∷◌, ◌++◌,
  append_assoc, some, All, All-append, arith, length, length-append, ◌==◌, ==_iff, bit_and,
}
use libsdi.Base.Bits.{and-lt}
use libsdi.Base.Text.{decimal}
use libsdi.Crc.{crc16}
use libsdi.Crc.Step.{IsWord, IsByte}
use libsdi.Crc.Detect.{crc16_one_byte, crc16_all, crc_loop-IsWord}
use libsdi.Protocol.{err_crc_mismatch, valid_address}
use libsdi.Sensor.Data.{le16}
use libsdi.Sensor.Answer.{address_byte}
use libsdi.Sensor.Packets.{frame, packet}
use libsdi.Master.Bus.{Master}
use libsdi.Master.Transact.{IsMaster}
use libsdi.Master.Binary.{bin_max_payload, word_of, BinaryOut, get_hv_binary_data}
use libsdi.Master.Stream.{IsStream}
use libsdi.Master.Packets.{word_of-le16, verdict, get_hv_binary_data_lem}

-- A frame of bytes has a word for its CRC.
frame-bytes :
    (a type : ℕ) (payload : List ℕ)
    → IsByte a
    → IsByte type
    → All IsByte payload
    → All IsByte (frame a type payload)
unfolding le16
frame-bytes a type payload h k hs = (
  h,
  (
    and-lt 8 (length payload) 0xFF (omega arith),
    (and-lt 8 (length payload / 2 ^ 8) 0xFF (omega arith), (k, hs)),
  ),
)

frame_crc-IsWord :
    (a type : ℕ) (payload : List ℕ)
    → IsByte a
    → IsByte type
    → All IsByte payload
    → IsWord (crc16 (frame a type payload) (4 + length payload))
unfolding le16
frame_crc-IsWord a type payload h k hs =
    let bytes = frame a type payload in
    let word = crc_loop-IsWord bytes 0 (omega arith) (frame-bytes a type payload h k hs) in
    let whole = crc16_all bytes (4 + length payload) (omega arith) in rw whole word

not_equal : (p q : ℕ) → p ≢ q → (p == q) ≡ false
not_equal p q ne = ground arith

-- Frames whose payloads differ in one byte have different CRCs.
damaged_crc :
    (a type x y : ℕ) (front back : List ℕ)
    → IsByte a
    → IsByte type
    → All IsByte front
    → All IsByte back
    → IsByte x
    → IsByte y
    → x ≢ y
    → let sent = front ++ x ∷ back in
      let received = front ++ y ∷ back in
      crc16 (frame a type sent) (4 + length sent)
      ≢ crc16 (frame a type received) (4 + length received)
unfolding le16
damaged_crc a type x y front back h k hf hb hx hy ne =
    let n = length (front ++ y ∷ back) in
    let count = length-append front (y ∷ back) in
    let same : length (front ++ x ∷ back) ≡ n =
      omega (arith, length-append front (x ∷ back), count) in
    let head = a ∷ bit_and n 0xFF ∷ bit_and (n / 2 ^ 8) 0xFF ∷ type ∷ front in
    let bytes : All IsByte head =
      (h, (and-lt 8 n 0xFF (omega arith), (and-lt 8 (n / 2 ^ 8) 0xFF (omega arith), (k, hf)))) in
    rw same (crc16_one_byte head back x y (4 + n) bytes hb hx hy (omega (arith, count)) ne)

module _ {W : Type 0} where
  -- The data recorder reads back the packet of a sensor: asked for a page of binary data below
  -- 1000 of a valid address, when the packet of a type and of at most 1000 bytes of payload comes
  -- back in portions of any size, and the caller has room for the payload, it ends with SDI12_OK,
  -- that type and that payload, and leaves the bytes behind the packet to come.
  pub get_hv_binary_data-packet :
      (pending : W → List ℕ) (a page type : ℕ) (payload more : List ℕ) (out : BinaryOut)
      (m : Master W)
      → valid_address a ≡ true
      → page < 1000
      → IsByte type
      → All IsByte payload
      → IsMaster m
      → IsStream m.recv pending
      → pending (m.send (a ∷ b'D' ∷ b'B' ∷ (decimal page ++ b'!' ∷ [])) m.world)
        ≡ packet a type payload ++ more
      → length payload ≤ bin_max_payload
      → length payload ≤ out.out_len
      → length payload ≤ length out.out_payload
      → (m' : Master W) × (pending m'.world ≡ more)
        × (get_hv_binary_data a page out m ≡ some (verdict true type payload out, m'))
  unfolding le16
  get_hv_binary_data-packet pending a page type payload more out m h small k hs v s e few room
        fits =
      let (nz, byte, ncr) = address_byte a h in
      let n = length payload in
      let crc = crc16 (frame a type payload) (4 + n) in
      let lo = bit_and n 0xFF in
      let hi = bit_and (n / 2 ^ 8) 0xFF in
      let c₀ = bit_and crc 0xFF in
      let c₁ = bit_and (crc / 2 ^ 8) 0xFF in
      let size = word_of-le16 n (omega (arith, few)) in
      let word = word_of-le16 crc (frame_crc-IsWord a type payload byte k hs) in
      let right : (crc == word_of c₀ c₁) ≡ true = (==_iff _ _).1 (sym word) in
      let (m', left, done) =
        get_hv_binary_data_lem pending a page lo hi type c₀ c₁ payload more out m h small v s
          (e ∙ append_assoc (frame a type payload) (le16 crc) more) size few room fits in
      (m', left, done ∙ ap (λ b. some (verdict b type payload out, m')) right)

  -- A packet in whose payload one byte was changed on the way is refused: under the conditions of
  -- the round trip, but with the CRC of the payload before the change, the data recorder returns
  -- SDI12_ERR_CRC_MISMATCH and leaves the caller's payload untouched.
  pub get_hv_binary_data-damaged :
      (pending : W → List ℕ) (a page type x y : ℕ) (front back more : List ℕ) (out : BinaryOut)
      (m : Master W)
      → valid_address a ≡ true
      → page < 1000
      → IsByte type
      → All IsByte front
      → All IsByte back
      → IsByte x
      → IsByte y
      → x ≢ y
      → IsMaster m
      → IsStream m.recv pending
      → let sent = front ++ x ∷ back in
        let received = front ++ y ∷ back in
        pending (m.send (a ∷ b'D' ∷ b'B' ∷ (decimal page ++ b'!' ∷ [])) m.world)
          ≡ frame a type received ++ (le16 (crc16 (frame a type sent) (4 + length sent)) ++ more)
        → length received ≤ bin_max_payload
        → length received ≤ out.out_len
        → length received ≤ length out.out_payload
        → (m' : Master W) × (pending m'.world ≡ more)
          × (get_hv_binary_data a page out m
              ≡ some ((err_crc_mismatch, record out { out_type = type }), m'))
  unfolding le16
  get_hv_binary_data-damaged pending a page type x y front back more out m h small k hf hb hx hy ne
        v s e few room fits =
      let (nz, byte, ncr) = address_byte a h in
      let sent = front ++ x ∷ back in
      let received = front ++ y ∷ back in
      let n = length received in
      let same : length sent ≡ n =
        omega (arith, length-append front (x ∷ back), length-append front (y ∷ back)) in
      let crc = crc16 (frame a type sent) (4 + length sent) in
      let lo = bit_and n 0xFF in
      let hi = bit_and (n / 2 ^ 8) 0xFF in
      let c₀ = bit_and crc 0xFF in
      let c₁ = bit_and (crc / 2 ^ 8) 0xFF in
      let size = word_of-le16 n (omega (arith, few)) in
      let sent_bytes = All-append IsByte front (x ∷ back) hf (hx, hb) in
      let word = word_of-le16 crc (frame_crc-IsWord a type sent byte k sent_bytes) in
      let differ = damaged_crc a type x y front back byte k hf hb hx hy ne in
      let wrong : (crc16 (frame a type received) (4 + n) == word_of c₀ c₁) ≡ false =
        not_equal _ _ (λ q. differ (sym word ∙ sym q)) in
      let (m', left, done) =
        get_hv_binary_data_lem pending a page lo hi type c₀ c₁ received more out m h small v s e
          size few room fits in
      (m', left, done ∙ ap (λ b. some (verdict b type received out, m')) wrong)
