-- ===== src/Master/Packets.antt =====
-- sdi12_master.c: what sdi12_master_get_hv_binary_data makes of the binary packet that it receives.
use libsdi.Base.{
  ℕ, ◌+◌, ◌/◌, ◌^◌, ◌≤◌, ◌<◌, ◌≡◌, refl, sym, ap, ◌∙◌, Bool, true, false, List, [], ◌∷◌, ◌++◌,
  append_assoc, some, arith, length, length-append, length-replicate, drop, take-append, take_all,
  min, get_or-append, replicate, ltb, ◌==◌, ==_iff, Bool-cases, inl, inr, ◌>>=◌, bit_and,
}
use libsdi.Base.Bits.{holds_below, read_table}
use libsdi.Base.Buffer.{overwrite, store_fits}
use libsdi.Base.Text.{decimal, length-decimal}
use libsdi.Crc.{crc16}
use libsdi.Protocol.{Err, ok, err_crc_mismatch, valid_address}
use libsdi.Master.Bus.{Master}
use libsdi.Master.Transact.{IsMaster, sent_by, send_command_lem}
use libsdi.Master.Binary.{
  bin_max_payload, word_of, BinaryOut, recv_exact, check_packet, tail_received, type_received,
  header_received, packet_requested, get_hv_binary_data,
}
use libsdi.Master.Stream.{IsStream, recv_exact_lem}

-- The two bytes of a word, and the word of these bytes.
abbrev word_kept : ℕ → Bool
word_kept n = word_of (bit_and n 0xFF) (bit_and (n / 2 ^ 8) 0xFF) == n

word_table : holds_below word_kept (2 ^ 16) ≡ true
unfolding holds_below word_of
word_table = refl

pub word_of-le16 : (n : ℕ) → n < 2 ^ 16 → word_of (bit_and n 0xFF) (bit_and (n / 2 ^ 8) 0xFF) ≡ n
word_of-le16 n h = (==_iff _ _).0 (read_table word_kept (2 ^ 16) word_table n h)

-- What the caller is told of a packet with a type and a payload, by whether its CRC is right.
abbrev pub verdict : Bool → ℕ → List ℕ → BinaryOut → Err × BinaryOut
verdict true type payload out = (
  ok,
  record {
    out_type = type;
    out_payload = overwrite out.out_payload 0 payload;
    out_len = length payload;
  },
)
verdict false type payload out = (err_crc_mismatch, record out { out_type = type })

-- The array for the payload and the CRC holds them.
tail_space :
    (n : ℕ) → n ≤ bin_max_payload → n + 2 ≤ length (replicate {A = ℕ} (bin_max_payload + 2) 0)
tail_space n h = omega (arith, length-replicate {A = ℕ} (bin_max_payload + 2) 0)

module _ {W : Type 0} where
  -- The packet once it has been received.
  check_packet_lem :
      (a lo hi type c₀ c₁ : ℕ) (payload back : List ℕ) (out : BinaryOut) (m : Master W)
      → length payload ≤ out.out_len
      → length payload ≤ length out.out_payload
      → (m' : Master W) × (m'.world ≡ m.world)
        × (check_packet
              (a ∷ lo ∷ hi ∷ 0 ∷ [])
              type
              (length payload)
              (payload ++ c₀ ∷ c₁ ∷ back)
              (record out { out_type = type })
              m
            ≡ some (
              verdict
                  (crc16 (a ∷ lo ∷ hi ∷ type ∷ payload) (4 + length payload) == word_of c₀ c₁)
                  type
                  payload
                  out,
              m',
            ))
  unfolding check_packet
  check_packet_lem a lo hi type c₀ c₁ payload back out m room fits =
      let n = length payload in
      let tail = payload ++ c₀ ∷ c₁ ∷ back in
      let cut = take-append n payload (c₀ ∷ c₁ ∷ back) refl in
      let first = get_or-append n payload (c₀ ∷ c₁ ∷ back) 0 0 (omega arith) in
      let second = get_or-append (n + 1) payload (c₀ ∷ c₁ ∷ back) 1 0 refl in
      let copied : min n out.out_len ≡ n = omega (arith, room) in
      let put = store_fits out.out_payload 0 payload (omega (arith, fits)) in
      elim (Bool-cases (crc16 (a ∷ lo ∷ hi ∷ type ∷ payload) (4 + n) == word_of c₀ c₁)) [
        | inl e ↦ (
          record m { resp_len = 3 + 1 + (n + 2) },
          refl,
          rw (copied, cut, first, second, e, put) refl,
        )
        | inr e ↦ (m, refl, rw (copied, cut, first, second, e) refl)
      ]

  -- The payload and the CRC behind it, read into an array of their size.
  tail_received_lem :
      (pending : W → List ℕ) (a lo hi type c₀ c₁ : ℕ) (payload old more : List ℕ) (out : BinaryOut)
      (m : Master W)
      → IsStream m.recv pending
      → pending m.world ≡ payload ++ c₀ ∷ c₁ ∷ more
      → length payload + 2 ≤ length old
      → length payload ≤ out.out_len
      → length payload ≤ length out.out_payload
      → let n = length payload in
        let right = crc16 (a ∷ lo ∷ hi ∷ type ∷ payload) (4 + n) == word_of c₀ c₁ in
        (m' : Master W) × (pending m'.world ≡ more)
        × ((recv_exact (n + 2) old (n + 2) 0 m
              >>= tail_received (a ∷ lo ∷ hi ∷ 0 ∷ []) type n (record out { out_type = type }))
            ≡ some (verdict right type payload out, m'))
  unfolding tail_received
  tail_received_lem pending a lo hi type c₀ c₁ payload old more out m s e space room fits =
      let need = payload ++ c₀ ∷ c₁ ∷ [] in
      let size : length need ≡ length payload + 2 = length-append payload (c₀ ∷ c₁ ∷ []) in
      let (w, left, done) =
        recv_exact_lem pending (length payload + 2) [] old need more (length payload + 2) m s
          (e ∙ sym (append_assoc payload (c₀ ∷ c₁ ∷ []) more)) (omega (arith, size))
          (omega (arith, size, space)) (omega (arith, size)) in
      let back = drop (length need) old in
      let (m', same, checked) =
        check_packet_lem a lo hi type c₀ c₁ payload back out (record m { world = w }) room fits in
      (m', ap pending same ∙ left, rw (done, append_assoc payload (c₀ ∷ c₁ ∷ []) back) checked)

  type_received_lem :
      (pending : W → List ℕ) (a lo hi type c₀ c₁ : ℕ) (payload more : List ℕ) (out : BinaryOut)
      (m : Master W)
      → IsStream m.recv pending
      → pending m.world ≡ payload ++ c₀ ∷ c₁ ∷ more
      → word_of lo hi ≡ length payload
      → length payload ≤ bin_max_payload
      → length payload ≤ out.out_len
      → length payload ≤ length out.out_payload
      → let n = length payload in
        let right = crc16 (a ∷ lo ∷ hi ∷ type ∷ payload) (4 + n) == word_of c₀ c₁ in
        (m' : Master W) × (pending m'.world ≡ more)
        × (type_received (a ∷ lo ∷ hi ∷ 0 ∷ []) out (ok, (type ∷ [], m))
            ≡ some (verdict right type payload out, m'))
  unfolding type_received
  type_received_lem pending a lo hi type c₀ c₁ payload more out m s e size few room fits =
      let not_more : ltb bin_max_payload (length payload) ≡ false = ground arith in
      let old = replicate (bin_max_payload + 2) 0 in
      let space = tail_space (length payload) few in
      let (m', left, done) =
        tail_received_lem pending a lo hi type c₀ c₁ payload old more out m s e space room fits in
      (m', left, rw (size, not_more) done)

  packet_requested_lem :
      (pending : W → List ℕ) (a lo hi type c₀ c₁ : ℕ) (payload more : List ℕ) (out : BinaryOut)
      (m : Master W)
      → IsStream m.recv pending
      → pending m.world ≡ a ∷ lo ∷ hi ∷ type ∷ (payload ++ c₀ ∷ c₁ ∷ more)
      → word_of lo hi ≡ length payload
      → length payload ≤ bin_max_payload
      → length payload ≤ out.out_len
      → length payload ≤ length out.out_payload
      → let n = length payload in
        let right = crc16 (a ∷ lo ∷ hi ∷ type ∷ payload) (4 + n) == word_of c₀ c₁ in
        (m' : Master W) × (pending m'.world ≡ more)
        × (packet_requested out (ok, m) ≡ some (verdict right type payload out, m'))
  unfolding packet_requested header_received
  packet_requested_lem pending a lo hi type c₀ c₁ payload more out m s e size few room fits =
      let behind = payload ++ c₀ ∷ c₁ ∷ more in
      let (w₁, left₁, done₁) =
        recv_exact_lem pending 3 [] (0 ∷ 0 ∷ 0 ∷ 0 ∷ []) (a ∷ lo ∷ hi ∷ []) (type ∷ behind) 3 m s e
          refl (omega arith) (omega arith) in
      let (w₂, left₂, done₂) =
        recv_exact_lem pending 1 [] (0 ∷ []) (type ∷ []) behind 1 (record m { world = w₁ }) s left₁
          refl (omega arith) (omega arith) in
      let (m', left, done) =
        type_received_lem pending a lo hi type c₀ c₁ payload more out (record m { world = w₂ }) s
          left₂ size few room fits in
      (m', left, rw (done₁, done₂) done)

  -- Asked for a page of binary data below 1000, a data recorder that receives from a sensor with a
  -- valid address a packet of at most 1000 bytes of payload, in portions of any size, and whose
  -- caller has room for them, ends and leaves the bytes behind the packet to come. It returns
  -- SDI12_OK with the type and the payload if the two bytes at the end are the CRC of what is in
  -- front of them, and SDI12_ERR_CRC_MISMATCH with the payload's array untouched if they are not.
  pub get_hv_binary_data_lem :
      (pending : W → List ℕ) (a page lo hi type c₀ c₁ : ℕ) (payload more : List ℕ) (out : BinaryOut)
      (m : Master W)
      → valid_address a ≡ true
      → page < 1000
      → IsMaster m
      → IsStream m.recv pending
      → pending (m.send (a ∷ b'D' ∷ b'B' ∷ (decimal page ++ b'!' ∷ [])) m.world)
        ≡ a ∷ lo ∷ hi ∷ type ∷ (payload ++ c₀ ∷ c₁ ∷ more)
      → word_of lo hi ≡ length payload
      → length payload ≤ bin_max_payload
      → length payload ≤ out.out_len
      → length payload ≤ length out.out_payload
      → let n = length payload in
        let right = crc16 (a ∷ lo ∷ hi ∷ type ∷ payload) (4 + n) == word_of c₀ c₁ in
        (m' : Master W) × (pending m'.world ≡ more)
        × (get_hv_binary_data a page out m ≡ some (verdict right type payload out, m'))
  unfolding get_hv_binary_data
  get_hv_binary_data_lem pending a page lo hi type c₀ c₁ payload more out m h small v s e size few
        room fits =
      let cmd = a ∷ b'D' ∷ b'B' ∷ (decimal page ++ b'!' ∷ []) in
      let short = (length-decimal page small).1 in
      let cmd_fits : length cmd ≤ 7 =
        omega (arith, length-append (decimal page) (b'!' ∷ []), short) in
      let whole = take_all 15 cmd (omega (arith, cmd_fits)) in
      let sent = send_command_lem cmd m (omega (arith, cmd_fits)) v in
      let (m', left, done) =
        packet_requested_lem pending a lo hi type c₀ c₁ payload more out (sent_by cmd m) s e size
          few room fits in
      (m', left, rw (h, whole, sent) done)
