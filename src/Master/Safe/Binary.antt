-- ===== src/Master/Safe/Binary.antt =====
-- sdi12_master.c: recv_exact and sdi12_master_get_hv_binary_data, on any bytes.
use libsdi.Base.{
  ℕ, zero, suc, ◌+◌, ◌-◌, ◌≤◌, ◌≡◌, refl, ◌∙◌, false, not, List, [], ◌∷◌, ◌++◌, Option, some, arith,
  length, length-take, ltb, ◌==◌, min, ◌>>=◌, Bool-cases, inl, inr, take, replicate,
}
use libsdi.Base.Buffer.{byte_at, overwrite, length-overwrite, store_fits}
use libsdi.Base.Text.{decimal}
use libsdi.Crc.{crc16}
use libsdi.Protocol.{
  Err, ok, err_timeout, err_invalid_command, err_buffer_overflow, err_crc_mismatch, valid_address,
}
use libsdi.Master.Bus.{Master, response_timeout_ms}
use libsdi.Master.Commands.{cut_to}
use libsdi.Master.Binary.{
  bin_max_payload, word_of, BinaryOut, recv_exact, check_packet, tail_received, type_received,
  header_received, packet_requested, get_hv_binary_data,
}
use libsdi.Master.Safe.{Guarded, Stays, Safe, Stays-refl, Stays-trans, send_cases}
use libsdi.Master.Safe.Replies.{unless-Safe}

-- The caller has the room that it says.
abbrev pub HasRoom : BinaryOut → Type 0
HasRoom out = out.out_len ≤ length out.out_payload

module _ {W : Type 0} (P : W → Type 0) (C : List ℕ → Type 0) where
  -- What recv_exact leaves, with an array of `size` bytes.
  abbrev Got : ℕ → Master W → Option (Err × (List ℕ × Master W)) → Type 0
  Got size m run =
      (e : Err) × (buf : List ℕ) × (m' : Master W) × (run ≡ some (e, (buf, m')))
      × (length buf ≡ size)
      × Stays P C m m'

  -- The world after a portion.
  portion-Stays :
      (room : ℕ) (m : Master W)
      → Guarded P C m
      → Stays P C m (record m { world = (m.recv room response_timeout_ms m.world).1 })
  portion-Stays room m g = record {
    bus = record { sends = refl; receives = refl; commands = refl; responses = refl };
    guarded = record {
      arrays = record {
        commands = g.arrays.commands;
        responses = g.arrays.responses;
        within = g.arrays.within;
      };
      sends = g.sends;
      receives = g.receives;
      holds = g.receives room response_timeout_ms m.world g.holds;
    };
  }

  recv_exact-Got :
      (fuel : ℕ) (buf : List ℕ) (count got : ℕ) (m : Master W)
      → Guarded P C m
      → count ≤ length buf
      → got ≤ count
      → count - got ≤ fuel
      → Got (length buf) m (recv_exact fuel buf count got m)
  unfolding recv_exact
  recv_exact-Got zero buf count got m g room le enough =
      let all : ltb got count ≡ false = ground arith in
      (ok, buf, m, rw all refl, refl, Stays-refl P C m g)
  recv_exact-Got (suc fuel) buf count got m g room le enough =
      let called = m.recv (count - got) response_timeout_ms m.world in
      let few = g.arrays.within (count - got) response_timeout_ms m.world in
      let m₁ = record m { world = called.1 } in
      let s = portion-Stays (count - got) m g in
      let inside : got + length called.0 ≤ length buf = omega (arith, few) in
      let size = length-overwrite buf got called.0 inside in
      elim (Bool-cases (ltb got count)) [
        | inr all ↦ (ok, buf, m, rw all refl, refl, Stays-refl P C m g)
        | inl more ↦ elim (Bool-cases (length called.0 == 0)) [
          | inl silent ↦ (err_timeout, buf, m₁, rw (more, silent) refl, refl, s)
          | inr bytes ↦
              let some_bytes : 1 ≤ length called.0 = ground arith in
              let (e, buf', m₂, done, same, t) =
                recv_exact-Got fuel (overwrite buf got called.0) count (got + length called.0) m₁
                  s.guarded (omega (arith, size)) (omega (arith, few))
                  (omega (arith, some_bytes)) in
              (
                e,
                buf',
                m₂,
                rw (more, bytes, store_fits buf got called.0 inside) done,
                same ∙ size,
                Stays-trans P C m m₁ m₂ s t,
              )
        ]
      ]

  counted-Stays : (n : ℕ) (m : Master W) → Guarded P C m → Stays P C m (record m { resp_len = n })
  counted-Stays n m g = record {
    bus = record { sends = refl; receives = refl; commands = refl; responses = refl };
    guarded = record {
      arrays = record {
        commands = g.arrays.commands;
        responses = g.arrays.responses;
        within = g.arrays.within;
      };
      sends = g.sends;
      receives = g.receives;
      holds = g.holds;
    };
  }

  Got-Safe :
      {R : Type 0} (size : ℕ) (m : Master W) (run : Option (Err × (List ℕ × Master W)))
      (k : Err × (List ℕ × Master W) → Option (R × Master W))
      → Got size m run
      → ((e : Err) (buf : List ℕ) (m' : Master W) → Guarded P C m' → Safe P C m' (k (e, (buf, m'))))
      → Safe P C m (run >>= k)
  Got-Safe size m run k (e, buf, m₁, got, same, s) next =
      let (r, m₂, done, t) = next e buf m₁ s.guarded in
      (r, m₂, rw (got, done) refl, Stays-trans P C m m₁ m₂ s t)

  check_packet-Safe :
      (hdr : List ℕ) (type_byte pkt_size : ℕ) (tail : List ℕ) (out : BinaryOut) (m : Master W)
      → Guarded P C m
      → HasRoom out
      → Safe P C m (check_packet hdr type_byte pkt_size tail out m)
  unfolding check_packet
  check_packet-Safe hdr type_byte pkt_size tail out m g room =
      let crc = crc16 (take 3 hdr ++ type_byte ∷ take pkt_size tail) (4 + pkt_size) in
      let sent_crc = word_of (byte_at tail pkt_size) (byte_at tail (pkt_size + 1)) in
      let bytes = take (min pkt_size out.out_len) tail in
      let put =
        store_fits out.out_payload 0 bytes
          (omega (arith, length-take (min pkt_size out.out_len) tail, room)) in
      elim (Bool-cases (not (crc == sent_crc))) [
        | inl wrong ↦ ((err_crc_mismatch, out), m, rw wrong refl, Stays-refl P C m g)
        | inr right ↦ (
          (ok, record out { out_payload = overwrite out.out_payload 0 bytes; out_len = pkt_size }),
          record m { resp_len = 3 + 1 + (pkt_size + 2) },
          rw (right, put) refl,
          counted-Stays (3 + 1 + (pkt_size + 2)) m g,
        )
      ]

  tail_received-Safe :
      (hdr : List ℕ) (type_byte pkt_size : ℕ) (out : BinaryOut) (e : Err) (tail : List ℕ)
      (m : Master W)
      → HasRoom out
      → Guarded P C m
      → Safe P C m (tail_received hdr type_byte pkt_size out (e, (tail, m)))
  unfolding tail_received
  tail_received-Safe hdr type_byte pkt_size out ok tail m room g =
      check_packet-Safe hdr type_byte pkt_size tail out m g room
  tail_received-Safe hdr type_byte pkt_size out _ tail m room g = (_, m, refl, Stays-refl P C m g)

  type_received-Safe :
      (hdr : List ℕ) (out : BinaryOut) (e : Err) (buf : List ℕ) (m : Master W)
      → HasRoom out
      → Guarded P C m
      → Safe P C m (type_received hdr out (e, (buf, m)))
  unfolding type_received
  type_received-Safe hdr out ok buf m room g =
      let type_byte = byte_at buf 0 in
      let size = word_of (byte_at hdr 1) (byte_at hdr 2) in
      let typed = record out { out_type = type_byte } in
      let tail : List ℕ = replicate (bin_max_payload + 2) 0 in
      elim (Bool-cases (ltb bin_max_payload size)) [
        | inl big ↦ ((err_buffer_overflow, typed), m, rw big refl, Stays-refl P C m g)
        | inr fits ↦
            let small : size ≤ bin_max_payload = ground arith in
            rw fits (
              Got-Safe (length tail) m _ (tail_received hdr type_byte size typed)
                (recv_exact-Got (size + 2) tail (size + 2) 0 m g (omega (arith, small))
                  (omega arith) (omega arith))
                (λ e buf' m' g'. tail_received-Safe hdr type_byte size typed e buf' m' room g'))
      ]
  type_received-Safe hdr out _ buf m room g = (_, m, refl, Stays-refl P C m g)

  header_received-Safe :
      (out : BinaryOut) (e : Err) (hdr : List ℕ) (m : Master W)
      → HasRoom out
      → Guarded P C m
      → Safe P C m (header_received out (e, (hdr, m)))
  unfolding header_received
  header_received-Safe out ok hdr m room g =
      Got-Safe 1 m _ (type_received hdr out)
        (recv_exact-Got 1 (0 ∷ []) 1 0 m g (omega arith) (omega arith) (omega arith))
        (λ e buf m' g'. type_received-Safe hdr out e buf m' room g')
  header_received-Safe out _ hdr m room g = (_, m, refl, Stays-refl P C m g)

  packet_requested-Safe :
      (out : BinaryOut) (m : Master W)
      → HasRoom out
      → Guarded P C m
      → Safe P C m (packet_requested out (ok, m))
  unfolding packet_requested
  packet_requested-Safe out m room g =
      Got-Safe 4 m _ (header_received out)
        (recv_exact-Got 3 (replicate 4 0) 3 0 m g (omega arith) (omega arith) (omega arith))
        (λ e hdr m' g'. header_received-Safe out e hdr m' room g')

  pub get_hv_binary_data-Safe :
      (addr page : ℕ) (out : BinaryOut) (m : Master W)
      → Guarded P C m
      → HasRoom out
      → C (cut_to 16 (addr ∷ b'D' ∷ b'B' ∷ (decimal page ++ b'!' ∷ [])))
      → Safe P C m (get_hv_binary_data addr page out m)
  unfolding get_hv_binary_data packet_requested
  get_hv_binary_data-Safe addr page out m g room c =
      let cmd = cut_to 16 (addr ∷ b'D' ∷ b'B' ∷ (decimal page ++ b'!' ∷ [])) in
      let (m₁, s, how) = send_cases P C cmd m g c in
      unless-Safe P C (not (valid_address addr)) _ m _ g (elim how [
        | inl e ↦
            let (r, m₂, done, t) = packet_requested-Safe out m₁ room s.guarded in
            (r, m₂, rw e done, Stays-trans P C m m₁ m₂ s t)
        | inr e ↦ ((err_invalid_command, out), m₁, rw e refl, s)
      ])
