-- ===== src/Session/Packet.antt =====
-- High-volume binary data: sdi12_master_get_hv_binary_data against handle_send_binary_data.
use libsdi.Base.{
  ℕ, zero, suc, ◌+◌, ◌≤◌, ◌<◌, ◌≡◌, ◌≢◌, refl, subst, sym, ap, ◌∙◌, Bool, true, List, [], ◌∷◌, ◌++◌,
  append-nil, append_assoc, some, arith, length, length-append, length-take, take, drop, take-drop,
  All, All-take, All-drop, replicate, if◌then◌else◌,
}
use libsdi.Base.Text.{decimal}
use libsdi.Base.Buffer.{byte_at}
use libsdi.Crc.Step.{IsByte}
use libsdi.Protocol.{measuring_c}
use libsdi.Sensor.Types.{Floats, Value, Run, sent}
use libsdi.Sensor.Data.{tmpbuf_of, handle_send_binary_data}
use libsdi.Sensor.Answer.{address_byte}
use libsdi.Sensor.Valid.{BinaryOk, IsValid}
use libsdi.Sensor.Packets.{packet, written_packet, page_packet, handle_send_binary_data-sends}
use libsdi.Sensor.BinaryAnswers.{byte_at-IsByte}
use libsdi.Sensor.Process.{process}
use libsdi.Master.Bus.{Master}
use libsdi.Master.Binary.{BinaryOut, get_hv_binary_data}
use libsdi.Master.Stream.{IsStream}
use libsdi.Master.Packets.{verdict}
use libsdi.Master.PacketRoundTrip.{get_hv_binary_data-packet}
use libsdi.Master.Dispatch.{prepared}
use libsdi.Session.Wired.{IsWired, wired-IsMaster}
use libsdi.Session.Data.{kept}
use libsdi.Session.Requests.{request_reaches}
use libsdi.Session.{Wire, bytes_of, after_run, wire_send, wire_recv}

-- The type and the payload that a callback has written with a count of bytes.
abbrev pub written_type : ℕ → List ℕ → ℕ
written_type zero tmp = 0
written_type (suc n) tmp = byte_at tmp 1

abbrev pub written_payload : ℕ → List ℕ → List ℕ
written_payload zero tmp = []
written_payload (suc n) tmp = take n (drop 2 tmp)

written_lem :
    (a count : ℕ) (tmp : List ℕ)
    → written_packet a count tmp ≡ packet a (written_type count tmp) (written_payload count tmp)
written_lem a zero tmp = refl
written_lem a (suc n) tmp = refl

written-IsByte :
    (count : ℕ) (tmp : List ℕ)
    → All IsByte tmp
    → count ≤ 76
    → IsByte (written_type count tmp)
      × All IsByte (written_payload count tmp)
      × (length (written_payload count tmp) ≤ 75)
written-IsByte zero tmp h few = (omega arith, tt, omega arith)
written-IsByte (suc n) tmp h few = (
  byte_at-IsByte 1 tmp h,
  All-take IsByte n (drop 2 tmp) (All-drop IsByte 2 tmp h),
  omega (arith, length-take n (drop 2 tmp)),
)

module _ {F V : Type 0} (fl : Floats F) where
  -- The bus hands out the bytes on the line in their order.
  wire_recv-IsStream : IsStream (wire_recv {F = F} {V = V}) (λ wire. wire.incoming)
  unfolding wire_recv
  wire_recv-IsStream = record {
    in_order = λ room timeout wire. take-drop room wire.incoming;
    within = λ room timeout wire. omega (arith, length-take room wire.incoming);
    delivers = λ room timeout wire some_room some_bytes.
        omega (arith, length-take room wire.incoming, some_room, some_bytes);
  }

  -- What a sensor with data and a callback puts on the line for a page of binary data.
  packet_answers :
      (page : ℕ) (format : ℕ → List (Value F) → List ℕ → V → (ℕ × List ℕ) × V) (wire : Wire F V)
      → let s = wire.sensor in
        let called = (format page s.data_cache (tmpbuf_of s.address) s.world).0 in
        page < 1000
        → IsValid fl s
        → s.state ≢ measuring_c
        → s.data_available ≡ true
        → s.cb.format_binary_page ≡ some format
        → (wire_send fl (s.address ∷ b'D' ∷ b'B' ∷ (decimal page ++ b'!' ∷ [])) wire).incoming
          ≡ written_packet s.address called.0 called.1
  unfolding wire_send after_run bytes_of
  packet_answers page format wire small v idle available callback =
      let s = wire.sensor in
      let s₀ = record s { trace = [] } in
      let p = record s₀ { resp_len = 0 } in
      let called = (format page s.data_cache (tmpbuf_of s.address) s.world).0 in
      let (s', done, says) = handle_send_binary_data-sends fl page p v in
      let text = written_packet s.address called.0 called.1 in
      let which : (if s.data_available
            then page_packet s.cb.format_binary_page page p
            else packet s.address 0 [])
          ≡ text =
        ap
          (λ (b : Bool).
            if b then page_packet s.cb.format_binary_page page p else packet s.address 0 [])
          available
        ∙ ap (λ f. page_packet f page p) callback in
      let here : prepared fl s₀ ≡ p = kept fl s.state p idle in
      let digits = decimal page in
      let front : List ℕ → List ℕ = λ t. s.address ∷ b'D' ∷ b'B' ∷ t in
      let size : suc (suc (suc (length (digits ++ b'!' ∷ [])))) ≡ 4 + length digits =
        omega (arith, length-append digits (b'!' ∷ [])) in
      let ran =
        ap (λ (t : List ℕ). process fl (front t) (length (front (digits ++ b'!' ∷ []))) s₀)
          (append_assoc digits (b'!' ∷ []) (0 ∷ []))
        ∙ ap (λ (k : ℕ). process fl (front (digits ++ b'!' ∷ 0 ∷ [])) k s₀) size
        ∙ (request_reaches fl page s₀ (0 ∷ []) small).0
        ∙ ap (handle_send_binary_data page) here
        ∙ done in
      ap (λ (run : Run F V). (after_run wire run).incoming) ran
      ∙ ap bytes_of (says ∙ ap (λ (t : List ℕ). sent t ∷ []) which)
      ∙ append-nil text

  -- On a bus with a well-formed sensor that has data and a format_binary_page callback and is not
  -- in a concurrent measurement, a data recorder with arrays of their sizes that asks for a page
  -- of binary data below 1000, with room for 75 bytes at least, gets SDI12_OK and the type and the
  -- payload that the callback has written for that page, and no type and no payload if it has
  -- written nothing; and no byte is left on the line.
  pub packet_session :
      (m : Master (Wire F V)) (page : ℕ)
      (format : ℕ → List (Value F) → List ℕ → V → (ℕ × List ℕ) × V) (out : BinaryOut)
      → let s = m.world.sensor in
        let called = (format page s.data_cache (tmpbuf_of s.address) s.world).0 in
        IsWired fl m
        → page < 1000
        → IsValid fl s
        → s.state ≢ measuring_c
        → s.data_available ≡ true
        → s.cb.format_binary_page ≡ some format
        → 75 ≤ out.out_len
        → 75 ≤ length out.out_payload
        → (m' : Master (Wire F V)) × (m'.world.incoming ≡ [])
          × (get_hv_binary_data s.address page out m
              ≡ some (
                verdict true
                    (written_type called.0 called.1)
                    (written_payload called.0 called.1)
                    out,
                m',
              ))
  unfolding tmpbuf_of
  packet_session m page format out h small v idle available callback room array =
      let s = m.world.sensor in
      let tmp = s.address ∷ replicate 81 0 in
      let called = (format page s.data_cache tmp s.world).0 in
      let (config, buffer, cache) = v in
      let (nz, byte, ncr) = address_byte s.address config.address_valid in
      let good = subst BinaryOk callback config.binary_ok in
      let (few, written, same) =
        good page s.data_cache tmp s.world (omega arith, (byte, omega arith)) in
      let (type, payload, fits) = written-IsByte called.0 called.1 written.1 few in
      let line =
        ap
          (λ (f : List ℕ → Wire F V → Wire F V).
            (f (s.address ∷ b'D' ∷ b'B' ∷ (decimal page ++ b'!' ∷ [])) m.world).incoming)
          h.sends
        ∙ packet_answers page format m.world small v idle available callback
        ∙ written_lem s.address called.0 called.1
        ∙ sym (
            append-nil (
              packet s.address (written_type called.0 called.1)
                (written_payload called.0 called.1))) in
      get_hv_binary_data-packet (λ wire. wire.incoming) s.address page
        (written_type called.0 called.1) (written_payload called.0 called.1) [] out m
        config.address_valid small type payload (wired-IsMaster fl m h)
        (subst (λ (r : ℕ → ℕ → Wire F V → List ℕ × Wire F V). IsStream r (λ wire. wire.incoming))
          (sym h.receives) wire_recv-IsStream)
        line (omega (arith, fits)) (omega (arith, fits, room)) (omega (arith, fits, array))
