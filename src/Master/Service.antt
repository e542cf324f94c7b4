-- ===== src/Master/Service.antt =====
-- sdi12_master.c: sdi12_master_wait_service_request on a service request.
use libsdi.Base.{
  ℕ, ◌+◌, ◌-◌, ◌≤◌, ◌≡◌, refl, ap, ◌∙◌, true, false, List, [], ◌∷◌, ◌++◌, some, arith, length, ◌==◌,
}
use libsdi.Base.Buffer.{overwrite, length-overwrite, store_fits}
use libsdi.Crc.{crlf}
use libsdi.Protocol.{ok, valid_address}
use libsdi.Sensor.Answer.{address_byte}
use libsdi.Master.Bus.{Master, recv_response, trimmed_starts}
use libsdi.Master.Transact.{IsMaster, SameBus, same_bus}
use libsdi.Master.Trim.{trim_crlf_line}
use libsdi.Master.Exchange.{valid-lf}
use libsdi.Master.Line.{answer_stored}
use libsdi.Master.Commands.{serviced, wait_service_request}

module _ {W : Type 0} where
  -- Bytes that are received without a command.
  pub recv_got :
      (got : List ℕ) (timeout : ℕ) (m : Master W)
      → IsMaster m
      → 1 ≤ length got
      → (m.recv 85 timeout m.world).0 ≡ got
      → (m' : Master W) × (recv_response timeout m ≡ some (ok, m'))
        × ((rest : List ℕ) × (m'.resp_buf ≡ got ++ 0 ∷ rest))
        × (m'.resp_len ≡ length got)
        × (m'.world ≡ (m.recv 85 timeout m.world).1)
        × SameBus m m'
  unfolding recv_response
  recv_got got timeout m v long e =
      let here : m.recv (length m.resp_buf - 1) timeout m.world ≡ m.recv 85 timeout m.world =
        ap (λ (k : ℕ). m.recv (k - 1) timeout m.world) v.responses in
      let room : length got ≤ 85 = rw e at (v.within 85 timeout m.world) in
      let put = store_fits m.resp_buf 0 got (omega (arith, room, v.responses)) in
      let filled = overwrite m.resp_buf 0 got in
      let size = length-overwrite m.resp_buf 0 got (omega (arith, room, v.responses)) in
      let inside : length got + 1 ≤ length filled = omega (arith, room, size, v.responses) in
      let end = store_fits filled (length got) (0 ∷ []) inside in
      let some_bytes : (length got == 0) ≡ false = ground arith in
      (
        record m {
          resp_buf = overwrite filled (length got) (0 ∷ []);
          resp_len = length got;
          world = (m.recv 85 timeout m.world).1;
        },
        rw (here, e, put, some_bytes, end) refl,
        answer_stored got m.resp_buf,
        refl,
        refl,
        record {
          sends = refl;
          receives = refl;
          commands = refl;
          responses = length-overwrite filled (length got) (0 ∷ []) inside ∙ size;
        },
      )

  -- A well-formed data recorder that waits for a service request returns SDI12_OK when the address
  -- that it waits for, CR and LF arrive, leaves the world as they have left it, its callbacks as
  -- they were, and the arrays at their sizes.
  pub wait_service_request_lem :
      (a timeout : ℕ) (m : Master W)
      → valid_address a ≡ true
      → IsMaster m
      → (m.recv 85 timeout m.world).0 ≡ a ∷ crlf
      → (m' : Master W) × (wait_service_request a timeout m ≡ some (ok, m'))
        × (m'.world ≡ (m.recv 85 timeout m.world).1)
        × SameBus m m'
  unfolding wait_service_request serviced trimmed_starts
  wait_service_request_lem a timeout m h v e =
      let (m₁, heard, (rest, stored), count, world, bus) =
        recv_got (a ∷ crlf) timeout m v (omega arith) e in
      let (nz, small, ncr) = address_byte a h in
      let trimmed = trim_crlf_line [] (0 ∷ rest) a 0 refl ncr (valid-lf a h) in
      let same : (a == a) ≡ true = ground arith in
      let buf : List ℕ = a ∷ 0 ∷ 0 ∷ 0 ∷ rest in
      let size : length buf ≡ length m₁.resp_buf = omega (arith, ap length stored) in
      let m₂ = record m₁ { resp_buf = buf } in
      let bus₂ : SameBus m₁ m₂ = record {
        sends = refl;
        receives = refl;
        commands = refl;
        responses = size;
      } in
      (m₂, rw (heard, stored, count, trimmed, same) refl, world, same_bus m m₁ m₂ bus bus₂)
