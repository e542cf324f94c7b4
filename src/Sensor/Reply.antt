-- ===== src/Sensor/Reply.antt =====
-- sdi12_sensor.c: send_response, and the answers that are a single formatted text.
use libsdi.Base.{
  ℕ, List, [], ◌∷◌, ◌++◌, Option, some, take, length, codes, leb, ◌==◌, if◌then◌else◌, ◌>>=◌, ◌>>◌,
  check,
}
use libsdi.Base.Buffer.{snprintf, strlen}
use libsdi.Base.Text.{pad_right}
use libsdi.Crc.{crlf}
use libsdi.Protocol.{ok}
use libsdi.Sensor.Types.{Sensor, sent, Run}

module _ {F W : Type 0} where
  -- The length that send_response reads: resp_len if it is set, else strlen.
  unfoldable pub response_length : Sensor F W → Option ℕ
  response_length s = if s.resp_len == 0 then strlen s.resp_buf else some s.resp_len

  -- The call of the callback, which reads that many bytes of the array.
  unfoldable pub transmit : Sensor F W → Option (Sensor F W)
  transmit s = do
    len ← response_length s
    check (leb len (length s.resp_buf))
    some (record s { trace = s.trace ++ sent (take len s.resp_buf) ∷ [] })

  unfoldable pub send_response : Sensor F W → Option (Sensor F W)
  send_response s = if s.cb.send_response then transmit s else some s

  -- `snprintf(ctx->resp_buf, ...)`, send_response and `return SDI12_OK`.
  unfoldable pub reply : List ℕ → Sensor F W → Run F W
  reply text s = do
    s' ← send_response (record s { resp_buf = snprintf s.resp_buf text })
    some (ok, s')

  unfoldable pub handle_acknowledge : Sensor F W → Run F W
  handle_acknowledge s = reply (s.address ∷ crlf) s

  unfoldable pub identification : Sensor F W → List ℕ
  identification s =
      s.address
      ∷ (codes "14"
          ++ (pad_right 8 s.ident.vendor
              ++ (pad_right 6 s.ident.model
                  ++ (pad_right 3 s.ident.firmware_version ++ (s.ident.serial ++ crlf)))))

  unfoldable pub handle_identify : Sensor F W → Run F W
  unfolding identification
  handle_identify s = reply (identification s) s

  unfoldable pub handle_highvol_stub : Sensor F W → Run F W
  handle_highvol_stub s = reply (s.address ∷ (codes "000000" ++ crlf)) s
