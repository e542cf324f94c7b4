-- ===== src/Sensor/Answer.antt =====
-- sdi12_sensor.c: what send_response and the plain answers do, from a well-formed sensor.
use libsdi.Base.{
  ℕ, zero, suc, ◌+◌, ◌-◌, ◌^◌, ◌≤◌, ◌<◌, ◌≡◌, ◌≢◌, refl, ap, ◌∙◌, true, List, [], ◌∷◌, ◌++◌, some,
  All-append, arith, take, drop, length, length-append, length-drop, take-append, ◌>>=◌,
}
use libsdi.Base.Buffer.{strlen, strlen-append, snprintf_fits, NoNul}
use libsdi.Crc.{crlf}
use libsdi.Crc.Step.{IsByte}
use libsdi.Protocol.{ok, valid_address}
use libsdi.Sensor.Types.{Floats, Ident, Sensor, sent}
use libsdi.Base.{All-drop, take_all, replicate, codes}
use libsdi.Base.Text.{pad_right}
use libsdi.Sensor.Reply.{
  response_length, transmit, send_response, reply, identification, handle_acknowledge,
  handle_identify, handle_highvol_stub,
}
use libsdi.Sensor.Valid.{IsText, IsBuffer, IsIdent, IsValid, answered, Answers}

-- An address is a byte that is neither NUL nor CR.
pub address_byte : (a : ℕ) → valid_address a ≡ true → (a ≢ 0) × (a < 2 ^ 8) × (a ≢ 0x0D)
unfolding valid_address
address_byte a h = ground arith

module _ {F W : Type 0} where
  -- A string in the array is sent up to its NUL.
  pub send_string :
      (s : Sensor F W) (text rest : List ℕ)
      → s.cb.send_response ≡ true
      → s.resp_len ≡ 0
      → s.resp_buf ≡ text ++ 0 ∷ rest
      → NoNul text
      → send_response s ≡ some (record s { trace = s.trace ++ sent text ∷ [] })
  unfolding send_response transmit response_length
  send_string s text rest on nolen e h =
      let found : strlen s.resp_buf ≡ some (length text) =
        ap strlen e ∙ strlen-append text rest h in
      let cut : take (length text) s.resp_buf ≡ text =
        ap (take (length text)) e ∙ take-append (length text) text (0 ∷ rest) refl in
      let inside : length text ≤ length s.resp_buf =
        omega (arith, ap length e, length-append text (0 ∷ rest)) in
      ground arith

  -- With resp_len set, that many bytes are sent.
  pub send_bytes :
      (s : Sensor F W) (n : ℕ)
      → s.cb.send_response ≡ true
      → s.resp_len ≡ suc n
      → suc n ≤ length s.resp_buf
      → send_response s ≡ some (record s { trace = s.trace ++ sent (take (suc n) s.resp_buf) ∷ [] })
  unfolding send_response transmit response_length
  send_bytes s n on e h = ground arith

  -- A text that fits is sent whole, and the array stays an array.
  pub reply_lem :
      (s : Sensor F W) (text : List ℕ)
      → s.cb.send_response ≡ true
      → s.resp_len ≡ 0
      → IsBuffer s.resp_buf
      → IsText 81 text
      → reply text s
        ≡ some (
          ok,
          record s {
            resp_buf = text ++ 0 ∷ drop (length text + 1) s.resp_buf;
            trace = s.trace ++ sent text ∷ [];
          },
        )
  unfolding reply
  reply_lem s text on nolen b h =
      let rest = drop (length text + 1) s.resp_buf in
      rw (snprintf_fits s.resp_buf text (omega arith))
        (rw (send_string (record s { resp_buf = text ++ 0 ∷ rest }) text rest on nolen refl h.1))

-- A string and its NUL over the front of the array.
pub line-IsBuffer :
    (text buf : List ℕ)
    → IsText 81 text
    → IsBuffer buf
    → IsBuffer (text ++ 0 ∷ drop (length text + 1) buf)
line-IsBuffer text buf (fits, _, bytes) (size, all) =
    let rest = drop (length text + 1) buf in
    (
      omega (arith, length-append text (0 ∷ rest), length-drop (length text + 1) buf),
      All-append IsByte text (0 ∷ rest) bytes
          (omega arith, All-drop IsByte (length text + 1) buf all),
    )

pub cons-IsText :
    (a n : ℕ) (body : List ℕ) → valid_address a ≡ true → IsText n body → IsText (suc n) (a ∷ body)
cons-IsText a n body h (fits, nonul, bytes) =
    let (nz, small, _) = address_byte a h in (omega arith, (nz, nonul), (small, bytes))

pub append-IsText :
    (m n : ℕ) (xs ys : List ℕ) → IsText m xs → IsText n ys → IsText (m + n) (xs ++ ys)
append-IsText m n xs ys (fx, nx, bx) (fy, ny, by) = (
  omega (arith, length-append xs ys),
  All-append (λ c. c ≢ 0) xs ys nx ny,
  All-append IsByte xs ys bx by,
)

pub IsText-mono : (m n : ℕ) (xs : List ℕ) → m ≤ n → IsText m xs → IsText n xs
IsText-mono m n xs le h = (omega arith, h.1, h.2)

pub replicate-IsText : (n c : ℕ) → c ≢ 0 → IsByte c → IsText n (replicate n c)
replicate-IsText zero c nz small = omega arith
replicate-IsText (suc n) c nz small =
    let (fits, nonul, bytes) = replicate-IsText n c nz small in
    (omega arith, (nz, nonul), (small, bytes))

pub pad_right-IsText : (n : ℕ) (text : List ℕ) → IsText n text → IsText n (pad_right n text)
unfolding pad_right
pad_right-IsText n text h = rw (take_all n text h.0) (
    IsText-mono (length text + (n - length text)) n _ (omega arith) (
      append-IsText (length text) (n - length text) text _ (omega arith, h.1, h.2)
        (replicate-IsText (n - length text) b' ' (omega arith) (omega arith))))

-- The identification behind the address.
abbrev ident_body : Ident → List ℕ
ident_body i =
    codes "14"
    ++ (pad_right 8 i.vendor
        ++ (pad_right 6 i.model ++ (pad_right 3 i.firmware_version ++ (i.serial ++ crlf))))

identification-IsText : (i : Ident) → IsIdent i → IsText 80 (ident_body i)
identification-IsText i (vendor, model, version, serial) =
    let d = i.serial ++ crlf in
    let c = pad_right 3 i.firmware_version ++ d in
    let b = pad_right 6 i.model ++ c in
    let a = pad_right 8 i.vendor ++ b in
    IsText-mono 34 80 (codes "14" ++ a) (omega arith) (
      append-IsText 2 32 (codes "14") a (omega arith) (
        append-IsText 8 24 _ b (pad_right-IsText 8 i.vendor vendor) (
          append-IsText 6 18 _ c (pad_right-IsText 6 i.model model) (
            append-IsText 3 15 _ d (pad_right-IsText 3 i.firmware_version version)
              (append-IsText 13 2 i.serial crlf serial (omega arith))))))

module _ {F W : Type 0} (fl : Floats F) where
  -- The array holds the address and a text, and is sent.
  pub send_line-Answers :
      (s : Sensor F W) (body rest : List ℕ)
      → IsValid fl s
      → s.resp_len ≡ 0
      → s.resp_buf ≡ s.address ∷ (body ++ 0 ∷ rest)
      → NoNul body
      → Answers fl s.trace (send_response s >>= λ s'. some (ok, s'))
  send_line-Answers s body rest v nolen e h =
      let (nz, _, _) = address_byte s.address v.0.address_valid in
      rw (send_string s (s.address ∷ body) rest v.0.sends nolen e (nz, h))
        (v, answered body refl refl)

  -- Any answer of one line behind the address.
  pub reply-Answers :
      (s : Sensor F W) (body : List ℕ)
      → IsValid fl s
      → s.resp_len ≡ 0
      → IsText 80 body
      → Answers fl s.trace (reply (s.address ∷ body) s)
  reply-Answers s body (config, buffer, cache) nolen h =
      let text = cons-IsText s.address 80 body config.address_valid h in
      rw (reply_lem s (s.address ∷ body) config.sends nolen buffer text) (
        (config, line-IsBuffer (s.address ∷ body) s.resp_buf text buffer, cache),
        answered body refl refl,
      )

  pub handle_acknowledge-Answers :
      (s : Sensor F W) → IsValid fl s → s.resp_len ≡ 0 → Answers fl s.trace (handle_acknowledge s)
  unfolding handle_acknowledge
  handle_acknowledge-Answers s v nolen = reply-Answers s crlf v nolen (omega arith)

  pub handle_highvol_stub-Answers :
      (s : Sensor F W) → IsValid fl s → s.resp_len ≡ 0 → Answers fl s.trace (handle_highvol_stub s)
  unfolding handle_highvol_stub
  handle_highvol_stub-Answers s v nolen =
      reply-Answers s (codes "000000" ++ crlf) v nolen (omega arith)

  -- The identification is sent whole.
  pub handle_identify-sends :
      (s : Sensor F W)
      → IsValid fl s
      → s.resp_len ≡ 0
      → (s' : Sensor F W) × (handle_identify s ≡ some (ok, s'))
        × (s'.trace ≡ s.trace ++ sent (identification s) ∷ [])
  unfolding handle_identify identification
  handle_identify-sends s (config, buffer, cache) nolen =
      let text =
        cons-IsText s.address 80 (ident_body s.ident) config.address_valid
          (identification-IsText s.ident config.ident_valid) in
      (_, reply_lem s (identification s) config.sends nolen buffer text, refl)

  pub handle_identify-Answers :
      (s : Sensor F W) → IsValid fl s → s.resp_len ≡ 0 → Answers fl s.trace (handle_identify s)
  unfolding handle_identify identification
  handle_identify-Answers s v nolen =
      reply-Answers s (ident_body s.ident) v nolen (identification-IsText s.ident v.0.ident_valid)
