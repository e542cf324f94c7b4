-- ===== src/Sensor/CrcLine.antt =====
-- sdi12_crc_append on a response line: the address stays in front, and the array holds a string.
use libsdi.Base.{
  ℕ, zero, suc, ◌+◌, ◌-◌, ◌≤◌, ◌≡◌, ◌≢◌, refl, sym, ap, ◌∙◌, Bool, true, false, List, [], ◌∷◌, ◌++◌,
  append_assoc, some, All, All-append, All-take, All-take_le, All-drop, arith, length, take, drop,
  ◌>>=◌,
}
use libsdi.Base.Buffer.{
  overwrite, length-overwrite, strlen, strlen-append, strlen_sound, snprintf, snprintf_fits, NoNul,
}
use libsdi.Crc.{crlf, crc16, crc_encode_ascii, strip_crlf, crc_append, crc_verify, crc_loop}
use libsdi.Crc.Step.{IsByte}
use libsdi.Crc.Encode.{crc_encode_ascii_lem}
use libsdi.Crc.RoundTrip.{
  frame, trailer, length-trailer, stored-frame, crc16-IsWord, crc16-take, crc_verify_framed,
  strip_crlf-le, crc_append_cases,
}
use libsdi.Protocol.{ok, max_response_len}
use libsdi.Sensor.Types.{Floats, Sensor}
use libsdi.Sensor.Reply.{send_response}
use libsdi.Sensor.Measure.{reply_address}
use libsdi.Sensor.Valid.{IsText, IsBuffer, IsValid, Answers}
use libsdi.Sensor.Answer.{address_byte, line-IsBuffer, send_line-Answers, reply-Answers}

-- Data that begins with no CR is not stripped away.
pub strip_pos : (a n : ℕ) (tl : List ℕ) → a ≢ 0x0D → 1 ≤ strip_crlf (a ∷ tl) (suc n)
unfolding strip_crlf
strip_pos a zero tl h = ground arith
strip_pos a (suc zero) tl h = ground arith
strip_pos a (suc (suc n)) tl h = ground arith

pub trailer-bytes :
    (buf : List ℕ) (d : ℕ)
    → All IsByte buf
    → All IsByte (trailer buf d) × NoNul (crc_encode_ascii (crc16 buf d) ++ crlf)
trailer-bytes buf d h =
    let word = crc16-IsWord buf d h in
    rw (crc_encode_ascii_lem _ word) (omega (arith, word), omega arith)

-- What the array holds: the address, a text and a NUL.
abbrev pub Line : ℕ → List ℕ → Type 0
Line a buf = (body : List ℕ) × (rest : List ℕ) × (buf ≡ a ∷ (body ++ 0 ∷ rest)) × NoNul body

frame-Line :
    (buf tail front : List ℕ) (a d : ℕ)
    → All IsByte buf
    → NoNul front
    → Line a (frame (a ∷ front) (crc_encode_ascii (crc16 buf d)) (0 ∷ tail))
frame-Line buf tail front a d h nonul =
    let code = crc_encode_ascii (crc16 buf d) in
    (
      front ++ (code ++ crlf),
      tail,
      ap (◌∷◌ a) (
          sym (
            append_assoc front (code ++ crlf) (0 ∷ tail)
            ∙ ap (◌++◌ front) (append_assoc code crlf (0 ∷ tail)))),
      All-append (λ c. c ≢ 0) front (code ++ crlf) nonul (trailer-bytes buf d h).1,
    )

pub overwrite-IsBuffer :
    (buf bytes : List ℕ) (pos : ℕ)
    → IsBuffer buf
    → All IsByte bytes
    → pos + length bytes ≤ max_response_len
    → IsBuffer (overwrite buf pos bytes)
overwrite-IsBuffer buf bytes pos (size, all) hb h = (
  length-overwrite buf pos bytes (omega arith) ∙ size,
  All-append IsByte (take pos buf) _ (All-take IsByte pos buf all)
      (All-append IsByte bytes _ hb (All-drop IsByte (pos + length bytes) buf all)),
)

-- What a line is that has been ended with a CRC or without: with a CRC, sdi12_crc_verify accepts it.
abbrev pub Ends : Bool → List ℕ → Type 0
Ends true text = crc_verify text (length text) ≡ true
Ends false text = Unit {0}

-- The line of at most 76 characters gets its CRC, CR and LF.
pub crc_append-Line :
    (buf tl : List ℕ) (a n : ℕ)
    → IsBuffer buf
    → buf ≡ a ∷ tl
    → a ≢ 0x0D
    → strlen buf ≡ some (suc n)
    → n ≤ 75
    → (out : List ℕ) × (crc_append buf max_response_len ≡ some (ok, out))
      × IsBuffer out
      × ((line : Line a out) × Ends true (a ∷ line.0))
unfolding frame-Line strip_crlf
crc_append-Line buf tl a n (size, all) e ha found h =
    let d = strip_crlf buf (suc n) in
    let low : 1 ≤ d = rw e (strip_pos a n tl ha) in
    let high : d ≤ suc n = strip_crlf-le buf (suc n) in
    let k : ℕ = d - 1 in
    let dk : d ≡ suc k = omega arith in
    let cut : take d buf ≡ a ∷ take k tl = ap (λ (m : ℕ). take m buf) dk ∙ ap (take (suc k)) e in
    let nonul : NoNul (take d buf) =
      All-take_le (λ c. c ≢ 0) d (suc n) buf high (strlen_sound buf (suc n) found).1 in
    let front : NoNul (a ∷ take k tl) = rw cut at nonul in
    let out = overwrite buf d (trailer buf d) in
    let whole : out
        ≡ frame (a ∷ take k tl) (crc_encode_ascii (crc16 buf d)) (0 ∷ drop (d + 6) buf) =
      stored-frame buf d all
      ∙ ap (λ t. frame t (crc_encode_ascii (crc16 buf d)) (0 ∷ drop (d + 6) buf)) cut in
    let (body, rest, shape, clean) =
      frame-Line buf (drop (d + 6) buf) (take k tl) a d all front.1 in
    (
      out,
      crc_append_cases buf (suc n) max_response_len all (omega arith) found ∙ ground arith,
      overwrite-IsBuffer buf (trailer buf d) d (size, all) (trailer-bytes buf d all).0
          (omega (arith, length-trailer buf d all)),
      (
        (body, rest, whole ∙ shape, clean),
        crc_verify_framed (a ∷ take k tl) (crc16 buf d) (rw cut at (All-take IsByte d buf all))
            (omega arith) (crc16-take buf d ∙ ap (crc_loop 0) cut),
      ),
    )

-- An array that holds a line, terminated by the CRC.
pub Line-crc_append :
    (buf : List ℕ) (a : ℕ)
    → IsBuffer buf
    → a ≢ 0
    → a ≢ 0x0D
    → (line : Line a buf) → length line.0 ≤ 75
    → (out : List ℕ) × (crc_append buf max_response_len ≡ some (ok, out))
      × IsBuffer out
      × ((line : Line a out) × Ends true (a ∷ line.0))
Line-crc_append buf a b nz ncr (body, rest, e, clean) h =
    crc_append-Line buf (body ++ 0 ∷ rest) a (length body) b e ncr
      (ap strlen e ∙ strlen-append (a ∷ body) rest (nz, clean)) h

module _ {F W : Type 0} (fl : Floats F) where
  pub send_Line-Answers :
      (s : Sensor F W)
      → IsValid fl s
      → s.resp_len ≡ 0
      → Line s.address s.resp_buf
      → Answers fl s.trace (send_response s >>= λ s'. some (ok, s'))
  send_Line-Answers s v nolen (body, rest, e, clean) =
      send_line-Answers fl s body rest v nolen e clean

  -- The answer that is only the address, with and without a CRC.
  pub reply_address-Answers :
      (crc : Bool) (s : Sensor F W)
      → IsValid fl s
      → s.resp_len ≡ 0
      → Answers fl s.trace (reply_address crc s)
  unfolding reply_address
  reply_address-Answers false s v nolen = reply-Answers fl s crlf v nolen (omega arith)
  reply_address-Answers true s (config, buffer, cache) nolen =
      let a = s.address in
      let (nz, small, ncr) = address_byte a config.address_valid in
      let text : IsText 81 (a ∷ []) = (omega arith, (nz, tt), (small, tt)) in
      let shown : snprintf s.resp_buf (a ∷ []) ≡ a ∷ ([] ++ 0 ∷ drop 2 s.resp_buf) =
        snprintf_fits s.resp_buf (a ∷ []) (omega arith) in
      let array = line-IsBuffer (a ∷ []) s.resp_buf text buffer in
      let (out, e, b, (line, verified)) =
        Line-crc_append (a ∷ 0 ∷ drop 2 s.resp_buf) a array nz ncr ([], drop 2 s.resp_buf, refl, tt)
          (omega arith) in
      rw (shown, e) (send_Line-Answers (record s { resp_buf = out }) (config, b, cache) nolen line)
