-- ===== src/Master/Describe.antt =====
-- sdi12_master.c: sdi12_master_identify_param, with the metadata that sdi12_sensor.c sends.
use libsdi.Base.{
  ℕ, ◌+◌, ◌/◌, ◌%◌, ◌≤◌, ◌<◌, ◌≡◌, ◌≢◌, refl, ap, ◌∙◌, true, false, List, [], ◌∷◌, ◌++◌,
  append_assoc, some, All, All-append, arith, length, length-append, take-append, drop_past,
  take_all, ltb, leb, ◌==◌,
}
use libsdi.Base.Text.{zero_pad, zero_pad_three}
use libsdi.Crc.{crlf}
use libsdi.Protocol.{ok, valid_address}
use libsdi.Sensor.Types.{Param}
use libsdi.Sensor.Valid.{IsParam}
use libsdi.Sensor.Metadata.{metadata_text}
use libsdi.Master.Bus.{Master, response_timeout_ms}
use libsdi.Master.Transact.{IsMaster}
use libsdi.Master.Line.{IsInner, transact_line}
use libsdi.Master.Identify.{valid-IsInner}
use libsdi.Master.Metadata.{
  ParamMetaResponse, width_to, parse_fields, parse_param_meta, described, identify_parameter,
}

width_to-append :
    (c : ℕ) (xs rest : List ℕ) → All (λ x. x ≢ c) xs → width_to c (xs ++ c ∷ rest) ≡ length xs
unfolding width_to
width_to-append c [] rest h = ground arith
width_to-append c (x ∷ xs) rest h = ground (arith, width_to-append c xs rest h.1, h.0)

-- A text up to its separator, and what is behind it.
fields_read :
    (shef units trailer : List ℕ) (resp : ParamMetaResponse)
    → length shef ≤ 7
    → length units ≤ 23
    → All (λ c. c ≢ b',') shef
    → All (λ c. c ≢ b';') units
    → parse_fields (shef ++ b',' ∷ (units ++ b';' ∷ trailer)) resp
      ≡ (ok, record resp { shef = shef; units = units })
unfolding parse_fields
fields_read shef units trailer resp few less comma semicolon =
    let after = units ++ b';' ∷ trailer in
    let n = length shef in
    let found = width_to-append b',' shef after comma in
    let inside : leb (length (shef ++ b',' ∷ after)) n ≡ false =
      ground (arith, length-append shef (b',' ∷ after)) in
    rw
      (
        found,
        inside,
        take-append n shef (b',' ∷ after) refl,
        drop_past (n + 1) shef (b',' ∷ after) 1 refl,
        width_to-append b';' units trailer semicolon,
        take-append (length units) units (b';' ∷ trailer) refl,
        take_all 7 shef few,
        take_all 23 units less,
      )
      refl

-- The metadata of a parameter do not contain what separates them, nor what ends a line.
abbrev pub IsPlain : Param → Type 0
IsPlain p =
    All (λ c. c ≢ b',') p.shef
    × All (λ c. c ≢ b';') p.units
    × All IsInner p.shef
    × All IsInner p.units

metadata_text-append :
    (a : ℕ) (p : Param) (t : List ℕ)
    → metadata_text a p ++ t ≡ a ∷ b',' ∷ (p.shef ++ b',' ∷ (p.units ++ b';' ∷ t))
unfolding metadata_text
metadata_text-append a p t =
    ap (λ (u : List ℕ). a ∷ b',' ∷ u)
      (append_assoc p.shef (b',' ∷ (p.units ++ b';' ∷ [])) t
        ∙ ap (λ (u : List ℕ). p.shef ++ b',' ∷ u) (append_assoc p.units (b';' ∷ []) t))

metadata_text-IsInner :
    (a : ℕ) (p : Param) → valid_address a ≡ true → IsPlain p → All IsInner (metadata_text a p)
unfolding metadata_text
metadata_text-IsInner a p h (c, s, shef, units) =
    let mark : (x : ℕ) → 0x0D < x → IsInner x = λ x k. (omega (arith, k), omega (arith, k)) in
    let tail = All-append IsInner p.units (b';' ∷ []) units (mark b';' (omega arith), tt) in
    (
      valid-IsInner a h,
      (
        mark b',' (omega arith),
        All-append IsInner p.shef (b',' ∷ (p.units ++ b';' ∷ [])) shef
            (mark b',' (omega arith), tail),
      ),
    )

parse_param_meta-metadata_text :
    (a : ℕ) (p : Param) (trailer rest : List ℕ)
    → IsParam p
    → IsPlain p
    → parse_param_meta a
        ((metadata_text a p ++ trailer) ++ rest)
        (length (metadata_text a p ++ trailer))
      ≡ (ok, record { address = a; shef = p.shef; units = p.units })
unfolding parse_param_meta
parse_param_meta-metadata_text a p trailer rest ((ls, ns, bs), (lu, nu, bu), g) (c, s, is, iu) =
    let text = metadata_text a p ++ trailer in
    let shape = metadata_text-append a p trailer in
    let body = p.shef ++ b',' ∷ (p.units ++ b';' ∷ trailer) in
    let cut = take-append (length (a ∷ b',' ∷ body)) (a ∷ b',' ∷ body) rest refl in
    let same : (a == a) ≡ true = ground arith in
    let enough : ltb (length (a ∷ b',' ∷ body)) 4 ≡ false = ground (
      arith,
      length-append p.shef (b',' ∷ (p.units ++ b';' ∷ trailer)),
      length-append p.units (b';' ∷ trailer),
    ) in
    let read =
      fields_read p.shef p.units trailer (record { address = a; shef = []; units = [] })
        (omega (arith, ls)) (omega (arith, lu)) c s in
    rw (shape, enough, same, cut) read

length-identify_command :
    (a n : ℕ) (cmd_body : List ℕ)
    → n < 1000
    → length cmd_body ≤ 13
    → length (a ∷ b'I' ∷ (cmd_body ++ b'_' ∷ (zero_pad 3 n ++ b'!' ∷ []))) ≤ 20
length-identify_command a n cmd_body h k = rw (zero_pad_three n h) (
    omega (
      arith,
      length-append cmd_body
          (b'_' ∷ (b'0' + n / 100) ∷ (b'0' + n / 10 % 10) ∷ (b'0' + n % 10) ∷ b'!' ∷ []),
    ))

module _ {W : Type 0} where
  -- The data recorder reads back the metadata of a parameter: for a valid address, a command of at
  -- most 13 characters and a number below 1000, if what comes back is the text in which the sensor
  -- describes the parameter (with no comma in its SHEF code and no semicolon in its units), then
  -- any characters that do not end a line, such as a CRC, then CR and LF, it returns SDI12_OK with
  -- that address, that SHEF code and these units.
  pub identify_parameter_lem :
      (a n : ℕ) (cmd_body trailer : List ℕ) (p : Param) (m : Master W)
      → valid_address a ≡ true
      → n < 1000
      → length cmd_body ≤ 13
      → IsParam p
      → IsPlain p
      → All IsInner trailer
      → IsMaster m
      → (m.recv 85 response_timeout_ms
          (m.send (a ∷ b'I' ∷ (cmd_body ++ b'_' ∷ (zero_pad 3 n ++ b'!' ∷ []))) m.world)).0
        ≡ (metadata_text a p ++ trailer) ++ crlf
      → (m' : Master W) × (identify_parameter a cmd_body n m
          ≡ some ((ok, some (record { address = a; shef = p.shef; units = p.units })), m'))
  unfolding identify_parameter described
  identify_parameter_lem a n cmd_body trailer p m h small short hp plain inner v e =
      let text = metadata_text a p ++ trailer in
      let cmd = a ∷ b'I' ∷ (cmd_body ++ b'_' ∷ (zero_pad 3 n ++ b'!' ∷ [])) in
      let fits : length cmd ≤ 20 = length-identify_command a n cmd_body small short in
      let whole = take_all 23 cmd (omega (arith, fits)) in
      let all_inner =
        All-append IsInner (metadata_text a p) trailer (metadata_text-IsInner a p h plain) inner in
      let long : 1 ≤ length text = ground (arith, metadata_text-append a p trailer) in
      let (m₁, sent, (rest, trimmed)) =
        transact_line cmd text response_timeout_ms m fits v long all_inner e in
      let read = parse_param_meta-metadata_text a p trailer (0 ∷ 0 ∷ rest) hp plain in
      (record m₁ { resp_buf = text ++ 0 ∷ 0 ∷ rest }, rw (h, whole, sent, trimmed, read) refl)
