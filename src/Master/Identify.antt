-- ===== src/Master/Identify.antt =====
-- sdi12_master.c: sdi12_master_query_address and sdi12_master_identify, with what sdi12_sensor.c
-- answers to the identification command.
use libsdi.Base.{
  ℕ, suc, ◌+◌, ◌-◌, ◌≤◌, ◌≡◌, refl, sym, ap, ◌∙◌, true, false, List, [], ◌∷◌, ◌++◌, append_assoc,
  some, take, All, All-append, arith, codes, length, length-append, take-append, drop_past, ltb,
  min, if◌then◌else◌,
}
use libsdi.Base.Text.{pad_right, length-pad_right, All-pad_right}
use libsdi.Crc.{crlf}
use libsdi.Protocol.{ok, valid_address}
use libsdi.Sensor.Types.{Ident, Sensor}
use libsdi.Sensor.Valid.{IsIdent}
use libsdi.Sensor.Reply.{identification}
use libsdi.Master.Bus.{response_timeout_ms, Master}
use libsdi.Master.Transact.{IsMaster}
use libsdi.Master.Line.{IsInner, transact_line}
use libsdi.Master.Setup.{query_address, queried, parse_ident, identified, identify}

pub valid-IsInner : (a : ℕ) → valid_address a ≡ true → IsInner a
unfolding valid_address
valid-IsInner a h = (ground arith, ground arith)

module _ {W : Type 0} where
  -- Asked for the address of the only sensor, a well-formed data recorder returns SDI12_OK and the
  -- address if a valid address, CR and LF come back.
  query_address_lem :
      (a : ℕ) (m : Master W)
      → valid_address a ≡ true
      → IsMaster m
      → (m.recv 85 response_timeout_ms (m.send (codes "?!") m.world)).0 ≡ a ∷ crlf
      → (m' : Master W) × (query_address m ≡ some ((ok, some a), m'))
  unfolding query_address queried
  query_address_lem a m h v e =
      let (m₁, sent, (rest, trimmed)) =
        transact_line (codes "?!") (a ∷ []) response_timeout_ms m (omega arith) v (omega arith)
          (valid-IsInner a h, tt) e in
      (record m₁ { resp_buf = a ∷ 0 ∷ 0 ∷ rest }, rw (sent, trimmed, h) refl)

-- The serial number behind the fields of fixed width.
serial_read :
    (serial tail : List ℕ)
    → length serial ≤ 13
    → (if ltb 20 (20 + length serial)
        then take (min (20 + length serial - 20) 13) (serial ++ tail)
        else [])
      ≡ serial
serial_read [] tail h = refl
serial_read (c ∷ serial) tail h =
    let longer : ltb 20 (20 + suc (length serial)) ≡ true = ground arith in
    rw longer (take-append (min (20 + suc (length serial) - 20) 13) (c ∷ serial) tail (omega arith))

-- Fields of their widths are read back.
parse_ident_fields :
    (a x y : ℕ) (vendor model fw serial tail : List ℕ)
    → length vendor ≡ 8
    → length model ≡ 6
    → length fw ≡ 3
    → length serial ≤ 13
    → parse_ident (a ∷ x ∷ y ∷ (vendor ++ (model ++ (fw ++ (serial ++ tail))))) (20 + length serial)
      ≡ record { vendor = vendor; model = model; firmware_version = fw; serial = serial }
unfolding parse_ident
parse_ident_fields a x y vendor model fw serial tail v n f s =
    let text₂ = fw ++ (serial ++ tail) in
    let text₁ = model ++ text₂ in
    rw
      (
        take-append 8 vendor text₁ (omega (arith, v)),
        drop_past 8 vendor text₁ 0 (omega (arith, v)),
        take-append 6 model text₂ (omega (arith, n)),
        drop_past 14 vendor text₁ 6 (omega (arith, v)),
        drop_past 6 model text₂ 0 (omega (arith, n)),
        take-append 3 fw (serial ++ tail) (omega (arith, f)),
        drop_past 17 vendor text₁ 9 (omega (arith, v)),
        drop_past 9 model text₂ 3 (omega (arith, n)),
        drop_past 3 fw (serial ++ tail) 0 (omega (arith, f)),
        serial_read serial tail s,
      )
      refl

fields_assoc : (p q r s t : List ℕ) → (p ++ (q ++ (r ++ s))) ++ t ≡ p ++ (q ++ (r ++ (s ++ t)))
fields_assoc p q r s t =
    append_assoc p (q ++ (r ++ s)) t
    ∙ ap (λ (u : List ℕ). p ++ u)
        (append_assoc q (r ++ s) t ∙ ap (λ (u : List ℕ). q ++ u) (append_assoc r s t))

-- No field of an identity ends a line.
abbrev pub IsInnerIdent : Ident → Type 0
IsInnerIdent i =
    All IsInner i.vendor
    × All IsInner i.model
    × All IsInner i.firmware_version
    × All IsInner i.serial

-- The fields that the sensor sends.
abbrev pub padded : Ident → Ident
padded i = record {
  vendor = pad_right 8 i.vendor;
  model = pad_right 6 i.model;
  firmware_version = pad_right 3 i.firmware_version;
  serial = i.serial;
}

-- The identification of a sensor with an address and an identity, without CR and LF.
abbrev id_text : ℕ → Ident → List ℕ
id_text a i =
    let j = padded i in
    a ∷ b'1' ∷ b'4' ∷ (j.vendor ++ (j.model ++ (j.firmware_version ++ j.serial)))

length-id_text : (a : ℕ) (i : Ident) → length (id_text a i) ≡ 20 + length i.serial
length-id_text a i =
    let j = padded i in
    omega (
      arith,
      length-pad_right 8 i.vendor,
      length-pad_right 6 i.model,
      length-pad_right 3 i.firmware_version,
      length-append j.vendor (j.model ++ (j.firmware_version ++ j.serial)),
      length-append j.model (j.firmware_version ++ j.serial),
      length-append j.firmware_version j.serial,
    )

id_text-IsInner :
    (a : ℕ) (i : Ident) → valid_address a ≡ true → IsInnerIdent i → All IsInner (id_text a i)
id_text-IsInner a i h (iv, im, ifw, isn) =
    let space : IsInner b' ' = (omega arith, omega arith) in
    let j = padded i in
    let tail =
      All-append IsInner j.firmware_version j.serial
        (All-pad_right IsInner 3 i.firmware_version space ifw) isn in
    let behind =
      All-append IsInner j.model (j.firmware_version ++ j.serial)
        (All-pad_right IsInner 6 i.model space im) tail in
    (
      valid-IsInner a h,
      (
        (omega arith, omega arith),
        (
          (omega arith, omega arith),
          All-append IsInner j.vendor (j.model ++ (j.firmware_version ++ j.serial))
              (All-pad_right IsInner 8 i.vendor space iv) behind,
        ),
      ),
    )

id_text-line :
    (a : ℕ) (i : Ident) (t : List ℕ)
    → let j = padded i in
      id_text a i ++ t
      ≡ a ∷ b'1' ∷ b'4' ∷ (j.vendor ++ (j.model ++ (j.firmware_version ++ (j.serial ++ t))))
id_text-line a i t =
    let j = padded i in
    ap (λ (u : List ℕ). a ∷ b'1' ∷ b'4' ∷ u)
      (fields_assoc j.vendor j.model j.firmware_version j.serial t)

-- The identification fits what a data recorder receives.
pub identification-fits :
    {F V : Type 0} (s : Sensor F V) → IsIdent s.ident → length (identification s) ≤ 85
unfolding identification
identification-fits s (hv, hm, hf, hs) =
    let text = id_text s.address s.ident in
    omega (
      arith,
      ap length (id_text-line s.address s.ident crlf),
      length-append text crlf,
      length-id_text s.address s.ident,
      hs.0,
    )

module _ {F V W : Type 0} where
  -- The data recorder reads back the identity of a sensor: if what comes back is the answer of the
  -- sensor to the identification command, from a valid address and with an identity of the field
  -- widths in which no character ends a line, then it returns SDI12_OK with the vendor, the model
  -- and the firmware version padded with spaces to their widths, and the serial number.
  pub identify_lem :
      (s : Sensor F V) (m : Master W)
      → valid_address s.address ≡ true
      → IsIdent s.ident
      → IsInnerIdent s.ident
      → IsMaster m
      → (m.recv 85 response_timeout_ms (m.send (s.address ∷ codes "I!") m.world)).0
        ≡ identification s
      → (m' : Master W) × (identify s.address m ≡ some ((ok, some (padded s.ident)), m'))
  unfolding identification identify identified
  identify_lem s m h (hv, hm, hf, hs) inner v e =
      let a = s.address in
      let text = id_text a s.ident in
      let size = length-id_text a s.ident in
      let (m₁, sent, (rest, trimmed)) =
        transact_line (a ∷ codes "I!") text response_timeout_ms m (omega arith) v (omega arith)
          (id_text-IsInner a s.ident h inner) (e ∙ sym (id_text-line a s.ident crlf)) in
      let enough : ltb (20 + length s.ident.serial) 20 ≡ false = ground arith in
      let j = padded s.ident in
      let read =
        parse_ident_fields a b'1' b'4' j.vendor j.model j.firmware_version j.serial (0 ∷ 0 ∷ rest)
          (length-pad_right 8 s.ident.vendor) (length-pad_right 6 s.ident.model)
          (length-pad_right 3 s.ident.firmware_version) hs.0 in
      let kept =
        ap (λ (u : List ℕ). parse_ident u (20 + length s.ident.serial))
          (id_text-line a s.ident (0 ∷ 0 ∷ rest)) in
      (
        record m₁ { resp_buf = text ++ 0 ∷ 0 ∷ rest },
        rw (h, sent, trimmed, size, enough, kept, read) refl,
      )
