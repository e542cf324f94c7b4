-- ===== src/Sensor/Valid.antt =====
-- The well-formed sensor (sdi12_sensor_ctx_t between calls), and what is expected of its callbacks.
use libsdi.Base.{ℕ, ◌≤◌, ◌<◌, ◌≡◌, ◌≢◌, true, List, [], ◌∷◌, ◌++◌, Option, none, some, All, length}
use libsdi.Base.Buffer.{byte_at, strlen, NoNul}
use libsdi.Crc.{crlf}
use libsdi.Crc.Step.{IsByte}
use libsdi.Protocol.{
  Err, ok, max_response_len, max_params, max_xcmds, max_meas_groups, value_max_chars, valid_address,
}
use libsdi.Sensor.Types.{
  Floats, Value, Ident, Callbacks, Param, Xcmd, Sensor, Event, sent, saved, Run,
}
use libsdi.Sensor.Pages.{value_text}

-- A string of at most `n` characters.
abbrev pub IsText : ℕ → List ℕ → Type 0
IsText n text = (length text ≤ n) × NoNul text × All IsByte text

-- A response array.
abbrev pub IsBuffer : List ℕ → Type 0
IsBuffer buf = (length buf ≡ max_response_len) × All IsByte buf

abbrev pub IsParam : Param → Type 0
IsParam p = IsText 3 p.shef × IsText 20 p.units × (p.group < max_meas_groups)

abbrev pub IsIdent : Ident → Type 0
IsIdent i = IsText 8 i.vendor × IsText 6 i.model × IsText 3 i.firmware_version × IsText 13 i.serial

-- A value whose text fits SDI12_VALUE_MAX_CHARS, a sign, seven digits and a point.
abbrev pub IsPrintable : {F : Type 0} → Floats F → Value F → Type 0
IsPrintable fl v = IsText value_max_chars (value_text fl v)

-- The handler of an extended command is given the array with the address as a string of one
-- character, and leaves in it a string that starts with that character.
abbrev pub IsXcmd : {W : Type 0} → Xcmd W → Type 0
IsXcmd {W} x =
    (a : ℕ) (str rest : List ℕ) (w : W)
    → IsBuffer (a ∷ 0 ∷ rest)
    → IsBuffer (x.handler str (a ∷ 0 ∷ rest) w).0.1
      × (byte_at (x.handler str (a ∷ 0 ∷ rest) w).0.1 0 ≡ a)
      × ((n : ℕ) × (strlen (x.handler str (a ∷ 0 ∷ rest) w).0.1 ≡ some n))

abbrev pub IsCache : {F : Type 0} → Floats F → List (Value F) → Type 0
IsCache fl vs = (length vs ≤ max_params) × All (IsPrintable fl) vs

module _ {F W : Type 0} where
  -- read_param returns printable values.
  abbrev pub ReadOk : Floats F → Option (ℕ → W → Value F × W) → Type 0
  ReadOk fl none = Unit {0}
  ReadOk fl (some read) = (i : ℕ) (w : W) → IsPrintable fl (read i w).0

  -- format_binary_page writes inside the array, leaves the address in front, and counts at most the
  -- 76 bytes that fit with the address, the CRC and the terminator.
  abbrev pub BinaryOk : Option (ℕ → List (Value F) → List ℕ → W → (ℕ × List ℕ) × W) → Type 0
  BinaryOk none = Unit {0}
  BinaryOk (some format) =
      (page : ℕ) (vs : List (Value F)) (buf : List ℕ) (w : W)
      → IsBuffer buf
      → ((format page vs buf w).0.0 ≤ 76)
        × IsBuffer (format page vs buf w).0.1
        × (byte_at (format page vs buf w).0.1 0 ≡ byte_at buf 0)

  -- What no command but a change of address touches.
  pub record IsConfig (fl : Floats F) (address : ℕ) (ident : Ident) (cb : Callbacks F W)
      (params : List Param) (xcmds : List (Xcmd W)) : Type 0 where
    pub address_valid : valid_address address ≡ true
    pub ident_valid : IsIdent ident
    pub sends : cb.send_response ≡ true
    pub read_ok : ReadOk fl cb.read_param
    pub binary_ok : BinaryOk cb.format_binary_page
    pub params_fit : length params ≤ max_params
    pub params_valid : All IsParam params
    pub xcmds_fit : length xcmds ≤ max_xcmds
    pub xcmds_valid : All IsXcmd xcmds

  abbrev pub IsValid : Floats F → Sensor F W → Type 0
  IsValid fl s =
      IsConfig fl s.address s.ident s.cb s.params s.xcmds
      × IsBuffer s.resp_buf
      × IsCache fl s.data_cache

  -- What a command may do on the bus: stay silent and fail, or send one response that starts with
  -- the address, after the new address has been saved if the command changes it.
  pub data Answer (before : List Event) (e : Err) (s : Sensor F W) : Type 0 where
    silent : s.trace ≡ before → e ≢ ok → Answer before e s
    answered :
        (body : List ℕ)
        → e ≡ ok
        → s.trace ≡ before ++ sent (s.address ∷ body) ∷ []
        → Answer before e s
    renamed :
        e ≡ ok
        → s.trace ≡ before ++ saved s.address ∷ sent (s.address ∷ crlf) ∷ []
        → Answer before e s

  -- A run that ends inside the arrays, with `P` of the code and the sensor that it returns.
  abbrev pub Returns : Run F W → (Err → Sensor F W → Type 0) → Type 0
  Returns none P = ⊥
  Returns (some (e, s)) P = P e s

  -- The run ends well, and answers as a command may.
  abbrev pub Answers : Floats F → List Event → Run F W → Type 0
  Answers fl before run = Returns run (λ e s. IsValid fl s × Answer before e s)
