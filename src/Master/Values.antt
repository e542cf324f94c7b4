-- ===== src/Master/Values.antt =====
-- sdi12_master.c: sdi12_master_parse_data_values, sdi12_master_get_data and sdi12_master_continuous.
-- `F` is the C type `float`, and `strtod` the conversion `(float)strtod(...)` of the C library.
use libsdi.Base.{
  ℕ, zero, suc, ◌-◌, ◌%◌, ◌^◌, Bool, not, ◌&&◌, ◌||◌, List, [], ◌∷◌, ◌++◌, Option, none, some, ltb,
  leb, ◌==◌, length, take, drop, if◌then◌else◌, ◌>>=◌, ◌>>◌, check,
}
use libsdi.Base.Buffer.{byte_at}
use libsdi.Base.Text.{is_digit, decimal}
use libsdi.Protocol.{
  Err, ok, err_invalid_address, err_invalid_command, value_max_chars, valid_address,
}
use libsdi.Sensor.Types.{Value}
use libsdi.Sensor.Metadata.{find_byte}
use libsdi.Master.Parse.{trim_crlf}
use libsdi.Master.Bus.{Master, response_timeout_ms, transact}
use libsdi.Master.Commands.{cut_to}

-- SDI12_MAX_VALUES
abbrev pub max_values : ℕ
max_values = 99

-- sdi12_data_response_t, as far as the code fills it: the values are the used part of the array, and
-- `value_count` is their number.
pub record DataResponse (F : Type 0) : Type 0 where
  pub address : ℕ
  pub values : List (Value F)

unfoldable pub skip_spaces : List ℕ → List ℕ
skip_spaces [] = []
skip_spaces (c ∷ cs) = let rest = skip_spaces cs in if c == b' ' then rest else c ∷ cs

-- The digits and points in front.
unfoldable pub number_width : List ℕ → ℕ
number_width [] = 0
number_width (c ∷ cs) =
    let width = number_width cs in if is_digit c || c == b'.' then suc width else 0

-- One round behind the white space: the text of a value if there is one, and what is left.
unfoldable pub next_value : List ℕ → Option (List ℕ) × List ℕ
next_value [] = (none, [])
next_value (c ∷ cs) =
    let width = number_width cs in
    if not (c == b'+') && not (c == b'-')
    then (none, cs)
    else (if ltb 0 width then some (c ∷ take width cs) else none, drop width cs)

unfoldable pub decimals_of : List ℕ → Option ℕ → ℕ
decimals_of vbuf none = 0
decimals_of vbuf (some dot) = (length vbuf - dot - 1) % 2 ^ 8

module _ {F : Type 0} (strtod : List ℕ → F) where
  -- The value of a text, which `vbuf` cuts to SDI12_VALUE_MAX_CHARS.
  unfoldable pub read_value : List ℕ → Value F
  unfolding decimals_of
  read_value text =
      let vbuf = take value_max_chars text in
      record { value = strtod vbuf; decimals = decimals_of vbuf (find_byte b'.' vbuf) }

  unfoldable pub add_value : Option (List ℕ) → List (Value F) → List (Value F)
  add_value none values = values
  add_value (some text) values = values ++ read_value text ∷ []

  -- The loop on what is left of the data and the values so far; `none` is out of fuel.
  unfoldable pub values_loop : ℕ → ℕ → List ℕ → List (Value F) → Option (List (Value F))
  unfolding next_value
  values_loop limit fuel [] values = some values
  values_loop limit zero (c ∷ cs) values = none
  values_loop limit (suc fuel) (c ∷ cs) values =
      let round = next_value (skip_spaces (c ∷ cs)) in
      let rest = values_loop limit fuel round.1 (add_value round.0 values) in
      if ltb (length values) limit then rest else some values

  -- sdi12_master_parse_data_values: the code, and the values; each round consumes a character.
  unfoldable pub parse_data_values : List ℕ → ℕ → ℕ → Bool → Option (Err × List (Value F))
  parse_data_values resp_str len limit verify_crc = do
    let data_len = if verify_crc && leb 3 len then len - 3 else len
    check (leb data_len (length resp_str))
    values ← values_loop limit data_len (take data_len resp_str) []
    some (ok, values)

  module _ {W : Type 0} where
    unfoldable pub parsed_data :
        Bool → List ℕ → ℕ → Master W → Option ((Err × Option (DataResponse F)) × Master W)
    parsed_data crc buf len m = do
      parsed ← parse_data_values (drop 1 buf) (len - 1) max_values crc
      some ((parsed.0, some (record { address = byte_at buf 0; values = parsed.1 })), m)

    -- What follows the transaction: the code, and `*resp` where it is written.
    unfoldable pub read_data :
        Bool → Err × Master W → Option ((Err × Option (DataResponse F)) × Master W)
    read_data crc (ok, m) = do
      trimmed ← trim_crlf m.resp_buf m.resp_len
      let m' = record m { resp_buf = trimmed.0 }
      let parsed = parsed_data crc trimmed.0 trimmed.1 m'
      if ltb trimmed.1 1 then some ((err_invalid_command, none), m') else parsed
    read_data crc (err, m) = some ((err, none), m)

    -- sdi12_master_get_data
    unfoldable pub get_data :
        ℕ → ℕ → Bool → Master W → Option ((Err × Option (DataResponse F)) × Master W)
    get_data addr page crc m =
        let cmd = cut_to 8 (addr ∷ b'D' ∷ (decimal page ++ b'!' ∷ [])) in
        if not (valid_address addr)
        then some ((err_invalid_address, none), m)
        else transact cmd response_timeout_ms m >>= read_data crc

    -- sdi12_master_continuous
    unfoldable pub read_continuous :
        ℕ → ℕ → Bool → Master W → Option ((Err × Option (DataResponse F)) × Master W)
    read_continuous addr index crc m =
        let tail = decimal index ++ b'!' ∷ [] in
        let cmd = cut_to 8 (if crc then addr ∷ b'R' ∷ b'C' ∷ tail else addr ∷ b'R' ∷ tail) in
        if not (valid_address addr)
        then some ((err_invalid_address, none), m)
        else transact cmd response_timeout_ms m >>= read_data crc
