-- ===== src/Protocol.antt =====
-- sdi12.h: the constants, the enumerations and the address test of the protocol.
use libsdi.Base.{ℕ, Bool, ◌&&◌, ◌||◌, leb}

-- SDI12_MAX_RESPONSE_LEN, SDI12_MAX_PARAMS, SDI12_MAX_XCMDS, SDI12_MAX_MEAS_GROUPS,
-- SDI12_VALUE_MAX_CHARS, SDI12_M_VALUES_MAX_CHARS, SDI12_C_VALUES_MAX_CHARS.
abbrev pub max_response_len : ℕ
max_response_len = 82

abbrev pub max_params : ℕ
max_params = 20

abbrev pub max_xcmds : ℕ
max_xcmds = 8

abbrev pub max_meas_groups : ℕ
max_meas_groups = 10

abbrev pub value_max_chars : ℕ
value_max_chars = 9

abbrev pub m_values_max_chars : ℕ
m_values_max_chars = 35

abbrev pub c_values_max_chars : ℕ
c_values_max_chars = 75

-- sdi12_meas_type_t
pub data MeasType : Type 0 where
  standard concurrent highvol_ascii highvol_binary verification continuous : MeasType

-- sdi12_state_t
pub data State : Type 0 where
  standby ready measuring measuring_c data_ready : State

-- sdi12_err_t, with SDI12_OK
pub data Err : Type 0 where
  ok : Err
  err_invalid_address err_invalid_command err_buffer_overflow err_not_addressed : Err
  err_no_data err_param_limit err_callback_missing err_timeout : Err
  err_crc_mismatch err_parse_failed err_aborted : Err

-- sdi12_valid_address: a digit or a letter. A `char` above 127 is no letter, signed or not.
unfoldable pub valid_address : ℕ → Bool
valid_address c =
    (leb b'0' c && leb c b'9') || (leb b'A' c && leb c b'Z') || (leb b'a' c && leb c b'z')
