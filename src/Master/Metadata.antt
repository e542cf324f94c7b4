-- ===== src/Master/Metadata.antt =====
-- sdi12_master.c: sdi12_master_identify_param, and the parser of its response.
use libsdi.Base.{
  ℕ, suc, ◌+◌, not, List, [], ◌∷◌, ◌++◌, Option, none, some, ltb, leb, ◌==◌, length, take, drop,
  if◌then◌else◌, ◌>>=◌,
}
use libsdi.Base.Buffer.{byte_at}
use libsdi.Base.Text.{zero_pad}
use libsdi.Protocol.{Err, ok, err_invalid_address, err_parse_failed, valid_address}
use libsdi.Master.Parse.{trim_crlf}
use libsdi.Master.Bus.{Master, cmd_max_chars, response_timeout_ms, transact}
use libsdi.Master.Commands.{cut_to}

-- sdi12_param_meta_response_t. An array holds its bytes in front of the NUL that the code puts.
pub record ParamMetaResponse : Type 0 where
  pub address : ℕ
  pub shef : List ℕ
  pub units : List ℕ

-- The structure after the `memset`.
abbrev pub blank_meta : ParamMetaResponse
blank_meta = record { address = 0; shef = []; units = [] }

-- `while (p < end && *p != c) p++`: the bytes that are skipped.
unfoldable pub width_to : ℕ → List ℕ → ℕ
width_to c [] = 0
width_to c (x ∷ xs) = let width = width_to c xs in if not (x == c) then suc width else 0

-- What follows the second character: the SHEF code up to a comma, and the units.
unfoldable pub parse_fields : List ℕ → ParamMetaResponse → Err × ParamMetaResponse
parse_fields body resp =
    let n = width_to b',' body in
    let after = drop (n + 1) body in
    let coded = record resp { shef = take 7 (take n body) } in
    if leb (length body) n
    then (err_parse_failed, resp)
    else (ok, record coded { units = take 23 (take (width_to b';' after) after) })

-- The parser on the first `len` bytes of the array.
unfoldable pub parse_param_meta : ℕ → List ℕ → ℕ → Err × ParamMetaResponse
unfolding parse_fields
parse_param_meta addr buf len =
    let named = record blank_meta { address = byte_at buf 0 } in
    if ltb len 4
    then (err_parse_failed, blank_meta)
    else if not (byte_at buf 0 == addr)
    then (err_invalid_address, blank_meta)
    else if not (byte_at buf 1 == b',')
    then (err_parse_failed, named)
    else parse_fields (drop 2 (take len buf)) named

module _ {W : Type 0} where
  unfoldable pub described :
      ℕ → Err × Master W → Option ((Err × Option ParamMetaResponse) × Master W)
  described addr (ok, m) = do
    trimmed ← trim_crlf m.resp_buf m.resp_len
    let parsed = parse_param_meta addr trimmed.0 trimmed.1
    some ((parsed.0, some parsed.1), record m { resp_buf = trimmed.0 })
  described addr (err, m) = some ((err, some blank_meta), m)

  -- sdi12_master_identify_param: the code, and `*resp` where it is written.
  unfoldable pub identify_parameter :
      ℕ → List ℕ → ℕ → Master W → Option ((Err × Option ParamMetaResponse) × Master W)
  identify_parameter addr cmd_body param_num m =
      let text = addr ∷ b'I' ∷ (cmd_body ++ b'_' ∷ (zero_pad 3 param_num ++ b'!' ∷ [])) in
      if not (valid_address addr)
      then some ((err_invalid_address, none), m)
      else transact (cut_to (cmd_max_chars + 4) text) response_timeout_ms m >>= described addr
