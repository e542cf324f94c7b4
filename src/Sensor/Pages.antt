-- ===== src/Sensor/Pages.antt =====
-- sdi12_sensor.c: values formatted, and the pages of a D response.
use libsdi.Base.{
  ℕ, map, ◌+◌, ◌-◌, ◌%◌, ◌^◌, Bool, true, false, not, ◌&&◌, List, [], ◌∷◌, ◌++◌, Option, some, take,
  length, ltb, leb, ◌==◌, if◌then◌else◌, ◌>>=◌, ◌>>◌, check,
}
use libsdi.Base.Buffer.{store}
use libsdi.Crc.{crlf, crc_append}
use libsdi.Protocol.{max_response_len, value_max_chars}
use libsdi.Sensor.Types.{Floats, Value, Sensor}

module _ {F : Type 0} (fl : Floats F) where
  -- The text of a value, sign first.
  unfoldable pub value_text : Value F → List ℕ
  value_text v =
      let sign = if fl.nonneg v.value then b'+' else b'-' in
      let absval = if fl.nonneg v.value then v.value else fl.neg v.value in
      sign ∷ (if v.decimals == 0 then fl.print_trunc absval else fl.print_fixed v.decimals absval)

  -- format_value on the array `vbuf` of SDI12_VALUE_MAX_CHARS + 1: the length that snprintf returns,
  -- of the uncut text, and the bytes that it writes.
  unfoldable pub format_value : Value F → ℕ × List ℕ
  unfolding value_text
  format_value v = (length (value_text v), take value_max_chars (value_text v) ++ 0 ∷ [])

-- The variables of the loop of format_data_page.
pub record PageLoop : Type 0 where
  pub buf : List ℕ
  pub pos : ℕ
  pub current_page : ℕ
  pub any_on_page : Bool

-- A value that does not fit starts a new page.
unfoldable pub turn_page : ℕ → ℕ → PageLoop → PageLoop
turn_page max_value_chars vlen l =
    let page_used = l.pos - 1 in
    if ltb max_value_chars (page_used + vlen) && ltb 0 page_used
    then record l { current_page = (l.current_page + 1) % 2 ^ 8; pos = 1 }
    else l

-- The rest of a round: whether the loop goes on, and its variables.
unfoldable pub place_value : ℕ → ℕ → List ℕ → PageLoop → Option (Bool × PageLoop)
place_value page vlen vbuf l =
    if l.current_page == page
    then (if leb (max_response_len - 6) (l.pos + vlen) then some (false, l) else do
      check (leb vlen (value_max_chars + 1))
      buf' ← store l.buf l.pos (take vlen vbuf)
      some (true, record l { buf = buf'; pos = l.pos + vlen; any_on_page = true }))
    else some (not (ltb page l.current_page), l)

unfoldable pub page_round : ℕ → ℕ → ℕ × List ℕ → PageLoop → Option (Bool × PageLoop)
unfolding turn_page place_value
page_round page max_value_chars (vlen, vbuf) l =
    if vlen == 0
    then some (true, l)
    else place_value page vlen vbuf (turn_page max_value_chars vlen l)

-- The loop, over the formatted values that are left.
unfoldable pub page_loop : ℕ → ℕ → List (ℕ × List ℕ) → PageLoop → Option PageLoop
page_loop page max_value_chars [] l = some l
page_loop page max_value_chars (v ∷ vs) l = do
  (goes_on, l') ← page_round page max_value_chars v l
  let rest = page_loop page max_value_chars vs l'
  if goes_on then rest else some l'

-- The end of the line: the CRC if it was asked for, else CR, LF and NUL.
unfoldable pub terminate : Bool → List ℕ → ℕ → Option (List ℕ)
terminate true buf pos = do (err, buf') ← crc_append buf max_response_len; some buf'
terminate false buf pos =
    if ltb (pos + 2) max_response_len then store buf pos (crlf ++ 0 ∷ []) else some buf

-- What follows the loop.
unfoldable pub finish_page : Bool → ℕ → PageLoop → Option (List ℕ)
finish_page crc page l =
    let pos = if not l.any_on_page && ltb 0 page then 1 else l.pos in
    store l.buf pos (0 ∷ []) >>= λ ended. terminate crc ended pos

module _ {F : Type 0} (fl : Floats F) where
  -- The array after format_data_page, from the array before.
  unfoldable pub render_page : ℕ → ℕ → Bool → ℕ → List (Value F) → List ℕ → Option (List ℕ)
  render_page page max_value_chars crc address values resp_buf = do
    buf ← store resp_buf 0 (address ∷ [])
    let first : PageLoop = record { buf = buf; pos = 1; current_page = 0; any_on_page = false }
    l ← page_loop page max_value_chars (map (format_value fl) values) first
    finish_page crc page l

module _ {F W : Type 0} (fl : Floats F) where
  unfoldable pub format_data_page : ℕ → ℕ → Sensor F W → Option (Sensor F W)
  format_data_page page max_value_chars s = do
    out ← render_page fl page max_value_chars s.crc_requested s.address s.data_cache s.resp_buf
    some (record s { resp_buf = out })
