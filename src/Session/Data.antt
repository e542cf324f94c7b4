-- ===== src/Session/Data.antt =====
-- The data behind a measurement: sdi12_master_get_data against handle_send_data.
use libsdi.Base.{
  ℕ, ◌≤◌, ◌≡◌, ◌≢◌, refl, sym, ap, ◌∙◌, Bool, true, not, List, [], ◌∷◌, ◌++◌, append-nil, some, map,
  concat, arith, length, length-append, ◌==◌, ◌>>=◌, if◌then◌else◌, All, All-append, append_assoc,
}
use libsdi.Base.Text.{decimal, digits, is_digit}
use libsdi.Base.Buffer.{NoNul}
use libsdi.Crc.{crlf}
use libsdi.Crc.Step.{IsByte}
use libsdi.Protocol.{ok, State, MeasType, measuring_c, standard, m_values_max_chars}
use libsdi.Sensor.Types.{Floats, Value, Sensor, sent}
use libsdi.Sensor.Pages.{value_text, render_page, format_data_page}
use libsdi.Sensor.FirstPage.{texts}
use libsdi.Sensor.Valid.{IsValid, IsPrintable}
use libsdi.Sensor.Answer.{send_string, address_byte}
use libsdi.Sensor.Data.{max_chars, send_page, send_available, handle_send_data}
use libsdi.Sensor.Process.{
  page_number, dispatch_data, dispatch, strip_bang, process_command, process, abort_concurrent,
}
use libsdi.Sensor.Measure.{reply_address}
use libsdi.Master.Bus.{Master, response_timeout_ms}
use libsdi.Master.Values.{get_data}
use libsdi.Master.Readings.{IsReading, concat-IsInner, get_data_lem}
use libsdi.Master.Line.{IsInner}
use libsdi.Master.Dispatch.{prepared}
use libsdi.Session.Wired.{IsWired, wired-IsMaster, wired_answer}
use libsdi.Session.Reading.{reading, map-reading}
use libsdi.Session.Page.{check_text, check_text_lem, render_page-check}
use libsdi.Session.{Wire, bytes_of, after_run, wire_send}

module _ {F : Type 0} (fl : Floats F) where
  texts-NoNul : (vs : List (Value F)) → All (IsPrintable fl) vs → NoNul (texts fl vs)
  texts-NoNul [] h = tt
  texts-NoNul (v ∷ vs) h =
      All-append (λ c. c ≢ 0) (value_text fl v) (texts fl vs) h.0.1 (texts-NoNul vs h.1)

  texts-concat : (vs : List (Value F)) → texts fl vs ≡ concat (map (value_text fl) vs)
  texts-concat [] = refl
  texts-concat (v ∷ vs) = ap (◌++◌ (value_text fl v)) (texts-concat vs)

  texts-IsByte : (vs : List (Value F)) → All (IsPrintable fl) vs → All IsByte (texts fl vs)
  texts-IsByte [] h = tt
  texts-IsByte (v ∷ vs) h =
      All-append IsByte (value_text fl v) (texts fl vs) h.0.2 (texts-IsByte vs h.1)

  map-IsReading :
      (vs : List (Value F))
      → All (λ v. IsReading (value_text fl v)) vs
      → All IsReading (map (value_text fl) vs)
  map-IsReading [] h = tt
  map-IsReading (v ∷ vs) h = (h.0, map-IsReading vs h.1)

  texts-IsInner :
      (vs : List (Value F)) → All (λ v. IsReading (value_text fl v)) vs → All IsInner (texts fl vs)
  texts-IsInner vs h =
      rw (texts-concat vs) (concat-IsInner (map (value_text fl) vs) (map-IsReading vs h))

  length-texts : (vs : List (Value F)) → length (map (value_text fl) vs) ≡ length vs
  length-texts [] = refl
  length-texts (v ∷ vs) = omega (arith, length-texts vs)

  -- The line of a page of values with its CRC, or without one.
  abbrev page_line : Bool → ℕ → List (Value F) → List ℕ
  page_line crc a vs = a ∷ (texts fl vs ++ (check_text crc (a ∷ texts fl vs) ++ crlf))

module _ {F V : Type 0} (fl : Floats F) where
  -- A sensor whose standard measurement, with a CRC or without, is done, and whose values fit a
  -- page.
  pub record HasPage (crc : Bool) (s : Sensor F V) : Type 0 where
    pub available : s.data_available ≡ true
    pub asked : s.crc_requested ≡ crc
    pub type : s.pending_meas_type ≡ standard
    pub fits : length (texts fl s.data_cache) ≤ m_values_max_chars

  handle_send_data-whole :
      (crc : Bool) (s : Sensor F V)
      → IsValid fl s
      → s.resp_len ≡ 0
      → HasPage crc s
      → All (λ v. IsReading (value_text fl v)) s.data_cache
      → (s' : Sensor F V) × (handle_send_data fl 0 s ≡ some (ok, s'))
        × (s'.trace ≡ s.trace ++ sent (page_line fl crc s.address s.data_cache) ∷ [])
  unfolding handle_send_data send_available send_page format_data_page max_chars
  handle_send_data-whole crc s (config, buffer, cache) nolen h readings =
      let a = s.address in
      let text = texts fl s.data_cache in
      let code = check_text crc (a ∷ text) in
      let (nz, small, _) = address_byte a config.address_valid in
      let inner = texts-IsInner fl s.data_cache readings in
      let clean_text = texts-NoNul fl s.data_cache cache.1 in
      let (tail, page) =
        render_page-check fl crc a m_values_max_chars s.data_cache s.resp_buf config.address_valid
          cache.1 clean_text inner h.fits (omega arith) (omega arith) buffer in
      let (_, code_clean, _) =
        check_text_lem crc (a ∷ text) (small, texts-IsByte fl s.data_cache cache.1) in
      let filled : Sensor F V = record s {
        resp_buf = a ∷ (text ++ (code ++ (crlf ++ 0 ∷ tail)));
      } in
      let shape : filled.resp_buf ≡ page_line fl crc a s.data_cache ++ 0 ∷ tail = ap (◌∷◌ a) (
        ap (◌++◌ text) (sym (append_assoc code crlf (0 ∷ tail)))
        ∙ sym (append_assoc text (code ++ crlf) (0 ∷ tail))) in
      let clean : NoNul (page_line fl crc a s.data_cache) = (
        nz,
        All-append (λ c. c ≢ 0) text (code ++ crlf) clean_text
            (All-append (λ c. c ≢ 0) code crlf code_clean (omega arith)),
      ) in
      let rendered : format_data_page fl 0 m_values_max_chars s ≡ some filled =
        ap (λ o. o >>= λ out. some (record s { resp_buf = out }))
          (ap (λ (c : Bool). render_page fl 0 m_values_max_chars c a s.data_cache s.resp_buf)
              h.asked
            ∙ page) in
      let gone =
        send_string filled (page_line fl crc a s.data_cache) tail config.sends nolen shape clean in
      (
        record filled { trace = s.trace ++ sent (page_line fl crc a s.data_cache) ∷ [] },
        ap
              (λ (b : Bool).
                if not b
                then reply_address s.crc_requested s
                else send_available fl s.pending_meas_type s.cb.format_binary_page 0 s)
              h.available
            ∙ ap (λ (t : MeasType). send_available fl t s.cb.format_binary_page 0 s) h.type
            ∙ rw (rendered, gone) refl,
        refl,
      )

  process-data :
      (s : Sensor F V) (rest : List ℕ)
      → process fl (s.address ∷ b'D' ∷ b'0' ∷ b'!' ∷ rest) 4 s
        ≡ handle_send_data fl 0 (prepared fl s)
  unfolding process process_command dispatch dispatch_data strip_bang page_number is_digit
  process-data s rest = let same : (s.address == s.address) ≡ true = ground arith in rw same refl

  -- Only a concurrent measurement is ended by a command.
  pub kept : (state : State) (s : Sensor F V) → state ≢ measuring_c → abort_concurrent state s ≡ s
  unfolding abort_concurrent
  kept measuring_c s h = absurd (h refl)
  kept _ s h = refl

  data_answers :
      (crc : Bool) (wire : Wire F V)
      → let s = wire.sensor in
        IsValid fl s
        → s.state ≢ measuring_c
        → HasPage crc s
        → All (λ v. IsReading (value_text fl v)) s.data_cache
        → (s' : Sensor F V) × (wire_send fl (s.address ∷ b'D' ∷ b'0' ∷ b'!' ∷ []) wire
            ≡ record wire { sensor = s'; incoming = page_line fl crc s.address s.data_cache })
  unfolding wire_send after_run bytes_of abort_concurrent
  data_answers crc wire v idle h readings =
      let s = wire.sensor in
      let s₀ = record s { trace = [] } in
      let p = record s₀ { resp_len = 0 } in
      let page : HasPage crc p = record {
        available = h.available;
        asked = h.asked;
        type = h.type;
        fits = h.fits;
      } in
      let (s', done, says) = handle_send_data-whole crc p v refl page readings in
      let line = page_line fl crc s.address s.data_cache in
      let here : prepared fl s₀ ≡ p = kept s.state p idle in
      let ran = process-data s₀ (0 ∷ []) ∙ ap (handle_send_data fl 0) here ∙ done in
      let heard : bytes_of s'.trace ≡ line = ap bytes_of says ∙ append-nil line in
      (s', rw ran (ap (λ (b : List ℕ). record wire { sensor = s'; incoming = b }) heard))

  -- On a bus with a well-formed sensor that has done a standard measurement, with or without a CRC,
  -- is not in a concurrent measurement, and whose values print to a sign with digits and points
  -- behind it and together to at most 35 characters, a data recorder with arrays of their sizes that
  -- asks for page 0, with a CRC exactly if the measurement was one with a CRC, gets SDI12_OK, the
  -- sensor's address, and for every value of the sensor, in their order, the number that strtod
  -- makes of its text, a plus and the number or a minus and its negation, and as decimals the number
  -- of characters behind the point of that text.
  pub get_data_session :
      (strtod : List ℕ → F) (crc : Bool) (m : Master (Wire F V))
      → let s = m.world.sensor in
        IsWired fl m
        → IsValid fl s
        → s.state ≢ measuring_c
        → HasPage crc s
        → All (λ v. IsReading (value_text fl v)) s.data_cache
        → (m' : Master (Wire F V)) × (get_data strtod s.address 0 crc m
            ≡ some (
              (
                ok,
                some
                    (record { address = s.address; values = map (reading fl strtod) s.data_cache }),
              ),
              m',
            ))
  unfolding decimal digits
  get_data_session strtod crc m h v idle page readings =
      let s = m.world.sensor in
      let a = s.address in
      let ts = map (value_text fl) s.data_cache in
      let code = check_text crc (a ∷ texts fl s.data_cache) in
      let (s', sent_so) = data_answers crc m.world v idle page readings in
      let (_, small, _) = address_byte a v.0.address_valid in
      let (size, _, inner) =
        check_text_lem crc (a ∷ texts fl s.data_cache)
          (small, texts-IsByte fl s.data_cache v.2.1) in
      let three : length code ≤ 3 = ground (arith, size) in
      let fits : length (page_line fl crc a s.data_cache) ≤ 85 = omega (
        arith,
        page.fits,
        three,
        length-append (texts fl s.data_cache) (code ++ crlf),
        length-append code crlf,
      ) in
      let received =
        wired_answer fl m h (a ∷ b'D' ∷ b'0' ∷ b'!' ∷ []) response_timeout_ms s'
          (page_line fl crc a s.data_cache) sent_so fits in
      let few : length ts ≤ 99 = omega (arith, length-texts fl s.data_cache, v.2.0) in
      let line = ap (λ (t : List ℕ). a ∷ (t ++ (code ++ crlf))) (texts-concat fl s.data_cache) in
      let (m', got) =
        get_data_lem strtod a 0 crc ts code m v.0.address_valid (omega arith)
          (wired-IsMaster fl m h) (map-IsReading fl s.data_cache readings) few size inner
          (ap (λ r. r.0) received ∙ line) in
      (
        m',
        got
            ∙ ap
                (λ (vs : List (Value F)).
                  some ((ok, some (record { address = a; values = vs })), m'))
                (map-reading fl strtod s.data_cache v.2.1),
      )
