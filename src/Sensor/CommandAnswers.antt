-- ===== src/Sensor/CommandAnswers.antt =====
-- sdi12_sensor.c: the metadata commands, and the end of an extended command.
use libsdi.Base.{
  ℕ, ◌+◌, ◌-◌, ◌≡◌, refl, sym, ap, ◌∙◌, Bool, not, ◌&&◌, ◌||◌, List, [], ◌∷◌, ◌++◌, Option, none,
  some, All-get_elem?, arith, length, take, drop, get_elem?, get_elem?_inside, codes, ltb, leb,
  ◌==◌, Bool-cases, inl, inr,
}
use libsdi.Base.Buffer.{byte_at, strlen, snprintf_fits}
use libsdi.Base.Text.{zero_pad}
use libsdi.Crc.{crlf}
use libsdi.Protocol.{Err, ok, standard, concurrent, max_params, max_response_len}
use libsdi.Sensor.Types.{Floats, Param, Sensor}
use libsdi.Sensor.Groups.{count_group, collect_group_indices}
use libsdi.Sensor.Measure.{count_text}
use libsdi.Sensor.Metadata.{
  find_byte, param_number, metadata_group, metadata_text, reply_param, reply_indexed,
  reply_metadata, identify_param, summary, identify_at, handle_identify_measurement,
}
use libsdi.Sensor.Process.{close_line, finish_xcmd}
use libsdi.Sensor.Valid.{IsText, IsParam, IsValid, silent, Answers}
use libsdi.Sensor.Answer.{
  address_byte, append-IsText, cons-IsText, IsText-mono, line-IsBuffer, reply-Answers,
}
use libsdi.Sensor.MeasureAnswers.{timing-IsText, zero_pad_three-IsText}
use libsdi.Sensor.Counting.{position_sound, count_group-le, collect_group_indices_lem}
use libsdi.Sensor.CrcLine.{send_Line-Answers, reply_address-Answers}
use libsdi.Sensor.LineEnd.{Line-crlf, Line-strlen, end_line-Rendered}

-- The number behind an underscore fits an `int`.
abbrev pub NumberFits : List ℕ → ℕ → Type 0
NumberFits cmd len =
    (k : ℕ)
    → find_byte b'_' (drop 2 (take len cmd)) ≡ some k
    → (n : ℕ) × (param_number 0 (drop (2 + k + 1) cmd) ≡ some n)

module _ {F W : Type 0} (fl : Floats F) where
  reply_param-Answers :
      (crc : Bool) (p : Param) (s : Sensor F W)
      → IsParam p
      → IsValid fl s
      → s.resp_len ≡ 0
      → Answers fl s.trace (reply_param crc p s)
  unfolding reply_param metadata_text
  reply_param-Answers crc p s (shef, units, _) (config, buffer, cache) nolen =
      let a = s.address in
      let (nz, small, ncr) = address_byte a config.address_valid in
      let last = p.units ++ b';' ∷ [] in
      let middle = p.shef ++ b',' ∷ last in
      let body = b',' ∷ middle in
      let short : IsText 26 body = append-IsText 1 25 (b',' ∷ []) middle (omega arith) (
        append-IsText 3 22 p.shef (b',' ∷ last) shef (
          append-IsText 1 21 (b',' ∷ []) last (omega arith)
            (append-IsText 20 1 p.units (b';' ∷ []) units (omega arith)))) in
      let text =
        cons-IsText a 80 body config.address_valid (IsText-mono 26 80 body (omega arith) short) in
      let shown = snprintf_fits s.resp_buf (a ∷ body) (omega arith) in
      let array = line-IsBuffer (a ∷ body) s.resp_buf text buffer in
      let (out, e, b, (line, ended)) =
        end_line-Rendered crc a _ nz ncr array (body, _, refl, short.1) (omega arith) in
      rw (shown, e)
        (send_Line-Answers fl (record s { crc_requested = crc; resp_buf = out }) (config, b, cache)
          nolen line)

  reply_metadata-Answers :
      (num group : ℕ) (crc : Bool) (s : Sensor F W)
      → IsValid fl s
      → s.resp_len ≡ 0
      → Answers fl s.trace (reply_metadata num group crc s)
  unfolding reply_metadata reply_indexed
  reply_metadata-Answers num group crc s v nolen =
      let indices = collect_group_indices s.params group max_params in
      let same = (collect_group_indices_lem s.params group v.0.params_fit).0 in
      elim (Bool-cases (leb 1 num && leb num (length indices))) [
        | inl e ↦
            let (idx, at) = get_elem?_inside indices (num - 1) (ground arith) in
            let (p, there, _) =
              position_sound s.params group (num - 1) idx
                (ap (λ t. get_elem? t (num - 1)) (sym same) ∙ at) in
            rw (e, at, there)
              (reply_param-Answers crc p s
                (All-get_elem? IsParam s.params idx v.0.params_valid there) v nolen)
        | inr e ↦ rw e (reply_address-Answers fl crc s v nolen)
      ]

  summary-IsText :
      (cmd : List ℕ) (len : ℕ) (s : Sensor F W) → IsValid fl s → IsText 80 (summary cmd len s)
  unfolding summary
  summary-IsText cmd len s v =
      let fit = λ (g : ℕ). count_group-le s.params g v.0.params_fit in
      let one : (g : ℕ)
          → IsText 80 (codes "000" ++ (count_text standard (count_group s.params g) ++ crlf)) =
        λ g.
          IsText-mono 8 80 (codes "000" ++ (count_text standard (count_group s.params g) ++ crlf))
            (omega arith)
            (timing-IsText (codes "000") standard (count_group s.params g) (omega arith) (fit g)) in
      let two : (g : ℕ)
          → IsText 80 (codes "000" ++ (count_text concurrent (count_group s.params g) ++ crlf)) =
        λ g.
          IsText-mono 8 80 (codes "000" ++ (count_text concurrent (count_group s.params g) ++ crlf))
            (omega arith)
            (timing-IsText (codes "000") concurrent (count_group s.params g) (omega arith)
              (fit g)) in
      let three : IsText 80 (codes "000" ++ (zero_pad 3 (count_group s.params 0) ++ crlf)) =
        IsText-mono 8 80 (codes "000" ++ (zero_pad 3 (count_group s.params 0) ++ crlf))
          (omega arith)
          (append-IsText 3 5 (codes "000") (zero_pad 3 (count_group s.params 0) ++ crlf)
            (omega arith)
            (append-IsText 3 2 (zero_pad 3 (count_group s.params 0)) crlf
              (zero_pad_three-IsText (count_group s.params 0) (omega (arith, fit 0)))
              (omega arith))) in
      let zeros : IsText 80 (codes "000000" ++ crlf) = omega arith in
      let nothing : IsText 80 (codes "0000" ++ crlf) = omega arith in
      elim (Bool-cases (byte_at cmd 2 == b'M')) [
        | inl e ↦ rw e (one _)
        | inr e ↦ rw e (elim (Bool-cases (byte_at cmd 2 == b'C')) [
          | inl e ↦ rw e (two _)
          | inr e ↦ rw e (elim (Bool-cases (byte_at cmd 2 == b'V')) [
            | inl e ↦ rw e (one 0)
            | inr e ↦ rw e (elim (Bool-cases (byte_at cmd 2 == b'H')) [
              | inl e ↦
                  rw e
                    (elim (Bool-cases
                      (ltb 3 len && (byte_at cmd 3 == b'A' || byte_at cmd 3 == b'B'))) [
                        | inl e ↦ rw e three
                        | inr e ↦ rw e zeros
                      ])
              | inr e ↦ rw e (elim (Bool-cases (byte_at cmd 2 == b'R')) [
                | inl e ↦ rw e (two _)
                | inr e ↦ rw e nothing
              ])
            ])
          ])
        ])
      ]

  pub handle_identify_measurement-Answers :
      (cmd : List ℕ) (len : ℕ) (s : Sensor F W)
      → IsValid fl s
      → s.resp_len ≡ 0
      → NumberFits cmd len
      → Answers fl s.trace (handle_identify_measurement cmd len s)
  unfolding handle_identify_measurement identify_at identify_param
  handle_identify_measurement-Answers cmd len s v nolen known = elim (Bool-cases (ltb len 3)) [
    | inl e ↦ rw e (v, silent refl (λ e. cc))
    | inr e ↦ rw e (go (find_byte b'_' (drop 2 (take len cmd))) known)
  ]
    where
      go :
          (found : Option ℕ)
          → ((k : ℕ) → found ≡ some k → (n : ℕ) × (param_number 0 (drop (2 + k + 1) cmd) ≡ some n))
          → Answers fl s.trace (identify_at found cmd len s)
      go none known = reply-Answers fl s (summary cmd len s) v nolen (summary-IsText cmd len s v)
      go (some k) known =
          let (n, e) = known k refl in
          rw e (reply_metadata-Answers n (metadata_group cmd (2 + k)) _ s v nolen)

  pub finish_xcmd-Answers :
      (e : Err) (s : Sensor F W)
      → IsValid fl s
      → s.resp_len ≡ 0
      → byte_at s.resp_buf 0 ≡ s.address
      → ((n : ℕ) × (strlen s.resp_buf ≡ some n))
      → Answers fl s.trace (finish_xcmd e s)
  unfolding finish_xcmd close_line
  finish_xcmd-Answers ok s v nolen head (n, found) =
      let (nz, small, ncr) = address_byte s.address v.0.address_valid in
      let (line, long) = Line-strlen s.address s.resp_buf n nz head found in
      let keep = send_Line-Answers fl s v nolen line in
      rw found
        (elim (Bool-cases (
          ltb n 2
          || (not (byte_at s.resp_buf (n - 2) == 0x0D)
              || not (byte_at s.resp_buf (n - 1) == 0x0A)))) [
                | inl e ↦ elim (Bool-cases (ltb (n + 2) max_response_len)) [
                  | inl f ↦
                      let (out, g, b, closed) =
                        Line-crlf s.address n s.resp_buf v.1 line long (ground arith) in
                      rw (e, f, g)
                        (send_Line-Answers fl (record s { resp_buf = out }) (v.0, b, v.2) nolen
                          closed.0)
                  | inr f ↦ rw (e, f) keep
                ]
                | inr e ↦ rw e keep
              ])
  finish_xcmd-Answers _ s v nolen head found = (v, silent refl (λ e. cc))
