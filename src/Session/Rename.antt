-- ===== src/Session/Rename.antt =====
-- A change of address and what follows: sdi12_master_change_address, sdi12_master_identify and
-- sdi12_master_acknowledge against sdi12_sensor_process.
use libsdi.Base.{
  ℕ, ◌≡◌, ◌≢◌, refl, subst, ap, ◌∙◌, Bool, true, false, List, [], ◌∷◌, ◌++◌, append-nil, some,
  arith, codes, length, drop, ◌==◌, if◌then◌else◌,
}
use libsdi.Crc.{crlf}
use libsdi.Protocol.{ok, err_not_addressed, State, measuring_c, valid_address}
use libsdi.Sensor.Types.{Floats, Sensor, Event, sent, saved, Run}
use libsdi.Sensor.Reply.{identification, handle_identify}
use libsdi.Sensor.Valid.{IsValid, Answer, Returns}
use libsdi.Sensor.Answer.{cons-IsText, reply_lem, handle_identify-sends}
use libsdi.Sensor.XcmdAnswers.{handle_change_address-Answers}
use libsdi.Sensor.Process.{
  is_print, strip_bang, handle_change_address, abort_concurrent, dispatch, process_command, process,
}
use libsdi.Master.Dispatch.{prepared}
use libsdi.Session.Measure.{prepared_same}
use libsdi.Session.{Wire, bytes_of, after_run, wire_send}

-- What a change of address calls.
abbrev pub rename_events : Bool → ℕ → List Event
rename_events save new = (if save then saved new ∷ [] else []) ++ sent (new ∷ crlf) ∷ []

bytes_of-rename : (save : Bool) (new : ℕ) → bytes_of (rename_events save new) ≡ new ∷ crlf
unfolding bytes_of
bytes_of-rename true new = refl
bytes_of-rename false new = refl

module _ {F V : Type 0} (fl : Floats F) where
  -- The bus after a command that the sensor has run.
  ran_wire :
      (cmd : List ℕ) (wire : Wire F V) (s' : Sensor F V) (line : List ℕ) (run : Run F V)
      → process fl (cmd ++ 0 ∷ []) (length cmd) (record wire.sensor { trace = [] }) ≡ run
      → after_run wire run ≡ record wire { sensor = s'; incoming = line }
      → wire_send fl cmd wire ≡ record wire { sensor = s'; incoming = line }
  unfolding wire_send
  ran_wire cmd wire s' line run h e = ap (after_run wire) h ∙ e

  process-change_address :
      (new : ℕ) (s : Sensor F V) (rest : List ℕ)
      → valid_address new ≡ true
      → process fl (s.address ∷ b'A' ∷ new ∷ b'!' ∷ rest) 4 s
        ≡ handle_change_address new (prepared fl s)
  unfolding process process_command dispatch strip_bang is_print valid_address
  process-change_address new s rest valid =
      let same : (s.address == s.address) ≡ true = ground arith in
      let shown : is_print new ≡ true = ground arith in rw (same, shown) refl

  process-identify :
      (s : Sensor F V) (rest : List ℕ)
      → process fl (s.address ∷ b'I' ∷ b'!' ∷ rest) 3 s ≡ handle_identify (prepared fl s)
  unfolding process process_command dispatch strip_bang
  process-identify s rest =
      let same : (s.address == s.address) ≡ true = ground arith in rw same refl

  -- A command of presence to another address.
  process-other :
      (a : ℕ) (s : Sensor F V) (rest : List ℕ)
      → valid_address a ≡ true
      → a ≢ s.address
      → process fl (a ∷ b'!' ∷ rest) 2 s ≡ some (err_not_addressed, record s { resp_len = 0 })
  unfolding process process_command strip_bang valid_address
  process-other a s rest valid ne =
      let other : (a == s.address) ≡ false = ground (arith, ne) in
      let no_query : (a == b'?') ≡ false = ground (arith, valid) in rw (other, no_query) refl

  -- The end of a concurrent measurement leaves the identity.
  prepared_ident :
      (state : State) (s : Sensor F V)
      → ((abort_concurrent state s).ident ≡ s.ident)
        × (identification (abort_concurrent state s) ≡ identification s)
  unfolding abort_concurrent identification
  prepared_ident measuring_c s = (refl, refl)
  prepared_ident _ s = (refl, refl)

  handle_change_address-renames :
      (new : ℕ) (s : Sensor F V)
      → IsValid fl s
      → s.resp_len ≡ 0
      → s.trace ≡ []
      → valid_address new ≡ true
      → (s' : Sensor F V) × (handle_change_address new s ≡ some (ok, s'))
        × (s'.address ≡ new)
        × (s'.ident ≡ s.ident)
        × (s'.trace ≡ rename_events s.cb.save_address new)
  unfolding handle_change_address
  handle_change_address-renames new s (config, buffer, cache) nolen quiet valid =
      let text = cons-IsText new 80 crlf valid (omega arith) in
      let s₁ : Sensor F V = record s {
        address = new;
        trace = if s.cb.save_address then s.trace ++ saved new ∷ [] else s.trace;
      } in
      (
        record s₁ {
          resp_buf = new ∷ (crlf ++ 0 ∷ drop 4 s.resp_buf);
          trace = s₁.trace ++ sent (new ∷ crlf) ∷ [];
        },
        rw valid (reply_lem s₁ (new ∷ crlf) config.sends nolen buffer text),
        refl,
        refl,
        ap
            (λ (t : List Event).
              (if s.cb.save_address then t ++ saved new ∷ [] else t) ++ sent (new ∷ crlf) ∷ [])
            quiet,
      )

  -- A sensor that has got a new address.
  pub record Renamed (new : ℕ) (s s' : Sensor F V) : Type 0 where
    pub valid : IsValid fl s'
    pub at : s'.address ≡ new
    pub ident : s'.ident ≡ s.ident
    pub calls : s'.trace ≡ rename_events s.cb.save_address new

  pub rename_answers :
      (new : ℕ) (wire : Wire F V)
      → let s = wire.sensor in
        IsValid fl s
        → valid_address new ≡ true
        → (s' : Sensor F V) × Renamed new s s'
          × (wire_send fl (s.address ∷ b'A' ∷ new ∷ b'!' ∷ []) wire
              ≡ record wire { sensor = s'; incoming = new ∷ crlf })
  unfolding after_run
  rename_answers new wire v valid =
      let s = wire.sensor in
      let s₀ = record s { trace = [] } in
      let (v₁, nolen, quiet, cb, _, _, _) =
        prepared_same fl s.state (record s₀ { resp_len = 0 }) v refl in
      let p = prepared fl s₀ in
      let (s', done, at, ident, calls) = handle_change_address-renames new p v₁ nolen quiet valid in
      let (v', answer) =
        subst (λ run. Returns run (λ e t. IsValid fl t × Answer p.trace e t)) done
          (handle_change_address-Answers fl new p v₁ nolen) in
      let calls' = calls ∙ ap (λ cb. rename_events cb.save_address new) cb in
      let heard : bytes_of s'.trace ≡ new ∷ crlf =
        ap bytes_of calls' ∙ bytes_of-rename s.cb.save_address new in
      (
        s',
        record {
          valid = v';
          at = at;
          ident = ident ∙ (prepared_ident s.state (record s₀ { resp_len = 0 })).0;
          calls = calls';
        },
        ran_wire (s.address ∷ b'A' ∷ new ∷ b'!' ∷ []) wire s' (new ∷ crlf) (some (ok, s'))
            (process-change_address new s₀ (0 ∷ []) valid ∙ done)
            (ap (λ (b : List ℕ). record wire { sensor = s'; incoming = b }) heard),
      )

  pub identify_answers :
      (wire : Wire F V)
      → let s = wire.sensor in
        IsValid fl s
        → (s' : Sensor F V) × (wire_send fl (s.address ∷ codes "I!") wire
            ≡ record wire { sensor = s'; incoming = identification s })
  unfolding after_run bytes_of identification
  identify_answers wire v =
      let s = wire.sensor in
      let s₀ = record s { trace = [] } in
      let (v₁, nolen, quiet, _, _, _, _) =
        prepared_same fl s.state (record s₀ { resp_len = 0 }) v refl in
      let p = prepared fl s₀ in
      let (s', done, says) = handle_identify-sends fl p v₁ nolen in
      let heard : bytes_of s'.trace ≡ identification s =
        ap bytes_of (says ∙ ap (λ (t : List Event). t ++ sent (identification p) ∷ []) quiet)
        ∙ append-nil (identification p)
        ∙ (prepared_ident s.state (record s₀ { resp_len = 0 })).1 in
      (
        s',
        ran_wire (s.address ∷ codes "I!") wire s' (identification s) (some (ok, s'))
            (process-identify s₀ (0 ∷ []) ∙ done)
            (ap (λ (b : List ℕ). record wire { sensor = s'; incoming = b }) heard),
      )

  pub stays_silent :
      (a : ℕ) (wire : Wire F V)
      → valid_address a ≡ true
      → a ≢ wire.sensor.address
      → (s' : Sensor F V) × (wire_send fl (a ∷ b'!' ∷ []) wire
          ≡ record wire { sensor = s'; incoming = [] })
  unfolding after_run bytes_of
  stays_silent a wire valid ne =
      let s₀ = record wire.sensor { trace = [] } in
      let s' = record s₀ { resp_len = 0 } in
      (
        s',
        ran_wire (a ∷ b'!' ∷ []) wire s' [] (some (err_not_addressed, s'))
            (process-other a s₀ (0 ∷ []) valid ne) refl,
      )
