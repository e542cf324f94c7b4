-- ===== src/Sensor/XcmdAnswers.antt =====
-- sdi12_sensor.c: extended commands and the change of address answer as a command may.
use libsdi.Base.{
  ℕ, ◌-◌, ◌≡◌, refl, Bool, true, false, ◌&&◌, List, [], ◌∷◌, ◌++◌, append_assoc, All, arith, length,
  drop, leb, if◌then◌else◌, Bool-cases, inl, inr,
}
use libsdi.Base.Buffer.{overwrite, store_fits}
use libsdi.Crc.{crlf}
use libsdi.Protocol.{ok, valid_address}
use libsdi.Sensor.Types.{Floats, Xcmd, Sensor, saved, sent}
use libsdi.Sensor.Process.{run_xcmd, xcmd_loop, handle_extended, handle_change_address, starts_with}
use libsdi.Sensor.Valid.{IsXcmd, IsConfig, IsValid, Answer, silent, answered, renamed, Answers}
use libsdi.Sensor.Answer.{address_byte, cons-IsText, line-IsBuffer, reply_lem, reply-Answers}
use libsdi.Sensor.CrcLine.{overwrite-IsBuffer}
use libsdi.Sensor.CommandAnswers.{finish_xcmd-Answers}

module _ {F W : Type 0} (fl : Floats F) where
  run_xcmd-Answers :
      (x : Xcmd W) (str : List ℕ) (s : Sensor F W)
      → IsXcmd x
      → IsValid fl s
      → s.resp_len ≡ 0
      → Answers fl s.trace (run_xcmd x str s)
  unfolding run_xcmd
  run_xcmd-Answers x str s contract (config, buffer, cache) nolen =
      let (nz, small, ncr) = address_byte s.address config.address_valid in
      let head = s.address ∷ 0 ∷ [] in
      let array = overwrite-IsBuffer s.resp_buf head 0 buffer (small, omega arith) (omega arith) in
      let (b, first, ends) = contract s.address str (drop 2 s.resp_buf) s.world array in
      let called = x.handler str (overwrite s.resp_buf 0 head) s.world in
      rw (store_fits s.resp_buf 0 head (omega (arith, buffer.0))) (
        finish_xcmd-Answers fl called.0.0 (record s { resp_buf = called.0.1; world = called.1 })
          (config, b, cache) nolen first ends)

  xcmd_loop-Answers :
      (xs : List (Xcmd W)) (str : List ℕ) (len : ℕ) (s : Sensor F W)
      → All IsXcmd xs
      → IsValid fl s
      → s.resp_len ≡ 0
      → Answers fl s.trace (xcmd_loop xs str len s)
  unfolding xcmd_loop
  xcmd_loop-Answers [] str len s h v nolen = reply-Answers fl s crlf v nolen (omega arith)
  xcmd_loop-Answers (x ∷ xs) str len s (hx, hxs) v nolen =
      elim (Bool-cases (x.active && (leb (length x.prefix) len && starts_with x.prefix str))) [
        | inl e ↦ rw e (run_xcmd-Answers x str s hx v nolen)
        | inr e ↦ rw e (xcmd_loop-Answers xs str len s hxs v nolen)
      ]

  pub handle_extended-Answers :
      (cmd : List ℕ) (len : ℕ) (s : Sensor F W)
      → IsValid fl s
      → s.resp_len ≡ 0
      → Answers fl s.trace (handle_extended cmd len s)
  unfolding handle_extended
  handle_extended-Answers cmd len s v nolen =
      xcmd_loop-Answers s.xcmds (drop 2 cmd) (len - 2) s v.0.xcmds_valid v nolen

  pub handle_change_address-Answers :
      (new : ℕ) (s : Sensor F W)
      → IsValid fl s
      → s.resp_len ≡ 0
      → Answers fl s.trace (handle_change_address new s)
  unfolding handle_change_address
  handle_change_address-Answers new s (config, buffer, cache) nolen =
      elim (Bool-cases (valid_address new)) [
        | inl e ↦
            let text = cons-IsText new 80 crlf e (omega arith) in
            let config' : IsConfig fl new s.ident s.cb s.params s.xcmds = record {
              address_valid = e;
              ident_valid = config.ident_valid;
              sends = config.sends;
              read_ok = config.read_ok;
              binary_ok = config.binary_ok;
              params_fit = config.params_fit;
              params_valid = config.params_valid;
              xcmds_fit = config.xcmds_fit;
              xcmds_valid = config.xcmds_valid;
            } in
            let array = line-IsBuffer (new ∷ crlf) s.resp_buf text buffer in
            let tr = if s.cb.save_address then s.trace ++ saved new ∷ [] else s.trace in
            let s' : Sensor F W = record s { address = new; trace = tr } in
            rw (e, reply_lem s' (new ∷ crlf) config.sends nolen buffer text)
              (
                (config', array, cache),
                go s.cb.save_address (new ∷ (crlf ++ 0 ∷ drop 4 s.resp_buf)),
              )
        | inr e ↦ rw e ((config, buffer, cache), silent refl (λ e. cc))
      ]
    where
      go :
          (b : Bool) (buf : List ℕ)
          → Answer s.trace ok (record s {
            address = new;
            resp_buf = buf;
            trace = (if b then s.trace ++ saved new ∷ [] else s.trace) ++ sent (new ∷ crlf) ∷ [];
          })
      go true buf = renamed refl (append_assoc s.trace (saved new ∷ []) _)
      go false buf = answered crlf refl refl
