-- ===== src/Master/Multiline.antt =====
-- sdi12_master.c: sdi12_master_extended_multiline, from its first line on.
use libsdi.Base.{
  ℕ, zero, suc, ◌+◌, ◌≤◌, ◌≡◌, refl, sym, ap, ◌∙◌, inl, inr, true, List, [], ◌∷◌, ◌++◌, some, arith,
  length, length-append, take, concat, take_all, subst, ltb,
}
use libsdi.Protocol.{ok, valid_address}
use libsdi.Master.Bus.{Master, after_send}
use libsdi.Master.Transact.{IsMaster, sent_by, send_command_lem, sent_by-IsMaster}
use libsdi.Master.Lines.{heard}
use libsdi.Master.Extended.{extended_command, collect_lines, extended_multiline}
use libsdi.Master.Gather.{Gathers, collected, collected_line, line_loop_lem}

take_nil : (n : ℕ) → take {A = ℕ} n [] ≡ []
take_nil zero = refl
take_nil (suc n) = refl

module _ {W : Type 0} where
  -- The first line and what follows it.
  collect_lines_lem :
      (size : ℕ) (out bytes rest : List ℕ) (m : Master W)
      → IsMaster m
      → size ≤ length out
      → 1 ≤ length bytes
      → m.resp_buf ≡ bytes ++ rest
      → m.resp_len ≡ length bytes
      → (lines : List (List ℕ)) × (old : List ℕ) × (m' : Master W) × Gathers m.recv size
          (length (take size bytes))
          m.world
          lines
          m'.world
        × (collect_lines out size (ok, m)
            ≡ some ((ok, some (collected size (bytes ++ concat lines) old (1 + length lines))), m'))
        × (length (take size (bytes ++ concat lines) ++ old) ≡ length out)
        × IsMaster m'
  unfolding collect_lines
  collect_lines_lem size out bytes rest m v room some_bytes e n =
      let (old₁, length₁, added) = rw (take_nil size) at (
        collected_line size [] out bytes rest 0 m
          (subst (λ (t : List ℕ). size ≤ length (t ++ out)) (sym (take_nil size)) room) e n) in
      let there : ltb 0 m.resp_len ≡ true = ground (arith, n) in
      let (lines, old, m', gathers, done, same, v') =
        line_loop_lem (suc size) size bytes old₁ 1 m v (omega (arith, room, length₁))
          (omega arith) in
      (lines, old, m', gathers, rw (there, added, done) refl, same ∙ length₁, v')

  -- An extended command of at most 17 characters to a valid address, by a well-formed data recorder
  -- whose caller has an array of at least `size` bytes, always ends once a first line has arrived:
  -- with SDI12_OK, and with the first line and the lines that arrive until nothing does within the
  -- gap or there is no room, one behind another and cut to `size` bytes, in the caller's array, and
  -- with their count in a byte. The data recorder stays well-formed.
  pub extended_multiline_lem :
      (a : ℕ) (xcmd out : List ℕ) (size timeout : ℕ) (m : Master W)
      → valid_address a ≡ true
      → length xcmd ≤ 17
      → size ≤ length out
      → IsMaster m
      → let first = m.recv 85 timeout (m.send (a ∷ b'X' ∷ (xcmd ++ b'!' ∷ [])) m.world) in
        1 ≤ length first.0
        → (lines : List (List ℕ)) × (old : List ℕ) × (m' : Master W) × Gathers m.recv size
            (length (take size first.0))
            first.1
            lines
            m'.world
          × (extended_multiline a xcmd out size timeout m
              ≡ some (
                (ok, some (collected size (first.0 ++ concat lines) old (1 + length lines))),
                m',
              ))
          × (length (take size (first.0 ++ concat lines) ++ old) ≡ length out)
          × IsMaster m'
  unfolding extended_multiline extended_command collect_lines after_send
  extended_multiline_lem a xcmd out size timeout m h short room v some_bytes =
      let cmd = a ∷ b'X' ∷ (xcmd ++ b'!' ∷ []) in
      let few : length cmd ≤ 20 = omega (arith, length-append xcmd (b'!' ∷ [])) in
      let whole = take_all 23 cmd (omega (arith, few)) in
      let sent = send_command_lem cmd m (omega (arith, few)) v in
      let v₁ = sent_by-IsMaster cmd m (omega (arith, few)) v in
      elim (heard timeout (sent_by cmd m) v₁) [
        | inl (silent, x) ↦ absurd (ground (arith, ap length silent))
        | inr (y, (rest, size₁, received)) ↦
            let first = m.recv 85 timeout (m.send cmd m.world) in
            let m₂ = record (sent_by cmd m) {
              resp_buf = first.0 ++ rest;
              resp_len = length first.0;
              world = first.1;
            } in
            let v₂ : IsMaster m₂ = record {
              commands = v₁.commands;
              responses = size₁;
              within = v.within;
            } in
            let (lines, old, m', gathers, done, same, v') =
              collect_lines_lem size out first.0 rest m₂ v₂ room some_bytes refl refl in
            (lines, old, m', gathers, rw (h, whole, sent, received) done, same, v')
      ]
