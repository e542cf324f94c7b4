-- ===== src/Master/Transact.antt =====
-- sdi12_master.c: what a transaction does on the bus, and that it stays inside the arrays.
use libsdi.Base.{
  ℕ, ◌+◌, ◌-◌, ◌≤◌, ◌≡◌, refl, ap, ◌∙◌, Bool, true, false, List, [], ◌∷◌, ◌++◌, some, arith, length,
  length-append, ltb, ◌==◌, if◌then◌else◌, Bool-cases, inl, inr,
}
use libsdi.Base.Buffer.{overwrite, store_fits, length-overwrite}
use libsdi.Protocol.{ok, err_invalid_command, err_timeout}
use libsdi.Master.Bus.{
  cmd_max_chars, rx, tx, direction, transmitted, Master, send_command, recv_response, after_send,
  transact,
}

-- The arrays have their sizes, and the callback writes no more than the room it is told.
pub record IsMaster {W : Type 0} (m : Master W) : Type 0 where
  pub commands : length m.cmd_buf ≡ cmd_max_chars + 4
  pub responses : length m.resp_buf ≡ 86
  pub within : (room timeout : ℕ) (w : W) → length (m.recv room timeout w).0 ≤ room

-- The same callbacks, and arrays of the same sizes.
pub record SameBus {W : Type 0} (m m' : Master W) : Type 0 where
  pub sends : m'.send ≡ m.send
  pub receives : m'.recv ≡ m.recv
  pub commands : length m'.cmd_buf ≡ length m.cmd_buf
  pub responses : length m'.resp_buf ≡ length m.resp_buf

pub same_bus : {W : Type 0} (m m₁ m₂ : Master W) → SameBus m m₁ → SameBus m₁ m₂ → SameBus m m₂
same_bus m m₁ m₂ first second = record {
  sends = second.sends ∙ first.sends;
  receives = second.receives ∙ first.receives;
  commands = second.commands ∙ first.commands;
  responses = second.responses ∙ first.responses;
}

-- A test inside an option.
ends {ℓ} :
    {A : Type ℓ} (b : Bool) (x y : A) → (if b then some x else some y) ≡ some (if b then x else y)
ends true x y = refl
ends false x y = refl

module _ {W : Type 0} where
  -- The data recorder once a command has been sent.
  abbrev pub sent_by : List ℕ → Master W → Master W
  sent_by cmd m = record m {
    cmd_buf = overwrite m.cmd_buf 0 (cmd ++ 0 ∷ []);
    world = m.send cmd m.world;
    trace = m.trace ++ direction tx ∷ transmitted cmd ∷ direction rx ∷ [];
  }

  command_fits :
      (cmd : List ℕ) (m : Master W)
      → length cmd ≤ cmd_max_chars
      → IsMaster m
      → 0 + length (cmd ++ 0 ∷ []) ≤ length m.cmd_buf
  command_fits cmd m h v = omega (arith, length-append cmd (0 ∷ []), v.commands)

  pub send_command_lem :
      (cmd : List ℕ) (m : Master W)
      → length cmd ≤ cmd_max_chars
      → IsMaster m
      → send_command cmd m ≡ some (ok, sent_by cmd m)
  unfolding send_command
  send_command_lem cmd m h v =
      let short : ltb cmd_max_chars (length cmd) ≡ false = ground arith in
      rw (short, store_fits m.cmd_buf 0 (cmd ++ 0 ∷ []) (command_fits cmd m h v)) refl

  pub sent_by-IsMaster :
      (cmd : List ℕ) (m : Master W)
      → length cmd ≤ cmd_max_chars
      → IsMaster m
      → IsMaster (sent_by cmd m)
  sent_by-IsMaster cmd m h v = record {
    commands = length-overwrite m.cmd_buf 0 (cmd ++ 0 ∷ []) (command_fits cmd m h v) ∙ v.commands;
    responses = v.responses;
    within = v.within;
  }

  -- A transaction, in arrays of their sizes and with a callback that writes no more than its room,
  -- stays inside the arrays: a command that is too long is refused and nothing sent; any other is
  -- sent between the two changes of direction, and the bytes that the callback receives are put
  -- into the array, with a NUL behind them, and their count with them; no byte at all is a
  -- time-out.
  pub transact_lem :
      (cmd : List ℕ) (timeout : ℕ) (m : Master W)
      → IsMaster m
      → let got = m.recv 85 timeout (m.send cmd m.world) in
        let calls = direction tx ∷ transmitted cmd ∷ direction rx ∷ [] in
        let sent = record m {
          cmd_buf = overwrite m.cmd_buf 0 (cmd ++ 0 ∷ []);
          trace = m.trace ++ calls;
          resp_len = length got.0;
          world = got.1;
        } in
        transact cmd timeout m
        ≡ some (
            if ltb cmd_max_chars (length cmd)
            then (err_invalid_command, m)
            else if length got.0 == 0
            then (err_timeout, record sent { resp_buf = overwrite m.resp_buf 0 got.0 })
            else (
              ok,
              record sent {
                resp_buf = overwrite (overwrite m.resp_buf 0 got.0) (length got.0) (0 ∷ []);
              },
            ))
  unfolding transact send_command recv_response after_send
  transact_lem cmd timeout m v = elim (Bool-cases (ltb cmd_max_chars (length cmd))) [
    | inl e ↦ rw e refl
    | inr e ↦
        let got = m.recv 85 timeout (m.send cmd m.world) in
        let here : m.recv (length m.resp_buf - 1) timeout (m.send cmd m.world) ≡ got =
          ap (λ (k : ℕ). m.recv (k - 1) timeout (m.send cmd m.world)) v.responses in
        let few = v.within 85 timeout (m.send cmd m.world) in
        let put = store_fits m.resp_buf 0 got.0 (omega (arith, few, v.responses)) in
        let filled = overwrite m.resp_buf 0 got.0 in
        let size : length filled ≡ 86 =
          length-overwrite m.resp_buf 0 got.0 (omega (arith, few, v.responses)) ∙ v.responses in
        let end = store_fits filled (length got.0) (0 ∷ []) (omega (arith, few, size)) in
        let command : length (cmd ++ 0 ∷ []) ≤ length m.cmd_buf =
          ground (arith, length-append cmd (0 ∷ []), v.commands) in
        rw (e, store_fits m.cmd_buf 0 (cmd ++ 0 ∷ []) (omega (arith, command)), here, put, end)
          (ends (length got.0 == 0) _ _)
  ]
