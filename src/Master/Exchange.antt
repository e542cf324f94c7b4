-- ===== src/Master/Exchange.antt =====
-- sdi12_master.c: the commands to a sensor that answers with an address, or stays silent.
use libsdi.Base.{
  ℕ, ◌≤◌, ◌≡◌, ◌≢◌, refl, sym, ap, ◌∙◌, Bool, true, false, List, [], ◌∷◌, ◌++◌, some, arith, length,
  ltb, ◌==◌, if◌then◌else◌,
}
use libsdi.Crc.{crlf}
use libsdi.Protocol.{ok, err_timeout, valid_address}
use libsdi.Sensor.Answer.{address_byte}
use libsdi.Master.Trim.{trim_crlf_line}
use libsdi.Master.Bus.{
  cmd_max_chars, response_timeout_ms, Master, transact, trimmed_starts, presence, acknowledge,
  renaming, change_address,
}
use libsdi.Master.Transact.{IsMaster, SameBus, same_bus, transact_lem}
use libsdi.Master.Line.{transact_got}

pub valid-lf : (a : ℕ) → valid_address a ≡ true → a ≢ 0x0A
unfolding valid_address
valid-lf a h = ground arith

module _ {W : Type 0} where
  -- A response that is an address, CR and LF starts with that address.
  trimmed_starts_line :
      (a : ℕ) (rest : List ℕ) (m : Master W)
      → valid_address a ≡ true
      → m.resp_buf ≡ a ∷ (crlf ++ rest)
      → m.resp_len ≡ 3
      → (m' : Master W) × (trimmed_starts a m ≡ some (true, m'))
        × (m'.world ≡ m.world)
        × SameBus m m'
  unfolding trimmed_starts
  trimmed_starts_line a rest m h e n =
      let (nz, small, ncr) = address_byte a h in
      let trimmed = trim_crlf_line [] rest a 0 refl ncr (valid-lf a h) in
      let same : (a == a) ≡ true = ground arith in
      (
        record m { resp_buf = a ∷ 0 ∷ 0 ∷ rest },
        rw (e, n, trimmed, same) refl,
        refl,
        record { sends = refl; receives = refl; commands = refl; responses = ap length (sym e) },
      )

  transact_answer :
      (cmd : List ℕ) (a : ℕ) (m : Master W)
      → length cmd ≤ cmd_max_chars
      → IsMaster m
      → (m.recv 85 response_timeout_ms (m.send cmd m.world)).0 ≡ a ∷ crlf
      → (m' : Master W) × (transact cmd response_timeout_ms m ≡ some (ok, m'))
        × ((rest : List ℕ) × (m'.resp_buf ≡ a ∷ (crlf ++ rest)))
        × (m'.resp_len ≡ 3)
  transact_answer cmd a m h v e =
      let short : ltb cmd_max_chars (length cmd) ≡ false = ground arith in
      let done = rw (short, e) at (transact_lem cmd response_timeout_ms m v) in
      (_, done, (_, refl), refl)

  transact_silence :
      (cmd : List ℕ) (m : Master W)
      → length cmd ≤ cmd_max_chars
      → IsMaster m
      → (m.recv 85 response_timeout_ms (m.send cmd m.world)).0 ≡ []
      → (m' : Master W) × (transact cmd response_timeout_ms m ≡ some (err_timeout, m'))
  transact_silence cmd m h v e =
      let short : ltb cmd_max_chars (length cmd) ≡ false = ground arith in
      let done = rw (short, e) at (transact_lem cmd response_timeout_ms m v) in (_, done)

  -- Asked whether a sensor with a valid address is there, a well-formed data recorder returns
  -- SDI12_OK, and says present if the address, CR and LF come back, and absent if nothing does.
  pub acknowledge_lem :
      (a : ℕ) (answers : Bool) (m : Master W)
      → valid_address a ≡ true
      → IsMaster m
      → (m.recv 85 response_timeout_ms (m.send (a ∷ b'!' ∷ []) m.world)).0
        ≡ (if answers then a ∷ crlf else [])
      → (m' : Master W) × (acknowledge a m ≡ some ((ok, some answers), m'))
  unfolding acknowledge presence
  acknowledge_lem a true m h v e =
      let (m₁, sent, (rest, line), n) = transact_answer (a ∷ b'!' ∷ []) a m (omega arith) v e in
      let (m₂, found, _, _) = trimmed_starts_line a rest m₁ h line n in
      (m₂, rw (h, sent, found) refl)
  acknowledge_lem a false m h v e =
      let (m₁, sent) = transact_silence (a ∷ b'!' ∷ []) m (omega arith) v e in
      (m₁, rw (h, sent) refl)

  -- The change of an address that comes back, and what it leaves alone.
  pub change_address-answered :
      (old new : ℕ) (m : Master W)
      → valid_address old ≡ true
      → valid_address new ≡ true
      → IsMaster m
      → (m.recv 85 response_timeout_ms (m.send (old ∷ b'A' ∷ new ∷ b'!' ∷ []) m.world)).0
        ≡ new ∷ crlf
      → (m' : Master W) × (change_address old new m ≡ some (ok, m'))
        × (m'.world
            ≡ (m.recv 85 response_timeout_ms (m.send (old ∷ b'A' ∷ new ∷ b'!' ∷ []) m.world)).1)
        × SameBus m m'
  unfolding change_address renaming
  change_address-answered old new m h k v e =
      let cmd = old ∷ b'A' ∷ new ∷ b'!' ∷ [] in
      let (m₁, sent, (rest, line), n, world, bus) =
        transact_got cmd (new ∷ crlf) response_timeout_ms m (omega arith) v (omega arith) e in
      let (m₂, found, same, bus₂) = trimmed_starts_line new (0 ∷ rest) m₁ k line n in
      (m₂, rw (h, k, sent, found) refl, same ∙ world, same_bus m m₁ m₂ bus bus₂)

  -- A change from one valid address to another, by a well-formed data recorder, returns SDI12_OK
  -- if the new address, CR and LF come back, and a time-out if nothing does.
  pub change_address_lem :
      (old new : ℕ) (answers : Bool) (m : Master W)
      → valid_address old ≡ true
      → valid_address new ≡ true
      → IsMaster m
      → (m.recv 85 response_timeout_ms (m.send (old ∷ b'A' ∷ new ∷ b'!' ∷ []) m.world)).0
        ≡ (if answers then new ∷ crlf else [])
      → (m' : Master W) × (change_address old new m
          ≡ some (if answers then ok else err_timeout, m'))
  unfolding change_address renaming
  change_address_lem old new true m h k v e =
      let (m₁, done, _, _) = change_address-answered old new m h k v e in (m₁, done)
  change_address_lem old new false m h k v e =
      let cmd = old ∷ b'A' ∷ new ∷ b'!' ∷ [] in
      let (m₁, sent) = transact_silence cmd m (omega arith) v e in (m₁, rw (h, k, sent) refl)
