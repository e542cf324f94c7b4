-- ===== src/Master/Bus.antt =====
-- sdi12_master.c: the context of the data recorder, and its transactions on the bus.
use libsdi.Base.{
  ℕ, ◌-◌, Bool, false, not, ◌&&◌, ◌||◌, List, [], ◌∷◌, ◌++◌, Option, none, some, length, ltb, leb,
  ◌==◌, if◌then◌else◌, ◌>>=◌,
}
use libsdi.Base.Buffer.{byte_at, store}
use libsdi.Protocol.{Err, ok, err_invalid_address, err_invalid_command, err_timeout, valid_address}
use libsdi.Master.Parse.{trim_crlf}

-- SDI12_CMD_MAX_CHARS, SDI12_RESPONSE_TIMEOUT_MS, SDI12_MARKING_MS
abbrev pub cmd_max_chars : ℕ
cmd_max_chars = 20

abbrev pub response_timeout_ms : ℕ
response_timeout_ms = 15

abbrev pub marking_ms : ℕ
marking_ms = 9

-- sdi12_dir_t
pub data Dir : Type 0 where
  rx tx : Dir

-- The calls of the callbacks that only act.
pub data BusEvent : Type 0 where
  direction : Dir → BusEvent
  transmitted : List ℕ → BusEvent
  break_sent : BusEvent
  delayed : ℕ → BusEvent

-- sdi12_master_ctx_t, with the world and the calls made so far. `send` and `recv` are callbacks:
-- what becomes of the world when bytes are transmitted, and, from the room in the array and the
-- time-out, the bytes that are written.
pub record Master (W : Type 0) : Type 0 where
  pub send : List ℕ → W → W
  pub recv : ℕ → ℕ → W → List ℕ × W
  pub cmd_buf : List ℕ
  pub resp_buf : List ℕ
  pub resp_len : ℕ
  pub world : W
  pub trace : List BusEvent

module _ {W : Type 0} where
  unfoldable pub send_command : List ℕ → Master W → Option (Err × Master W)
  send_command cmd m = if ltb cmd_max_chars (length cmd) then some (err_invalid_command, m) else do
    buf ← store m.cmd_buf 0 (cmd ++ 0 ∷ [])
    let calls = direction tx ∷ transmitted cmd ∷ direction rx ∷ []
    some (ok, record m { cmd_buf = buf; world = m.send cmd m.world; trace = m.trace ++ calls })

  unfoldable pub recv_response : ℕ → Master W → Option (Err × Master W)
  recv_response timeout_ms m = do
    let got = m.recv (length m.resp_buf - 1) timeout_ms m.world
    buf ← store m.resp_buf 0 got.0
    let m' = record m { resp_buf = buf; resp_len = length got.0; world = got.1 }
    let ended =
        store buf (length got.0) (0 ∷ []) >>= λ buf'. some (ok, record m' { resp_buf = buf' })
    if length got.0 == 0 then some (err_timeout, m') else ended

  unfoldable pub after_send : ℕ → Err × Master W → Option (Err × Master W)
  after_send timeout_ms (ok, m) = recv_response timeout_ms m
  after_send timeout_ms (err, m) = some (err, m)

  unfoldable pub transact : List ℕ → ℕ → Master W → Option (Err × Master W)
  transact cmd timeout_ms m = do sent ← send_command cmd m; after_send timeout_ms sent

  -- sdi12_master_send_break
  unfoldable pub send_break : Master W → Err × Master W
  send_break m = (ok, record m { trace = m.trace ++ break_sent ∷ delayed marking_ms ∷ [] })

  -- Whether the response, once it is trimmed, begins with an address; and the context.
  unfoldable pub trimmed_starts : ℕ → Master W → Option (Bool × Master W)
  trimmed_starts addr m = do
    trimmed ← trim_crlf m.resp_buf m.resp_len
    some (leb 1 trimmed.1 && byte_at trimmed.0 0 == addr, record m { resp_buf = trimmed.0 })

  -- The end of sdi12_master_acknowledge: a sensor that stays silent is absent.
  unfoldable pub presence : ℕ → Err × Master W → Option ((Err × Option Bool) × Master W)
  presence addr (ok, m) = do found ← trimmed_starts addr m; some ((ok, some found.0), found.1)
  presence addr (err_timeout, m) = some ((ok, some false), m)
  presence addr (err, m) = some ((err, none), m)

  -- sdi12_master_acknowledge: the code, and `*present` where it is written.
  unfoldable pub acknowledge : ℕ → Master W → Option ((Err × Option Bool) × Master W)
  acknowledge addr m =
      if not (valid_address addr)
      then some ((err_invalid_address, none), m)
      else (transact (addr ∷ b'!' ∷ []) response_timeout_ms m >>= λ done. presence addr done)

  unfoldable pub renaming : ℕ → Err × Master W → Option (Err × Master W)
  renaming new_addr (ok, m) = do
    found ← trimmed_starts new_addr m
    some (if found.0 then ok else err_invalid_address, found.1)
  renaming new_addr (err, m) = some (err, m)

  -- sdi12_master_change_address
  unfoldable pub change_address : ℕ → ℕ → Master W → Option (Err × Master W)
  change_address old_addr new_addr m =
      if not (valid_address old_addr) || not (valid_address new_addr)
      then some (err_invalid_address, m)
      else (transact (old_addr ∷ b'A' ∷ new_addr ∷ b'!' ∷ []) response_timeout_ms m >>= λ done.
          renaming new_addr done)
