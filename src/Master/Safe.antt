-- ===== src/Master/Safe.antt =====
-- sdi12_master.c: whatever is received, a transaction stays inside the arrays and keeps what the bus
-- keeps.
use libsdi.Base.{
  ℕ, zero, suc, ◌+◌, ◌-◌, ◌≤◌, ◌≡◌, ◌≢◌, ◌⊎◌, refl, subst, sym, ap, ◌∙◌, Bool, ◌||◌, List, [], ◌∷◌,
  ◌++◌, Option, some, arith, length, length-append, ltb, ◌==◌, ◌>>=◌, Bool-cases, inl, inr,
}
use libsdi.Base.Buffer.{byte_at, overwrite, store, store_fits, length-overwrite}
use libsdi.Protocol.{Err, ok, err_invalid_command, err_timeout}
use libsdi.Master.Parse.{trim_crlf}
use libsdi.Master.Bus.{cmd_max_chars, Master, send_command, recv_response, after_send, transact}
use libsdi.Master.Transact.{
  IsMaster, SameBus, same_bus, sent_by, send_command_lem, sent_by-IsMaster,
}
pub mod Replies
pub mod Measures
pub mod Collect
pub mod Binary

-- A well-formed data recorder, on a world with a property `P` that receiving keeps and sending keeps
-- for the commands of `C`.
pub record Guarded {W : Type 0} (P : W → Type 0) (C : List ℕ → Type 0) (m : Master W) : Type 0 where
  pub arrays : IsMaster m
  pub sends : (cmd : List ℕ) (w : W) → C cmd → P w → P (m.send cmd w)
  pub receives : (room timeout : ℕ) (w : W) → P w → P (m.recv room timeout w).1
  pub holds : P m.world

module _ {W : Type 0} (P : W → Type 0) (C : List ℕ → Type 0) where
  -- What a command leaves behind.
  pub record Stays (m m' : Master W) : Type 0 where
    pub bus : SameBus m m'
    pub guarded : Guarded P C m'

  -- A call returns, without an access outside an array, and leaves the data recorder well-formed.
  abbrev pub Safe : {R : Type 0} → Master W → Option (R × Master W) → Type 0
  Safe {R} m run = (r : R) × (m' : Master W) × (run ≡ some (r, m')) × Stays m m'

  -- An exchange either is answered, by one byte at least, or fails.
  pub data Outcome (m : Master W) (run : Option (Err × Master W)) : Type 0 where
    answered :
        (m' : Master W)
        → run ≡ some (ok, m')
        → Stays m m'
        → 1 ≤ m'.resp_len
        → m'.resp_len ≤ 85
        → Outcome m run
    failed : (e : Err) (m' : Master W) → e ≢ ok → run ≡ some (e, m') → Stays m m' → Outcome m run

  pub Stays-trans : (m m₁ m₂ : Master W) → Stays m m₁ → Stays m₁ m₂ → Stays m m₂
  Stays-trans m m₁ m₂ first second = record {
    bus = same_bus m m₁ m₂ first.bus second.bus;
    guarded = second.guarded;
  }

  pub Stays-refl : (m : Master W) → Guarded P C m → Stays m m
  Stays-refl m g = record {
    bus = record { sends = refl; receives = refl; commands = refl; responses = refl };
    guarded = g;
  }

  -- Another text in the response array.
  pub buffer-Stays :
      (m : Master W) (buf : List ℕ)
      → Guarded P C m
      → length buf ≡ length m.resp_buf
      → Stays m (record m { resp_buf = buf })
  buffer-Stays m buf g size = record {
    bus = record { sends = refl; receives = refl; commands = refl; responses = size };
    guarded = record {
      arrays = record {
        commands = g.arrays.commands;
        responses = size ∙ g.arrays.responses;
        within = g.arrays.within;
      };
      sends = g.sends;
      receives = g.receives;
      holds = g.holds;
    };
  }

  -- Bytes have been received, and the array holds another text.
  heard-Stays :
      (m : Master W) (room timeout n : ℕ) (buf : List ℕ)
      → Guarded P C m
      → length buf ≡ length m.resp_buf
      → Stays m (record m { resp_buf = buf; resp_len = n; world = (m.recv room timeout m.world).1 })
  heard-Stays m room timeout n buf g size = record {
    bus = record { sends = refl; receives = refl; commands = refl; responses = size };
    guarded = record {
      arrays = record {
        commands = g.arrays.commands;
        responses = size ∙ g.arrays.responses;
        within = g.arrays.within;
      };
      sends = g.sends;
      receives = g.receives;
      holds = g.receives room timeout m.world g.holds;
    };
  }

  -- A command that fits has been sent.
  pub sent-Stays :
      (cmd : List ℕ) (m : Master W)
      → Guarded P C m
      → length cmd ≤ cmd_max_chars
      → C cmd
      → Stays m (sent_by cmd m)
  sent-Stays cmd m g short c =
      let v = sent_by-IsMaster cmd m short g.arrays in
      record {
        bus = record {
          sends = refl;
          receives = refl;
          commands = v.commands ∙ sym g.arrays.commands;
          responses = refl;
        };
        guarded = record {
          arrays = v;
          sends = g.sends;
          receives = g.receives;
          holds = g.sends cmd m.world c g.holds;
        };
      }

  pub recv_response-Outcome :
      (timeout : ℕ) (m : Master W) → Guarded P C m → Outcome m (recv_response timeout m)
  unfolding recv_response
  recv_response-Outcome timeout m g =
      let room = length m.resp_buf - 1 in
      let got = m.recv room timeout m.world in
      let few : length got.0 ≤ 85 =
        omega (arith, g.arrays.within room timeout m.world, g.arrays.responses) in
      let put = store_fits m.resp_buf 0 got.0 (omega (arith, few, g.arrays.responses)) in
      let filled = overwrite m.resp_buf 0 got.0 in
      let size : length filled ≡ length m.resp_buf =
        length-overwrite m.resp_buf 0 got.0 (omega (arith, few, g.arrays.responses)) in
      let inside : length got.0 + 1 ≤ length filled =
        omega (arith, few, size, g.arrays.responses) in
      let end = store_fits filled (length got.0) (0 ∷ []) inside in
      let size' = length-overwrite filled (length got.0) (0 ∷ []) inside in
      elim (Bool-cases (length got.0 == 0)) [
        | inl e ↦
            failed err_timeout _ (λ h. cc) (rw (put, e) refl)
              (heard-Stays m room timeout (length got.0) filled g size)
        | inr e ↦
            answered _ (rw (put, e, end) refl)
              (heard-Stays m room timeout (length got.0) _ g (size' ∙ size)) (ground arith) few
      ]

  pub Outcome-trans :
      (m m₁ : Master W) (run : Option (Err × Master W))
      → Stays m m₁
      → Outcome m₁ run
      → Outcome m run
  Outcome-trans m m₁ run first (answered m' e s low high) =
      answered m' e (Stays-trans m m₁ m' first s) low high
  Outcome-trans m m₁ run first (failed err m' ne e s) =
      failed err m' ne e (Stays-trans m m₁ m' first s)

  -- Sending, to a command with the property `C`: it is refused, or sent.
  pub send_cases :
      (cmd : List ℕ) (m : Master W)
      → Guarded P C m
      → C cmd
      → (m' : Master W) × Stays m m'
        × ((send_command cmd m ≡ some (ok, m'))
            ⊎ (send_command cmd m ≡ some (err_invalid_command, m')))
  unfolding send_command
  send_cases cmd m g c = elim (Bool-cases (ltb cmd_max_chars (length cmd))) [
    | inl e ↦ (m, Stays-refl m g, inr (rw e refl))
    | inr e ↦
        let short : length cmd ≤ cmd_max_chars = ground arith in
        (sent_by cmd m, sent-Stays cmd m g short c, inl (send_command_lem cmd m short g.arrays))
  ]

  pub transact-Outcome :
      (cmd : List ℕ) (timeout : ℕ) (m : Master W)
      → Guarded P C m
      → C cmd
      → Outcome m (transact cmd timeout m)
  unfolding transact after_send
  transact-Outcome cmd timeout m g c =
      let (m₁, s, how) = send_cases cmd m g c in
      elim how [
        | inl e ↦ rw e (
            Outcome-trans m m₁ (recv_response timeout m₁) s
              (recv_response-Outcome timeout m₁ s.guarded))
        | inr e ↦ failed err_invalid_command m₁ (λ h. cc) (rw e refl) s
      ]

  -- What a call does with the outcome of its transaction.
  pub after-Safe :
      {R : Type 0} (m : Master W) (run : Option (Err × Master W))
      (k : Err × Master W → Option (R × Master W))
      → Outcome m run
      → ((m' : Master W)
          → Guarded P C m'
          → 1 ≤ m'.resp_len
          → m'.resp_len ≤ 85
          → Safe m' (k (ok, m')))
      → ((e : Err) (m' : Master W) → e ≢ ok → (r : R) × (k (e, m') ≡ some (r, m')))
      → Safe m (run >>= k)
  after-Safe m run k (answered m₁ e s low high) good bad =
      let (r, m₂, done, t) = good m₁ s.guarded low high in
      (r, m₂, rw (e, done) refl, Stays-trans m m₁ m₂ s t)
  after-Safe m run k (failed err m₁ ne e s) good bad =
      let (r, done) = bad err m₁ ne in (r, m₁, rw (e, done) refl, s)

-- Trimming inside the array: nothing moves, and the text is not longer.
pub trim_crlf_total :
    (buf : List ℕ) (len : ℕ)
    → len ≤ length buf
    → (out : List ℕ) × (n : ℕ) × (trim_crlf buf len ≡ some (out, n))
      × (length out ≡ length buf)
      × (n ≤ len)
unfolding trim_crlf
trim_crlf_total buf zero h = (buf, 0, refl, refl, omega arith)
trim_crlf_total buf (suc len) h =
    elim (Bool-cases (byte_at buf len == 0x0D || byte_at buf len == 0x0A)) [
      | inr other ↦ (buf, suc len, rw other refl, refl, omega arith)
      | inl ends ↦
          let inside : len + 1 ≤ length buf = omega arith in
          let size = length-overwrite buf len (0 ∷ []) inside in
          let (out, n, e, same, le) =
            trim_crlf_total (overwrite buf len (0 ∷ [])) len (omega (arith, size)) in
          (out, n, rw (ends, store_fits buf len (0 ∷ []) inside) e, same ∙ size, omega (arith, le))
    ]
