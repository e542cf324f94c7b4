-- ===== src/Master/Line.antt =====
-- sdi12_master.c: a transaction that is answered by a line, up to its trimming.
use libsdi.Base.{
  ℕ, suc, ◌+◌, ◌≤◌, ◌≡◌, ◌≢◌, refl, drop, take-append, ◌==◌, subst, ap, ◌∙◌, ◌⊎◌, inl, inr, false,
  List, [], ◌∷◌, ◌++◌, append_assoc, some, All, arith, length, length-append, ltb,
}
use libsdi.Base.Buffer.{overwrite, length-overwrite}
use libsdi.Crc.{crlf}
use libsdi.Protocol.{ok}
use libsdi.Master.Parse.{trim_crlf}
use libsdi.Master.Trim.{trim_crlf_line}
use libsdi.Master.Bus.{cmd_max_chars, Master, transact}
use libsdi.Master.Transact.{IsMaster, SameBus, transact_lem}

-- A character that does not end a line.
abbrev pub IsInner : ℕ → Type 0
IsInner c = (c ≢ 0x0D) × (c ≢ 0x0A)

-- The last element of a list.
last_cases : (xs : List ℕ) → (xs ≡ []) ⊎ ((front : List ℕ) × (x : ℕ) × (xs ≡ front ++ x ∷ []))
last_cases [] = inl refl
last_cases (x ∷ xs) = elim (last_cases xs) [
  | inl e ↦ inr ([], x, ap (◌∷◌ x) e)
  | inr (front, y, e) ↦ inr (x ∷ front, y, ap (◌∷◌ x) e)
]

All-last : (P : ℕ → Type 0) (front : List ℕ) (x : ℕ) → All P (front ++ x ∷ []) → P x
All-last P [] x h = h.0
All-last P (y ∷ front) x h = All-last P front x h.1

-- A line that is not empty loses exactly its CR and LF.
pub trim_text :
    (text rest : List ℕ)
    → 1 ≤ length text
    → All IsInner text
    → trim_crlf (text ++ 0x0D ∷ 0x0A ∷ rest) (suc (suc (length text)))
      ≡ some (text ++ 0 ∷ 0 ∷ rest, length text)
trim_text text rest long h = elim (last_cases text) [
  | inl e ↦ absurd (ground arith)
  | inr (front, x, e) ↦
      let (cr, lf) = All-last IsInner front x (subst (All IsInner) e h) in
      let n : length (front ++ x ∷ []) ≡ suc (length front) =
        omega (arith, length-append front (x ∷ [])) in
      rw
        (
          e,
          append_assoc front (x ∷ []) (0x0D ∷ 0x0A ∷ rest),
          append_assoc front (x ∷ []) (0 ∷ 0 ∷ rest),
          n,
        )
        (trim_crlf_line front rest x (length front) refl cr lf)
]

-- What a transaction leaves in the array.
pub answer_stored :
    (got buf : List ℕ)
    → (rest : List ℕ) × (overwrite (overwrite buf 0 got) (length got) (0 ∷ []) ≡ got ++ 0 ∷ rest)
answer_stored got buf =
    let n = length got in
    let old = drop (0 + n) buf in
    (
      drop (n + 1) (got ++ old),
      ap (λ (t : List ℕ). t ++ 0 ∷ drop (n + 1) (got ++ old)) (take-append n got old refl),
    )

module _ {W : Type 0} where
  -- A transaction that is answered: SDI12_OK, and the answer ended by a NUL in the array.
  pub transact_got :
      (cmd got : List ℕ) (timeout : ℕ) (m : Master W)
      → length cmd ≤ cmd_max_chars
      → IsMaster m
      → 1 ≤ length got
      → (m.recv 85 timeout (m.send cmd m.world)).0 ≡ got
      → (m' : Master W) × (transact cmd timeout m ≡ some (ok, m'))
        × ((rest : List ℕ) × (m'.resp_buf ≡ got ++ 0 ∷ rest))
        × (m'.resp_len ≡ length got)
        × (m'.world ≡ (m.recv 85 timeout (m.send cmd m.world)).1)
        × SameBus m m'
  transact_got cmd got timeout m h v long e =
      let short : ltb cmd_max_chars (length cmd) ≡ false = ground arith in
      let some_bytes : (length got == 0) ≡ false = ground arith in
      let done = rw (short, e, some_bytes) at (transact_lem cmd timeout m v) in
      let stored = overwrite m.resp_buf 0 got in
      let room : length got ≤ 85 = rw e at (v.within 85 timeout (m.send cmd m.world)) in
      let size = length-overwrite m.resp_buf 0 got (omega (arith, room, v.responses)) in
      (
        _,
        done,
        answer_stored got m.resp_buf,
        refl,
        refl,
        record {
          sends = refl;
          receives = refl;
          commands =
              length-overwrite m.cmd_buf 0 (cmd ++ 0 ∷ [])
                (omega (arith, length-append cmd (0 ∷ []), v.commands));
          responses =
              length-overwrite stored (length got) (0 ∷ []) (omega (arith, room, size, v.responses))
              ∙ size;
        },
      )

  -- A transaction that is answered by a line: SDI12_OK, and trimming leaves the text of the line.
  pub transact_line :
      (cmd text : List ℕ) (timeout : ℕ) (m : Master W)
      → length cmd ≤ cmd_max_chars
      → IsMaster m
      → 1 ≤ length text
      → All IsInner text
      → (m.recv 85 timeout (m.send cmd m.world)).0 ≡ text ++ crlf
      → (m' : Master W) × (transact cmd timeout m ≡ some (ok, m'))
        × ((rest : List ℕ) × (trim_crlf m'.resp_buf m'.resp_len
              ≡ some (text ++ 0 ∷ 0 ∷ rest, length text)))
  transact_line cmd text timeout m h v long inner e =
      let size : length (text ++ crlf) ≡ suc (suc (length text)) =
        omega (arith, length-append text crlf) in
      let (m₁, sent, (rest, stored), count, world, bus) =
        transact_got cmd (text ++ crlf) timeout m h v (omega (arith, size)) e in
      let line = stored ∙ append_assoc text crlf (0 ∷ rest) in
      (m₁, sent, (0 ∷ rest, rw (count, size, line) (trim_text text (0 ∷ rest) long inner)))
