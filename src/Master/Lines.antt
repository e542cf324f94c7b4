-- ===== src/Master/Lines.antt =====
-- sdi12_master.c: sdi12_master_extended_multiline ends inside the caller's array, and what it
-- collects.
use libsdi.Base.{
  ℕ, ◌+◌, ◌-◌, ◌%◌, ◌^◌, ◌≤◌, ◌≡◌, refl, sym, ap, ◌∙◌, ◌⊎◌, inl, inr, List, [], ◌∷◌, ◌++◌,
  append_assoc, some, arith, length, length-append, length-take, take, drop, take-append, take_all,
  take_past, take_inside, ltb, ◌==◌, Bool-cases, if◌then◌else◌,
}
use libsdi.Base.Buffer.{splice, overwrite, store_fits, length-overwrite}
use libsdi.Protocol.{ok, err_timeout}
use libsdi.Master.Bus.{Master, recv_response}
use libsdi.Master.Transact.{IsMaster}
use libsdi.Master.Line.{answer_stored}
use libsdi.Master.Extended.{Received, add_line}

nothing : (xs : List ℕ) → length xs ≡ 0 → xs ≡ []
nothing [] e = refl
nothing (x ∷ xs) e = absurd (omega (arith, e))

same_received :
    {out out' : List ℕ} {total total' lines lines' : ℕ}
    → out ≡ out'
    → total ≡ total'
    → lines ≡ lines'
    → let r : Received = record { out = out; total = total; lines = lines } in
      let r' : Received = record { out = out'; total = total'; lines = lines' } in some r ≡ some r'
same_received o t l = rw (o, t, l) refl

-- The bytes of a line that are copied behind `n` bytes.
copied_part :
    (size n : ℕ) (bytes rest : List ℕ)
    → take (if ltb size (n + length bytes) then size - n else length bytes) (bytes ++ rest)
      ≡ take (size - n) bytes
copied_part size n bytes rest = elim (Bool-cases (ltb size (n + length bytes))) [
  | inl e ↦ rw e (take_inside (size - n) bytes rest (ground arith))
  | inr e ↦
      rw e (
        take-append (length bytes) bytes rest refl ∙ sym (take_all (size - n) bytes (ground arith)))
]

module _ {W : Type 0} where
  -- What is received within a time-out: silence, or bytes that are in the array.
  pub heard :
      (timeout : ℕ) (m : Master W)
      → IsMaster m
      → let got = m.recv 85 timeout m.world in
        ((got.0 ≡ [])
          × ((buf : List ℕ) × (length buf ≡ 86)
              × (recv_response timeout m
                  ≡ some (err_timeout, record m { resp_buf = buf; resp_len = 0; world = got.1 }))))
        ⊎ ((1 ≤ length got.0)
            × ((rest : List ℕ) × (length (got.0 ++ rest) ≡ 86)
                × (recv_response timeout m
                    ≡ some (
                      ok,
                      record m { resp_buf = got.0 ++ rest; resp_len = length got.0; world = got.1 },
                    ))))
  unfolding recv_response
  heard timeout m v =
      let got = m.recv 85 timeout m.world in
      let here : m.recv (length m.resp_buf - 1) timeout m.world ≡ got =
        ap (λ (k : ℕ). m.recv (k - 1) timeout m.world) v.responses in
      let few = v.within 85 timeout m.world in
      let put = store_fits m.resp_buf 0 got.0 (omega (arith, few, v.responses)) in
      let filled = overwrite m.resp_buf 0 got.0 in
      let size : length filled ≡ 86 =
        length-overwrite m.resp_buf 0 got.0 (omega (arith, few, v.responses)) ∙ v.responses in
      let end = store_fits filled (length got.0) (0 ∷ []) (omega (arith, few, size)) in
      let ended = length-overwrite filled (length got.0) (0 ∷ []) (omega (arith, few, size)) in
      let (rest, shape) = answer_stored got.0 m.resp_buf in
      elim (Bool-cases (length got.0 == 0)) [
        | inl e ↦
            let none_at_all : length got.0 ≡ 0 = ground arith in
            inl (nothing got.0 none_at_all, (filled, size, rw (here, put, e, none_at_all) refl))
        | inr e ↦ inr (
          ground arith,
          (0 ∷ rest, sym (ap length shape) ∙ ended ∙ size, rw (here, put, end, e, shape) refl),
        )
      ]

  -- A line goes behind the text that is there, as far as it fits.
  pub add_line_lem :
      (size : ℕ) (text old bytes rest : List ℕ) (k : ℕ) (m : Master W)
      → length text ≤ size
      → size ≤ length (text ++ old)
      → m.resp_buf ≡ bytes ++ rest
      → m.resp_len ≡ length bytes
      → let all = take size (text ++ bytes) in
        (old' : List ℕ) × (length (all ++ old') ≡ length (text ++ old))
        × (add_line size (record { out = text ++ old; total = length text; lines = k % 2 ^ 8 }) m
            ≡ some (record { out = all ++ old'; total = length all; lines = (k + 1) % 2 ^ 8 }))
  unfolding add_line
  add_line_lem size text old bytes rest k m h room e n =
      let copy =
        if ltb size (length text + length bytes) then size - length text else length bytes in
      let part = take (size - length text) bytes in
      let cut : take copy (bytes ++ rest) ≡ part = copied_part size (length text) bytes rest in
      let joined = take_past size text bytes h in
      let count : copy ≡ length part = ground (arith, length-take (size - length text) bytes) in
      let put =
        store_fits (text ++ old) (length text) part
          (omega (arith, length-take (size - length text) bytes)) in
      let written = splice text old part (text ++ old) (length text) refl refl in
      let old' = drop (length text + length part) (text ++ old) in
      let shape : overwrite (text ++ old) (length text) part ≡ take size (text ++ bytes) ++ old' =
        written ∙ sym (append_assoc text part old') ∙ ap (λ (t : List ℕ). t ++ old') (sym joined) in
      let whole =
        length-overwrite (text ++ old) (length text) part
          (omega (arith, length-take (size - length text) bytes)) in
      let sum : length text + copy ≡ length (take size (text ++ bytes)) =
        omega (arith, count, length-append text part, ap length joined) in
      let wrapped : (k % 2 ^ 8 + 1) % 2 ^ 8 ≡ (k + 1) % 2 ^ 8 = omega arith in
      (old', sym (ap length shape) ∙ whole, rw (n, e, cut, put) (same_received shape sum wrapped))
