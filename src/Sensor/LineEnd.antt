-- ===== src/Sensor/LineEnd.antt =====
-- sdi12_sensor.c: CR, LF and the CRC behind a line that is in the array.
use libsdi.Base.{
  ℕ, zero, suc, ◌+◌, ◌≤◌, ◌≡◌, ◌≢◌, refl, sym, ap, ◌∙◌, Bool, true, false, List, [], ◌∷◌, ◌++◌,
  append_assoc, some, All-append, arith, length, length-take, Option-cases, take, drop, inl, inr,
}
use libsdi.Base.Buffer.{
  splice, byte_at, overwrite, store, store_fits, strlen, strlen-append, strlen_sound, strlen-split,
}
use libsdi.Crc.{crlf}
use libsdi.Protocol.{max_response_len}
use libsdi.Sensor.Metadata.{end_line}
use libsdi.Sensor.Valid.{IsBuffer}
use libsdi.Sensor.CrcLine.{Line, Line-crc_append, overwrite-IsBuffer}
use libsdi.Sensor.PageAnswers.{Rendered}

-- CR and LF over the NUL of a line.
pub Line-crlf :
    (a n : ℕ) (buf : List ℕ)
    → IsBuffer buf
    → (line : Line a buf) → n ≡ suc (length line.0)
    → n + 3 ≤ max_response_len
    → Rendered false a (store buf n (crlf ++ 0 ∷ []))
Line-crlf a n buf b (body, rest, e, clean) h room =
    let end = crlf ++ 0 ∷ [] in
    let tail = drop (n + 3) buf in
    (
      overwrite buf n end,
      store_fits buf n end (omega (arith, b.0)),
      overwrite-IsBuffer buf end n b (omega arith) room,
      (
        (
          body ++ crlf,
          tail,
          splice (a ∷ body) (0 ∷ rest) end buf n e h
              ∙ ap (◌∷◌ a) (sym (append_assoc body crlf (0 ∷ tail))),
          All-append (λ c. c ≢ 0) body crlf clean (omega arith),
        ),
        tt,
      ),
    )

-- A string that starts with the address is a line.
pub Line-strlen :
    (a : ℕ) (buf : List ℕ) (n : ℕ)
    → a ≢ 0
    → byte_at buf 0 ≡ a
    → strlen buf ≡ some n
    → (line : Line a buf) × (n ≡ suc (length line.0))
unfolding strlen
Line-strlen a [] n nz head found = cc
Line-strlen a (c ∷ tl) zero nz head found = elim (Option-cases (strlen tl)) [
  | inl e ↦ ground arith
  | inr (m, e) ↦ ground arith
]
Line-strlen a (c ∷ tl) (suc m) nz head found =
    let (rest, e) = strlen-split (c ∷ tl) (suc m) found in
    let (low, clean) = strlen_sound (c ∷ tl) (suc m) found in
    (
      (take m tl, rest, e ∙ ap (λ (x : ℕ). x ∷ (take m tl ++ 0 ∷ rest)) head, clean.1),
      omega (arith, length-take m tl),
    )

pub end_line-Rendered :
    (crc : Bool) (a : ℕ) (buf : List ℕ)
    → a ≢ 0
    → a ≢ 0x0D
    → IsBuffer buf
    → (line : Line a buf) → length line.0 ≤ 75
    → Rendered crc a (end_line crc buf)
unfolding end_line
end_line-Rendered true a buf nz ncr b line h =
    let (out, e, b', line') = Line-crc_append buf a b nz ncr line h in (out, rw e, b', line')
end_line-Rendered false a buf nz ncr b (body, rest, e, clean) h =
    let found : strlen buf ≡ some (suc (length body)) =
      ap strlen e ∙ strlen-append (a ∷ body) rest (nz, clean) in
    rw found (Line-crlf a (suc (length body)) buf b (body, rest, e, clean) refl (omega arith))
