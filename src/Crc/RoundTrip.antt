-- ===== src/Crc/RoundTrip.antt =====
-- sdi12_crc_append, sdi12_crc_append_n and sdi12_crc_verify together.
use libsdi.Base.{
  ℕ, ◌+◌, ◌-◌, ◌≤◌, ◌≡◌, ◌≢◌, refl, sym, ap, ◌∙◌, List, [], ◌∷◌, ◌++◌, append_assoc, arith, All,
  length, take, drop, true, false, ◌&&◌, ◌==◌, some, get_or-append, take-append, length-take,
}
use libsdi.Base.{
  length-append, Bool-cases, inl, inr, suc, All-append, All-take_le, All-take, ltb, if◌then◌else◌,
  ◌↔◌, ◌/◌, ◌%◌,
}
use libsdi.Protocol.{ok, err_buffer_overflow}
use libsdi.Base.Buffer.{strlen-append, store_fits, byte_at, overwrite, strlen, strlen_sound, NoNul}
use libsdi.Crc.{
  crc_loop, crc16, crc_encode_ascii, crlf, insert_crc, strip_crlf, crc_append, drop_last,
  crc_verify,
}
use libsdi.Crc.Step.{IsByte, IsWord}
use libsdi.Crc.Detect.{crc_loop-IsWord, crc_loop_one_byte, crc16_all}
use libsdi.Crc.Encode.{crc_encode_ascii_lem}

abbrev pub frame : List ℕ → List ℕ → List ℕ → List ℕ
frame text code tail = text ++ (code ++ (crlf ++ tail))

module _ (text tail : List ℕ) (x y z : ℕ) where
  abbrev framed : List ℕ
  framed = frame text (x ∷ y ∷ z ∷ []) tail

  frame_at :
      (i n : ℕ) → n ≡ length text + i → byte_at framed n ≡ byte_at (x ∷ y ∷ z ∷ 13 ∷ 10 ∷ tail) i
  frame_at i n e = get_or-append n text _ i 0 e

  drop_crlf : drop_last 0x0D framed (drop_last 0x0A framed (length text + 5)) ≡ length text + 3
  unfolding drop_last
  drop_crlf = ground (
    arith,
    frame_at 4 (length text + 5 - 1) (omega arith),
    frame_at 3 (length text + 4 - 1) (omega arith),
    frame_at 3 (length text + 5 - 1 - 1) (omega arith),
  )

  crc16-framed : crc16 framed (length text + 3 - 3) ≡ crc_loop 0 text
  unfolding crc16
  crc16-framed = ap (crc_loop 0) (take-append _ text _ (omega arith))

-- A message with its terminator is accepted exactly when the three characters are its CRC.
crc_verify-frame :
    (text tail : List ℕ) (x y z : ℕ)
    → 1 ≤ length text
    → crc_verify (frame text (x ∷ y ∷ z ∷ []) tail) (length text + 5) ≡ (
        let code = crc_encode_ascii (crc_loop 0 text) in
        x == byte_at code 0 && (y == byte_at code 1 && z == byte_at code 2))
unfolding crc_verify
crc_verify-frame text tail x y z h = ground (
  arith,
  drop_crlf text tail x y z,
  crc16-framed text tail x y z,
  frame_at text tail x y z 0 (length text + 3 - 3) (omega arith),
  frame_at text tail x y z 1 (length text + 3 - 3 + 1) (omega arith),
  frame_at text tail x y z 2 (length text + 3 - 3 + 2) (omega arith),
)

-- With the text of the word `c` for its CRC, it is accepted exactly when `c` is its CRC.
crc_verify-encode :
    (text tail : List ℕ) (c d : ℕ)
    → IsWord c
    → IsWord d
    → d ≡ crc_loop 0 text
    → 1 ≤ length text
    → (crc_verify (frame text (crc_encode_ascii c) tail) (length text + 5) ≡ true) ↔ (c ≡ d)
crc_verify-encode text tail c d hc hd e h = rw (crc_encode_ascii_lem c hc) (
    rw
      (
        crc_verify-frame text tail (64 + c / 4096) (64 + c / 64 % 64) (64 + c % 64) h,
        ← e,
        crc_encode_ascii_lem d hd,
      )
      (ground arith))

-- The characters that are written are those of a word.
pub crc16-IsWord : (buf : List ℕ) (n : ℕ) → All IsByte buf → IsWord (crc16 buf n)
unfolding crc16
crc16-IsWord buf n h = crc_loop-IsWord (take n buf) 0 (omega arith) (All-take IsByte n buf h)

pub crc16-take : (buf : List ℕ) (d : ℕ) → crc16 buf d ≡ crc_loop 0 (take d buf)
unfolding crc16
crc16-take buf d = refl

abbrev pub trailer : List ℕ → ℕ → List ℕ
trailer buf d = crc_encode_ascii (crc16 buf d) ++ (crlf ++ 0 ∷ [])

pub length-trailer : (buf : List ℕ) (d : ℕ) → All IsByte buf → length (trailer buf d) ≡ 6
length-trailer buf d h = rw (crc_encode_ascii_lem _ (crc16-IsWord buf d h))

pub stored-frame :
    (buf : List ℕ) (d : ℕ)
    → All IsByte buf
    → overwrite buf d (trailer buf d)
      ≡ frame (take d buf) (crc_encode_ascii (crc16 buf d)) (0 ∷ drop (d + 6) buf)
stored-frame buf d h = rw (crc_encode_ascii_lem _ (crc16-IsWord buf d h))

-- The insertion behind both append functions: what it writes, and when it refuses.
pub insert_crc_lem :
    (buf : List ℕ) (d buflen : ℕ)
    → All IsByte buf
    → buflen ≤ length buf
    → insert_crc buf d buflen ≡ (
        if ltb buflen (d + 6)
        then some (err_buffer_overflow, buf)
        else some (ok, overwrite buf d (trailer buf d)))
unfolding insert_crc
insert_crc_lem buf d buflen h fits =
    ground (arith, length-trailer buf d h, store_fits buf d (trailer buf d))

pub crc_append_cases :
    (buf : List ℕ) (n buflen : ℕ)
    → All IsByte buf
    → buflen ≤ length buf
    → strlen buf ≡ some n
    → let d = strip_crlf buf n in
      crc_append buf buflen ≡ (
        if ltb buflen (d + 6)
        then some (err_buffer_overflow, buf)
        else some (ok, overwrite buf d (trailer buf d)))
unfolding crc_append
crc_append_cases buf n buflen h fits e = rw e (insert_crc_lem buf (strip_crlf buf n) buflen h fits)

pub strip_crlf-le : (buf : List ℕ) (n : ℕ) → strip_crlf buf n ≤ n
unfolding strip_crlf
strip_crlf-le buf n = ground arith

framed_strlen :
    (text tail : List ℕ) (x y z : ℕ)
    → NoNul text
    → NoNul (x ∷ y ∷ z ∷ [])
    → strlen (frame text (x ∷ y ∷ z ∷ []) (0 ∷ tail)) ≡ some (length text + 5)
framed_strlen text tail x y z h hc =
    let line = x ∷ y ∷ z ∷ crlf in
    ap strlen (sym (append_assoc text line (0 ∷ tail)))
    ∙ strlen-append (text ++ line) tail
        (All-append (λ c. c ≢ 0) text line h (hc.0, (hc.1.0, (hc.1.1.0, omega arith))))
    ∙ ap some (length-append text line)

-- A text with its CRC, CR, LF and NUL behind it, read back.
framed_string :
    (text tail : List ℕ) (c d : ℕ)
    → All IsByte text
    → NoNul text
    → 1 ≤ length text
    → c ≡ crc_loop 0 text
    → d ≡ length text
    → let out = frame text (crc_encode_ascii c) (0 ∷ tail) in
      (take d out ≡ text) × (strlen out ≡ some (d + 5)) × (crc_verify out (d + 5) ≡ true)
framed_string text tail c d h nonul pos hc hd =
    let hw : IsWord c = rw hc (crc_loop-IsWord text 0 (omega arith) h) in
    rw hd (
      take-append (length text) text _ refl,
      rw (crc_encode_ascii_lem c hw) (framed_strlen text tail _ _ _ nonul (omega arith)),
      (crc_verify-encode text (0 ∷ tail) c c hw hw hc pos).1 refl,
    )

-- A text with its CRC, CR and LF is accepted.
pub crc_verify_framed :
    (text : List ℕ) (c : ℕ)
    → All IsByte text
    → 1 ≤ length text
    → c ≡ crc_loop 0 text
    → let line = frame text (crc_encode_ascii c) [] in crc_verify line (length line) ≡ true
crc_verify_framed text c h pos hc =
    let hw : IsWord c = rw hc (crc_loop-IsWord text 0 (omega arith) h) in
    let line = frame text (crc_encode_ascii c) [] in
    let three : length (crc_encode_ascii c) ≡ 3 = rw (crc_encode_ascii_lem c hw) refl in
    let size : length line ≡ length text + 5 = omega (
      arith,
      three,
      length-append text (crc_encode_ascii c ++ crlf),
      length-append (crc_encode_ascii c) crlf,
    ) in
    ap (crc_verify line) size ∙ (crc_verify-encode text [] c c hw hw hc pos).1 refl

-- If sdi12_crc_append succeeds on a string of at least one character in front of its CR and LF, in
-- an array of bytes of at least the size that it is told, then the array holds one string, five
-- characters longer than the data, that sdi12_crc_verify accepts, with the data in front unchanged.
pub crc_verify-crc_append :
    (buf out : List ℕ) (n buflen : ℕ)
    → All IsByte buf
    → buflen ≤ length buf
    → strlen buf ≡ some n
    → 1 ≤ strip_crlf buf n
    → crc_append buf buflen ≡ some (ok, out)
    → let d = strip_crlf buf n in
      (take d out ≡ take d buf) × (strlen out ≡ some (d + 5)) × (crc_verify out (d + 5) ≡ true)
crc_verify-crc_append buf out n buflen h fits e pos done =
    let d = strip_crlf buf n in
    let (inside, nonul) = strlen_sound buf n e in
    let below = strip_crlf-le buf n in
    let text = take d buf in
    let written : out ≡ overwrite buf d (trailer buf d) =
      ground (arith, crc_append_cases buf n buflen h fits e) in
    let size : d ≡ length text = omega (arith, length-take d buf) in
    rw (written ∙ stored-frame buf d h) (
      framed_string text (drop (d + 6) buf) (crc16 buf d) d (All-take IsByte d buf h)
        (All-take_le (λ c. c ≢ 0) d n buf below nonul) (omega arith) (crc16-take buf d) size)

-- A message of bytes that was framed with its CRC, CR and LF, and arrives with exactly one byte of
-- its text changed, is refused.
pub crc_verify_one_byte :
    (front back tail : List ℕ) (a b : ℕ)
    → All IsByte front
    → All IsByte back
    → IsByte a
    → IsByte b
    → a ≢ b
    → let sent = crc_encode_ascii (crc16 (front ++ a ∷ back) (length front + suc (length back))) in
      crc_verify (frame (front ++ b ∷ back) sent tail) (length front + suc (length back) + 5)
      ≡ false
crc_verify_one_byte front back tail a b hf hk ha hb ne =
    let sent = front ++ a ∷ back in
    let got = front ++ b ∷ back in
    let n = length front + suc (length back) in
    let size : length got ≡ n = length-append front (b ∷ back) in
    let whole : crc16 sent n ≡ crc_loop 0 sent =
      crc16_all sent n (sym (length-append front (a ∷ back))) in
    let word : (x : ℕ) → IsByte x → IsWord (crc_loop 0 (front ++ x ∷ back)) =
      λ x hx. crc_loop-IsWord _ 0 (omega arith) (All-append IsByte front (x ∷ back) hf (hx, hk)) in
    elim (Bool-cases (crc_verify (frame got (crc_encode_ascii (crc16 sent n)) tail) (n + 5))) [
      | inl accepted ↦ absurd (
          ne (
            crc_loop_one_byte front back a b hf hk ha hb (
              sym whole
              ∙ (crc_verify-encode got tail (crc16 sent n) (crc_loop 0 got) (rw whole (word a ha))
                    (word b hb) refl (omega arith)).0
                  (rw size accepted))))
      | inr refused ↦ refused
    ]
