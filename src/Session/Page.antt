-- ===== src/Session/Page.antt =====
-- A page of values with its CRC, as sdi12_sensor.c builds it and sdi12_master.c receives it.
use libsdi.Base.{
  ℕ, zero, suc, ◌+◌, ◌≤◌, ◌<◌, ◌≡◌, refl, subst, ap, ◌∙◌, Bool, true, false, not, ◌&&◌, List, [],
  ◌∷◌, ◌++◌, some, All, arith, length, take, take-append, drop, ltb, leb, if◌then◌else◌,
}
use libsdi.Base.Buffer.{splice, byte_at, store_fits, overwrite, strlen-append, NoNul}
use libsdi.Crc.{crlf, crc_encode_ascii, strip_crlf, crc_append, crc_loop}
use libsdi.Crc.Step.{IsByte, IsWord}
use libsdi.Crc.Detect.{crc_loop-IsWord}
use libsdi.Crc.Encode.{crc_encode_ascii_lem}
use libsdi.Crc.RoundTrip.{frame, stored-frame, crc16-take, crc_append_cases}
use libsdi.Protocol.{ok, max_response_len, valid_address}
use libsdi.Sensor.Types.{Floats, Value}
use libsdi.Sensor.Pages.{PageLoop, terminate, finish_page, render_page}
use libsdi.Sensor.FirstPage.{texts, Holds, page_loop-whole, render_page-whole}
use libsdi.Sensor.Valid.{IsBuffer, IsPrintable}
use libsdi.Sensor.Answer.{address_byte}
use libsdi.Sensor.CrcLine.{overwrite-IsBuffer}
use libsdi.Sensor.PageAnswers.{page_loop-Finished}
use libsdi.Sensor.Placed.{Placed, Finished}
use libsdi.Master.Line.{IsInner}
use libsdi.Master.Identify.{valid-IsInner}

-- What stands between a text and its CR and LF.
abbrev pub check_text : Bool → List ℕ → List ℕ
check_text true text = crc_encode_ascii (crc_loop 0 text)
check_text false text = []

byte_at-append :
    (text rest : List ℕ) (k : ℕ)
    → All IsInner text
    → k < length text
    → IsInner (byte_at (text ++ rest) k)
byte_at-append [] rest k h low = absurd (omega arith)
byte_at-append (c ∷ text) rest zero h low = h.0
byte_at-append (c ∷ text) rest (suc k) h low = byte_at-append text rest k h.1 (omega arith)

-- A text without CR and LF is not stripped.
strip_crlf-inner :
    (text rest : List ℕ) → All IsInner text → strip_crlf (text ++ rest) (length text) ≡ length text
unfolding strip_crlf
strip_crlf-inner [] rest h = refl
strip_crlf-inner (c ∷ text) rest h =
    ground (arith, byte_at-append (c ∷ text) rest (length text) h (omega arith))

-- sdi12_crc_append on such a text in a response array.
crc_append-inner :
    (text rest : List ℕ)
    → IsBuffer (text ++ 0 ∷ rest)
    → NoNul text
    → All IsInner text
    → length text + 6 ≤ max_response_len
    → (tail : List ℕ) × (crc_append (text ++ 0 ∷ rest) max_response_len
        ≡ some (ok, frame text (check_text true text) (0 ∷ tail)))
crc_append-inner text rest (size, all) clean inner room =
    let buf = text ++ 0 ∷ rest in
    let n = length text in
    let same : strip_crlf buf n ≡ n = strip_crlf-inner text (0 ∷ rest) inner in
    let fits : ltb max_response_len (n + 6) ≡ false = ground arith in
    let front : take n buf ≡ text = take-append n text (0 ∷ rest) refl in
    (
      drop (n + 6) buf,
      crc_append_cases buf n max_response_len all (omega (arith, size))
            (strlen-append text rest clean)
          ∙ rw (same, fits)
              (ap (λ (t : List ℕ). some (ok, t))
                (stored-frame buf n all
                  ∙ ap (λ (c : ℕ). frame (take n buf) (crc_encode_ascii c) (0 ∷ drop (n + 6) buf))
                      (crc16-take buf n)
                  ∙ ap
                      (λ (t : List ℕ).
                        frame t (crc_encode_ascii (crc_loop 0 t)) (0 ∷ drop (n + 6) buf))
                      front)),
    )

-- The trailer of a text of bytes: its size, and what it has no character of.
pub check_text_lem :
    (crc : Bool) (text : List ℕ)
    → All IsByte text
    → (length (check_text crc text) ≡ (if crc then 3 else 0))
      × NoNul (check_text crc text)
      × All IsInner (check_text crc text)
check_text_lem false text h = (refl, tt, tt)
check_text_lem true text h =
    let word : IsWord (crc_loop 0 text) = crc_loop-IsWord text 0 (omega arith) h in
    rw (crc_encode_ascii_lem (crc_loop 0 text) word) (refl, omega arith, omega arith)

module _ {F : Type 0} (fl : Floats F) where
  -- Page 0 of printable values without CR and LF that fit the limit together: the address, all of
  -- their texts, the CRC of that if it was asked for, CR, LF and NUL.
  pub render_page-check :
      (crc : Bool) (a max : ℕ) (vs : List (Value F)) (buf : List ℕ)
      → valid_address a ≡ true
      → All (IsPrintable fl) vs
      → NoNul (texts fl vs)
      → All IsInner (texts fl vs)
      → length (texts fl vs) ≤ max
      → 9 ≤ max
      → max ≤ 74
      → IsBuffer buf
      → let text = a ∷ texts fl vs in
        (tail : List ℕ) × (render_page fl 0 max crc a vs buf
          ≡ some (frame text (check_text crc text) (0 ∷ tail)))
  unfolding render_page finish_page terminate
  render_page-check false a max vs buf valid h clean inner fit low high (size, all) =
      let (rest, page) = render_page-whole fl a max vs buf h low high size in
      let whole : leb (length (texts fl vs)) max ≡ true = ground arith in
      (
        rest,
        page
            ∙ ap (λ (b : Bool). some (a ∷ ((if b then texts fl vs else []) ++ (crlf ++ 0 ∷ rest))))
                whole,
      )
  render_page-check true a max vs buf valid h clean inner fit low high (size, all) =
      let (nz, small, ncr) = address_byte a valid in
      let array : IsBuffer (a ∷ drop 1 buf) =
        overwrite-IsBuffer buf (a ∷ []) 0 (size, all) (small, tt) (omega arith) in
      let first : PageLoop = record {
        buf = a ∷ drop 1 buf;
        pos = 1;
        current_page = 0;
        any_on_page = false;
      } in
      let start : Holds a [] first = record {
        rest = drop 1 buf;
        shape = refl;
        at_end = refl;
        size = array.0;
      } in
      let placed : Placed a (a ∷ drop 1 buf) 1 = record {
        body = [];
        rest = drop 1 buf;
        shape = refl;
        at_end = refl;
        clean = tt;
        array = array;
        room = omega arith;
      } in
      let (l, e, p) = page_loop-whole fl a max [] vs first h low high (omega arith) refl start in
      let all_of : leb (length (texts fl vs)) max ≡ true = ground arith in
      let text = a ∷ texts fl vs in
      let end : Placed a l.buf l.pos =
        subst (Finished a) e (page_loop-Finished fl a 0 max vs first h placed) in
      let shape : l.buf ≡ text ++ p.rest =
        p.shape ∙ ap (λ (b : Bool). (a ∷ (if b then texts fl vs else [])) ++ p.rest) all_of in
      let at : l.pos ≡ length text =
        p.at_end ∙ ap (λ (b : Bool). suc (length (if b then texts fl vs else []))) all_of in
      let ended = overwrite l.buf l.pos (0 ∷ []) in
      let nul : ended ≡ text ++ 0 ∷ drop (l.pos + 1) l.buf =
        splice text p.rest (0 ∷ []) l.buf l.pos shape at in
      let whole : IsBuffer ended =
        overwrite-IsBuffer l.buf (0 ∷ []) l.pos end.array (omega arith) (omega (arith, end.room)) in
      let (tail, done) =
        crc_append-inner text (drop (l.pos + 1) l.buf) (subst IsBuffer nul whole) (nz, clean)
          (valid-IsInner a valid, inner) (omega arith) in
      let stay : (not l.any_on_page && ltb 0 0) ≡ false = ground arith in
      let stored = store_fits l.buf l.pos (0 ∷ []) (omega (arith, p.size, at)) in
      (tail, rw (store_fits buf 0 (a ∷ []) (omega (arith, size)), e, stay, stored, nul, done) refl)
