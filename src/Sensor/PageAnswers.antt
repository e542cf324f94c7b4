-- ===== src/Sensor/PageAnswers.antt =====
-- sdi12_sensor.c: format_data_page stays inside the array and leaves one line behind the address.
use libsdi.Base.{
  ℕ, ◌+◌, ◌≡◌, ◌≢◌, refl, sym, ap, ◌∙◌, Bool, true, false, not, ◌&&◌, List, [], ◌∷◌, ◌++◌,
  append_assoc, map, Option, none, some, All, All-append, arith, length, take_all, drop, ltb, ◌==◌,
  if◌then◌else◌, Bool-cases, inl, inr, ◌>>=◌,
}
use libsdi.Base.Buffer.{overwrite, store_fits}
use libsdi.Crc.{crlf}
use libsdi.Protocol.{max_response_len, value_max_chars, valid_address}
use libsdi.Sensor.Types.{Floats, Value}
use libsdi.Sensor.Pages.{
  value_text, format_value, PageLoop, page_round, page_loop, terminate, finish_page, render_page,
}
use libsdi.Sensor.Valid.{IsBuffer, IsPrintable}
use libsdi.Sensor.Answer.{address_byte}
use libsdi.Sensor.CrcLine.{Line, Ends, Line-crc_append, overwrite-IsBuffer}
use libsdi.Base.Buffer.{splice}
use libsdi.Sensor.Placed.{Placed, Kept, Finished, Placed-reset, turn_page-Placed, place_value-Kept}

module _ {F : Type 0} (fl : Floats F) where
  -- A printable value is not cut.
  pub format_value_lem :
      (v : Value F)
      → IsPrintable fl v
      → format_value fl v ≡ (length (value_text fl v), value_text fl v ++ 0 ∷ [])
  unfolding format_value
  format_value_lem v h =
      ap (λ (t : List ℕ). (length (value_text fl v), t ++ 0 ∷ []))
        (take_all value_max_chars (value_text fl v) h.0)

  page_round-Kept :
      (a page max : ℕ) (v : Value F) (l : PageLoop)
      → IsPrintable fl v
      → Placed a l.buf l.pos
      → Kept a (page_round page max (format_value fl v) l)
  unfolding page_round
  page_round-Kept a page max v l h p =
      rw (format_value_lem v h) (elim (Bool-cases (length (value_text fl v) == 0)) [
        | inl e ↦ rw e p
        | inr e ↦
            rw e (place_value-Kept a page (value_text fl v) _ h (turn_page-Placed a max _ l p))
      ])

  pub page_loop-Finished :
      (a page max : ℕ) (vs : List (Value F)) (l : PageLoop)
      → All (IsPrintable fl) vs
      → Placed a l.buf l.pos
      → Finished a (page_loop page max (map (format_value fl) vs) l)
  unfolding page_loop
  page_loop-Finished a page max [] l h p = p
  page_loop-Finished a page max (v ∷ vs) l h p =
      go (page_round page max (format_value fl v) l) (page_round-Kept a page max v l h.0 p)
        (λ l' p'. page_loop-Finished a page max vs l' h.1 p')
    where
      go :
          (r : Option (Bool × PageLoop))
          → Kept a r
          → ((l' : PageLoop)
              → Placed a l'.buf l'.pos
              → Finished a (page_loop page max (map (format_value fl) vs) l'))
          → Finished a (
              r >>= λ (goes_on, l').
              if goes_on then page_loop page max (map (format_value fl) vs) l' else some l')
      go none k ih = k
      go (some (true, l')) k ih = ih l' k
      go (some (false, l')) k ih = k

-- The NUL behind the text, and the end of the line over it.
terminate-Line :
    (crc : Bool) (a pos : ℕ) (buf : List ℕ)
    → a ≢ 0
    → a ≢ 0x0D
    → Placed a buf pos
    → (out : List ℕ) × (terminate crc (overwrite buf pos (0 ∷ [])) pos ≡ some out)
      × IsBuffer out
      × ((line : Line a out) × Ends crc (a ∷ line.0))
unfolding terminate
terminate-Line true a pos buf nz ncr p =
    let whole = splice (a ∷ p.body) p.rest (0 ∷ []) buf pos p.shape p.at_end in
    let array = overwrite-IsBuffer buf (0 ∷ []) pos p.array (omega arith) (omega (arith, p.room)) in
    let (out, e, b, line) =
      Line-crc_append (overwrite buf pos (0 ∷ [])) a array nz ncr
        (p.body, drop (pos + 1) buf, whole, p.clean) (omega (arith, p.room, p.at_end)) in
    (out, rw e, b, line)
terminate-Line false a pos buf nz ncr p =
    let ended = overwrite buf pos (0 ∷ []) in
    let whole = splice (a ∷ p.body) p.rest (0 ∷ []) buf pos p.shape p.at_end in
    let array = overwrite-IsBuffer buf (0 ∷ []) pos p.array (omega arith) (omega (arith, p.room)) in
    let end = crlf ++ 0 ∷ [] in
    let fits : ltb (pos + 2) max_response_len ≡ true = ground (arith, p.room) in
    let tail = drop (pos + 3) ended in
    (
      overwrite ended pos end,
      rw fits (store_fits ended pos end (omega (arith, p.room, array.0))),
      overwrite-IsBuffer ended end pos array (omega arith) (omega (arith, p.room)),
      (
        (
          p.body ++ crlf,
          tail,
          splice (a ∷ p.body) (0 ∷ drop (pos + 1) buf) end ended pos whole p.at_end
              ∙ ap (◌∷◌ a) (sym (append_assoc p.body crlf (0 ∷ tail))),
          All-append (λ c. c ≢ 0) p.body crlf p.clean (omega arith),
        ),
        tt,
      ),
    )

-- The outcome of a page: an array that holds a line behind the address, with a CRC that is right or
-- without one.
abbrev pub Rendered : Bool → ℕ → Option (List ℕ) → Type 0
Rendered crc a r =
    (out : List ℕ) × (r ≡ some out) × IsBuffer out × ((line : Line a out) × Ends crc (a ∷ line.0))

-- The NUL is stored, whatever the page, and the line ended.
finish_page-Rendered :
    (crc : Bool) (a page : ℕ) (l : PageLoop)
    → a ≢ 0
    → a ≢ 0x0D
    → Placed a l.buf l.pos
    → Rendered crc a (finish_page crc page l)
unfolding finish_page
finish_page-Rendered crc a page l nz ncr p = elim (Bool-cases (not l.any_on_page && ltb 0 page)) [
  | inl e ↦
      rw (e, store_fits l.buf 1 (0 ∷ []) (omega (arith, p.array.0)))
        (terminate-Line crc a 1 l.buf nz ncr (Placed-reset a l.pos l.buf p))
  | inr e ↦
      rw (e, store_fits l.buf l.pos (0 ∷ []) (omega (arith, p.array.0, p.room)))
        (terminate-Line crc a l.pos l.buf nz ncr p)
]

Rendered-bind :
    (crc : Bool) (a page : ℕ) (r : Option PageLoop)
    → a ≢ 0
    → a ≢ 0x0D
    → Finished a r
    → Rendered crc a (r >>= λ l. finish_page crc page l)
Rendered-bind crc a page none nz ncr p = absurd p
Rendered-bind crc a page (some l) nz ncr p = finish_page-Rendered crc a page l nz ncr p

-- With a valid address, printable values and a response array, every page, whichever its number
-- and its limit, is written inside the array as one line behind the address that ends in a NUL;
-- and if a CRC is asked for, sdi12_crc_verify accepts that line.
pub render_page-Rendered :
    {F : Type 0} (fl : Floats F) (page max : ℕ) (crc : Bool) (a : ℕ) (vs : List (Value F))
    (buf : List ℕ)
    → valid_address a ≡ true
    → All (IsPrintable fl) vs
    → IsBuffer buf
    → Rendered crc a (render_page fl page max crc a vs buf)
unfolding render_page
render_page-Rendered fl page max crc a vs buf valid h b =
    let (nz, small, ncr) = address_byte a valid in
    let first : Placed a (a ∷ drop 1 buf) 1 = record {
      body = [];
      rest = drop 1 buf;
      shape = refl;
      at_end = refl;
      clean = tt;
      array = overwrite-IsBuffer buf (a ∷ []) 0 b (small, tt) (omega arith);
      room = omega arith;
    } in
    rw (store_fits buf 0 (a ∷ []) (omega (arith, b.0)))
      (Rendered-bind crc a page _ nz ncr (page_loop-Finished fl a page max vs _ h first))
