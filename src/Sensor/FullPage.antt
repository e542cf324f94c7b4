-- ===== src/Sensor/FullPage.antt =====
-- sdi12_sensor.c: a page 0 of format_data_page that is filled to its last character.
use libsdi.Base.{
  ℕ, ◌+◌, ◌-◌, ◌≤◌, ◌≡◌, refl, ap, ◌∙◌, true, false, not, ◌&&◌, List, [], ◌∷◌, ◌++◌, append_assoc,
  append-nil, map, some, All, arith, length, length-append, length-drop, drop, ltb, leb, ◌==◌,
}
use libsdi.Base.Buffer.{splice, store_fits, overwrite, length-overwrite}
use libsdi.Crc.{crlf}
use libsdi.Protocol.{max_response_len, c_values_max_chars}
use libsdi.Sensor.Types.{Floats, Value}
use libsdi.Sensor.Pages.{
  value_text, format_value, PageLoop, turn_page, place_value, page_round, page_loop, terminate,
  finish_page, render_page,
}
use libsdi.Sensor.Valid.{IsPrintable}
use libsdi.Sensor.PageAnswers.{format_value_lem}
use libsdi.Sensor.FirstPage.{texts, value_text-pos, Holds, page_round-fits}

module _ {F : Type 0} (fl : Floats F) where
  -- The values in front are placed.
  page_loop-fits :
      (a max : ℕ) (taken : List ℕ) (vs ws : List (Value F)) (l : PageLoop)
      → All (IsPrintable fl) vs
      → length taken + length (texts fl vs) ≤ 74
      → length taken + length (texts fl vs) ≤ max
      → l.current_page ≡ 0
      → Holds a taken l
      → (l' : PageLoop) × (page_loop 0 max (map (format_value fl) (vs ++ ws)) l
          ≡ page_loop 0 max (map (format_value fl) ws) l')
        × (l'.current_page ≡ 0)
        × Holds a (taken ++ texts fl vs) l'
  unfolding page_loop
  page_loop-fits a max taken [] ws l h room fit page p = (l, refl, page, rw (append-nil taken) p)
  page_loop-fits a max taken (v ∷ vs) ws l h room fit page p =
      let t = value_text fl v in
      let size = length-append t (texts fl vs) in
      let (l₁, e₁, page₁, p₁) =
        page_round-fits fl a max taken v l h.0 (omega (arith, size)) (omega (arith, size)) page p in
      let (l₂, e₂, page₂, p₂) =
        page_loop-fits a max (taken ++ t) vs ws l₁ h.1 (omega (arith, size, length-append taken t))
          (omega (arith, size, length-append taken t)) page₁ p₁ in
      (l₂, rw e₁ e₂, page₂, rw⁻¹ (append_assoc taken t (texts fl vs)) p₂)

  -- A value that would fill the array to the room for the CRC, CR, LF and NUL ends the loop.
  page_round-full :
      (a : ℕ) (taken : List ℕ) (v : Value F) (l : PageLoop)
      → IsPrintable fl v
      → length taken + length (value_text fl v) ≡ c_values_max_chars
      → l.current_page ≡ 0
      → Holds a taken l
      → page_round 0 c_values_max_chars (format_value fl v) l ≡ some (false, l)
  unfolding page_round turn_page place_value
  page_round-full a taken v l h full page p =
      let t = value_text fl v in
      let nonempty : (length t == 0) ≡ false = ground (arith, value_text-pos fl v) in
      let inside : ltb c_values_max_chars (l.pos - 1 + length t) ≡ false =
        ground (arith, p.at_end) in
      let here : (l.current_page == 0) ≡ true = ground (arith, page) in
      let no_room : leb 76 (l.pos + length t) ≡ true = ground (arith, p.at_end) in
      rw (format_value_lem fl v h, nonempty, inside, here, no_room) refl

  -- If the texts of printable values are together exactly the 75 characters that a page of a
  -- concurrent or continuous measurement holds, then page 0 without a CRC is the address, the
  -- texts of all values but the last, CR, LF and NUL.
  pub render_page-full :
      (a : ℕ) (vs : List (Value F)) (last : Value F) (buf : List ℕ)
      → All (IsPrintable fl) vs
      → IsPrintable fl last
      → length (texts fl vs) + length (value_text fl last) ≡ c_values_max_chars
      → length buf ≡ max_response_len
      → (rest : List ℕ) × (render_page fl 0 c_values_max_chars false a (vs ++ last ∷ []) buf
          ≡ some (a ∷ (texts fl vs ++ (crlf ++ 0 ∷ rest))))
  unfolding render_page page_loop finish_page terminate
  render_page-full a vs last buf h printable full size =
      let first : PageLoop = record {
        buf = a ∷ drop 1 buf;
        pos = 1;
        current_page = 0;
        any_on_page = false;
      } in
      let start : Holds a [] first = record {
        rest = drop 1 buf;
        shape = refl;
        at_end = refl;
        size = omega (arith, length-drop 1 buf, size);
      } in
      let text = texts fl vs in
      let long = value_text-pos fl last in
      let (l, e, page, p) =
        page_loop-fits a c_values_max_chars [] vs (last ∷ []) first h (omega (arith, full, long))
          (omega (arith, full)) refl start in
      let stop = page_round-full a text last l printable full page p in
      let ended = overwrite l.buf l.pos (0 ∷ []) in
      let nul = splice (a ∷ text) p.rest (0 ∷ []) l.buf l.pos p.shape p.at_end in
      let end = crlf ++ 0 ∷ [] in
      let line = splice (a ∷ text) (0 ∷ drop (l.pos + 1) l.buf) end ended l.pos nul p.at_end in
      let same : length ended ≡ max_response_len =
        length-overwrite l.buf l.pos (0 ∷ []) (omega (arith, p.size, p.at_end, full)) ∙ p.size in
      let stay : (not l.any_on_page && ltb 0 0) ≡ false = ground arith in
      let room : ltb (l.pos + 2) max_response_len ≡ true = ground (arith, p.at_end, full) in
      (
        drop (l.pos + 3) ended,
        rw
            (
              store_fits buf 0 (a ∷ []) (omega (arith, size)),
              e,
              stop,
              stay,
              store_fits l.buf l.pos (0 ∷ []) (omega (arith, p.size, p.at_end, full)),
              room,
              store_fits ended l.pos end (omega (arith, same, p.at_end, full)),
            )
            (ap some line),
      )
