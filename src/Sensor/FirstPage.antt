-- ===== src/Sensor/FirstPage.antt =====
-- sdi12_sensor.c: which of the cached values format_data_page puts on page 0.
use libsdi.Base.{
  ℕ, suc, ◌+◌, ◌-◌, ◌%◌, ◌^◌, ◌≤◌, ◌<◌, ◌≡◌, refl, sym, ap, ◌∙◌, true, false, not, ◌&&◌, List, [],
  ◌∷◌, ◌++◌, append_assoc, append-nil, map, some, All, arith, length, length-append, length-drop,
  take, drop, ltb, leb, ◌==◌, if◌then◌else◌, Bool-cases, inl, inr, take-append,
}
use libsdi.Base.Buffer.{splice, store_fits, overwrite, length-overwrite}
use libsdi.Crc.{crlf}
use libsdi.Protocol.{max_response_len}
use libsdi.Sensor.Types.{Floats, Value}
use libsdi.Sensor.Pages.{
  value_text, format_value, PageLoop, turn_page, place_value, page_round, page_loop, terminate,
  finish_page, render_page,
}
use libsdi.Sensor.Valid.{IsPrintable}
use libsdi.Sensor.PageAnswers.{format_value_lem}

-- All of a text that is at most `max` long, or nothing.
abbrev pub whole_or_nothing : ℕ → List ℕ → List ℕ
whole_or_nothing max text = if leb (length text) max then text else []

-- The array holds the address and a text, and `pos` is behind it.
pub record Holds (a : ℕ) (text : List ℕ) (l : PageLoop) : Type 0 where
  pub rest : List ℕ
  pub shape : l.buf ≡ (a ∷ text) ++ rest
  pub at_end : l.pos ≡ suc (length text)
  pub size : length l.buf ≡ max_response_len

module _ {F : Type 0} (fl : Floats F) where
  -- The texts of the values, one behind the other.
  abbrev pub texts : List (Value F) → List ℕ
  texts [] = []
  texts (v ∷ vs) = value_text fl v ++ texts vs

  -- The sign is always there.
  pub value_text-pos : (v : Value F) → 1 ≤ length (value_text fl v)
  unfolding value_text
  value_text-pos v = omega arith

  -- A round on page 0 with a value that fits.
  pub page_round-fits :
      (a max : ℕ) (taken : List ℕ) (v : Value F) (l : PageLoop)
      → IsPrintable fl v
      → length taken + length (value_text fl v) ≤ 74
      → length taken + length (value_text fl v) ≤ max
      → l.current_page ≡ 0
      → Holds a taken l
      → (l' : PageLoop) × (page_round 0 max (format_value fl v) l ≡ some (true, l'))
        × (l'.current_page ≡ 0)
        × Holds a (taken ++ value_text fl v) l'
  unfolding page_round turn_page place_value
  page_round-fits a max taken v l h small fit page p =
      let t = value_text fl v in
      let nonempty : (length t == 0) ≡ false = ground (arith, value_text-pos v) in
      let inside : ltb max (l.pos - 1 + length t) ≡ false = ground (arith, p.at_end) in
      let room : leb 76 (l.pos + length t) ≡ false = ground (arith, p.at_end) in
      let here : (l.current_page == 0) ≡ true = ground (arith, page) in
      let read : leb (length t) 10 ≡ true = ground (arith, h.0) in
      let cut : take (length t) (t ++ 0 ∷ []) ≡ t = take-append (length t) t (0 ∷ []) refl in
      let written = store_fits l.buf l.pos t (omega (arith, p.size, p.at_end)) in
      let out : PageLoop = record l {
        buf = overwrite l.buf l.pos t;
        pos = l.pos + length t;
        any_on_page = true;
      } in
      (
        out,
        rw (format_value_lem fl v h, nonempty, inside, here, room, read, cut, written) refl,
        page,
        record {
          rest = drop (l.pos + length t) l.buf;
          shape =
              splice (a ∷ taken) p.rest t l.buf l.pos p.shape p.at_end
              ∙ ap (◌∷◌ a) (sym (append_assoc taken t (drop (l.pos + length t) l.buf)));
          at_end = omega (arith, p.at_end, length-append taken t);
          size = length-overwrite l.buf l.pos t (omega (arith, p.size, p.at_end)) ∙ p.size;
        },
      )

  -- A round on page 0 with a value that does not fit.
  page_round-turns :
      (a max : ℕ) (taken : List ℕ) (v : Value F) (l : PageLoop)
      → IsPrintable fl v
      → 9 ≤ max
      → max < length taken + length (value_text fl v)
      → l.current_page ≡ 0
      → Holds a taken l
      → (l' : PageLoop) × (page_round 0 max (format_value fl v) l ≡ some (false, l'))
        × Holds a [] l'
  unfolding page_round turn_page place_value
  page_round-turns a max taken v l h large over page p =
      let t = value_text fl v in
      let nonempty : (length t == 0) ≡ false = ground (arith, value_text-pos v) in
      let next : (l.current_page + 1) % 2 ^ 8 ≡ 1 = omega (arith, page) in
      let outside : ltb max (l.pos - 1 + length t) ≡ true = ground (arith, p.at_end) in
      let used : ltb 0 (l.pos - 1) ≡ true = ground (arith, p.at_end, h.0) in
      let out : PageLoop = record l { current_page = 1; pos = 1 } in
      (
        out,
        rw (format_value_lem fl v h, nonempty, outside, used, next) refl,
        record { rest = taken ++ p.rest; shape = p.shape; at_end = refl; size = p.size },
      )

  -- The loop for page 0.
  pub page_loop-whole :
      (a max : ℕ) (taken : List ℕ) (vs : List (Value F)) (l : PageLoop)
      → All (IsPrintable fl) vs
      → 9 ≤ max
      → max ≤ 74
      → length taken ≤ max
      → l.current_page ≡ 0
      → Holds a taken l
      → (l' : PageLoop) × (page_loop 0 max (map (format_value fl) vs) l ≡ some l')
        × Holds a (whole_or_nothing max (taken ++ texts vs)) l'
  unfolding page_loop
  page_loop-whole a max taken [] l h low high fit page p =
      let all : leb (length (taken ++ [])) max ≡ true = ground (arith, length-append taken []) in
      (l, refl, rw (all, append-nil taken) p)
  page_loop-whole a max taken (v ∷ vs) l h low high fit page p =
      let t = value_text fl v in
      elim (Bool-cases (leb (length taken + length t) max)) [
        | inl e ↦
            let now : length taken + length t ≤ max = ground arith in
            let (l₁, e₁, page₁, p₁) =
              page_round-fits a max taken v l h.0 (omega arith) now page p in
            let (l₂, e₂, p₂) =
              page_loop-whole a max (taken ++ t) vs l₁ h.1 low high
                (omega (arith, length-append taken t)) page₁ p₁ in
            (l₂, rw e₁ e₂, rw⁻¹ (append_assoc taken t (texts vs)) p₂)
        | inr e ↦
            let over : max < length taken + length t = ground arith in
            let (l₁, e₁, p₁) = page_round-turns a max taken v l h.0 low over page p in
            let long : leb (length (taken ++ (t ++ texts vs))) max ≡ false =
              ground (arith, length-append taken (t ++ texts vs), length-append t (texts vs)) in
            (l₁, rw e₁ refl, rw long p₁)
      ]

  -- Page 0 of printable values without a CRC, for a command whose limit is from 9 to 74
  -- characters, is all or nothing: it is the address, the texts of all values if they fit the
  -- limit together, and else no value at all, and then CR, LF and NUL.
  pub render_page-whole :
      (a max : ℕ) (vs : List (Value F)) (buf : List ℕ)
      → All (IsPrintable fl) vs
      → 9 ≤ max
      → max ≤ 74
      → length buf ≡ max_response_len
      → (rest : List ℕ) × (render_page fl 0 max false a vs buf
          ≡ some (a ∷ (whole_or_nothing max (texts vs) ++ (crlf ++ 0 ∷ rest))))
  unfolding render_page finish_page terminate
  render_page-whole a max vs buf h low high size =
      let first : PageLoop = record {
        buf = a ∷ drop 1 buf;
        pos = 1;
        current_page = 0;
        any_on_page = false;
      } in
      let start : Holds a [] first = record {
        rest = drop 1 buf;
        shape = refl;
        at_end = refl;
        size = omega (arith, length-drop 1 buf, size);
      } in
      let (l, e, p) = page_loop-whole a max [] vs first h low high (omega arith) refl start in
      let text = whole_or_nothing max (texts vs) in
      let short : length text ≤ max = ground arith in
      let ended = overwrite l.buf l.pos (0 ∷ []) in
      let nul = splice (a ∷ text) p.rest (0 ∷ []) l.buf l.pos p.shape p.at_end in
      let end = crlf ++ 0 ∷ [] in
      let line = splice (a ∷ text) (0 ∷ drop (l.pos + 1) l.buf) end ended l.pos nul p.at_end in
      let same : length ended ≡ max_response_len =
        length-overwrite l.buf l.pos (0 ∷ []) (omega (arith, p.size, p.at_end)) ∙ p.size in
      let stay : (not l.any_on_page && ltb 0 0) ≡ false = ground arith in
      let room : ltb (l.pos + 2) max_response_len ≡ true = ground (arith, p.at_end) in
      (
        drop (l.pos + 3) ended,
        rw
            (
              store_fits buf 0 (a ∷ []) (omega (arith, size)),
              e,
              stay,
              store_fits l.buf l.pos (0 ∷ []) (omega (arith, p.size, p.at_end)),
              room,
              store_fits ended l.pos end (omega (arith, same, p.at_end)),
            )
            (ap some line),
      )
