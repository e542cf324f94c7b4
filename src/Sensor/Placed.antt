-- ===== src/Sensor/Placed.antt =====
-- sdi12_sensor.c: the text that format_data_page has placed in the array, between two rounds.
use libsdi.Base.{
  ℕ, suc, ◌+◌, ◌-◌, ◌≤◌, ◌<◌, ◌≡◌, ◌≢◌, refl, sym, ap, ◌∙◌, Bool, true, ◌&&◌, List, [], ◌∷◌, ◌++◌,
  append_assoc, Option, none, some, All, All-append, arith, length, length-append, take,
  take-append, drop, ltb, leb, ◌==◌, Bool-cases, inl, inr,
}
use libsdi.Base.Buffer.{splice, overwrite, store_fits, NoNul}
use libsdi.Crc.Step.{IsByte}
use libsdi.Protocol.{value_max_chars}
use libsdi.Sensor.Pages.{PageLoop, turn_page, place_value}
use libsdi.Sensor.Valid.{IsText, IsBuffer}
use libsdi.Sensor.CrcLine.{overwrite-IsBuffer}

-- Between rounds `pos` is behind the address and the text that is in the array.
pub record Placed (a : ℕ) (buf : List ℕ) (pos : ℕ) : Type 0 where
  pub body : List ℕ
  pub rest : List ℕ
  pub shape : buf ≡ (a ∷ body) ++ rest
  pub at_end : pos ≡ suc (length body)
  pub clean : NoNul body
  pub array : IsBuffer buf
  pub room : pos ≤ 76

abbrev pub Kept : ℕ → Option (Bool × PageLoop) → Type 0
Kept a none = ⊥
Kept a (some (go, l)) = Placed a l.buf l.pos

abbrev pub Finished : ℕ → Option PageLoop → Type 0
Finished a none = ⊥
Finished a (some l) = Placed a l.buf l.pos

pub Placed-append :
    (a pos : ℕ) (buf text : List ℕ)
    → Placed a buf pos
    → NoNul text
    → All IsByte text
    → pos + length text ≤ 76
    → Placed a (overwrite buf pos text) (pos + length text)
Placed-append a pos buf text p nonul bytes h = record {
  body = p.body ++ text;
  rest = drop (pos + length text) buf;
  shape =
      splice (a ∷ p.body) p.rest text buf pos p.shape p.at_end
      ∙ ap (◌∷◌ a) (sym (append_assoc p.body text (drop (pos + length text) buf)));
  at_end = omega (arith, p.at_end, length-append p.body text);
  clean = All-append (λ c. c ≢ 0) p.body text p.clean nonul;
  array = overwrite-IsBuffer buf text pos p.array bytes (omega arith);
  room = h;
}

-- Back to the address.
pub Placed-reset : (a pos : ℕ) (buf : List ℕ) → Placed a buf pos → Placed a buf 1
Placed-reset a pos buf p = record {
  body = [];
  rest = p.body ++ p.rest;
  shape = p.shape;
  at_end = refl;
  clean = tt;
  array = p.array;
  room = omega arith;
}

pub turn_page-Placed :
    (a max vlen : ℕ) (l : PageLoop)
    → Placed a l.buf l.pos
    → Placed a (turn_page max vlen l).buf (turn_page max vlen l).pos
unfolding turn_page
turn_page-Placed a max vlen l p =
    elim (Bool-cases (ltb max (l.pos - 1 + vlen) && ltb 0 (l.pos - 1))) [
      | inl e ↦ rw e (Placed-reset a l.pos l.buf p)
      | inr e ↦ rw e p
    ]

vbuf_cut : (text : List ℕ) → take (length text) (text ++ 0 ∷ []) ≡ text
vbuf_cut text = take-append (length text) text (0 ∷ []) refl

pub place_value-Kept :
    (a page : ℕ) (text : List ℕ) (l : PageLoop)
    → IsText value_max_chars text
    → Placed a l.buf l.pos
    → Kept a (place_value page (length text) (text ++ 0 ∷ []) l)
unfolding place_value
place_value-Kept a page text l (fits, nonul, bytes) p = elim (Bool-cases (l.current_page == page)) [
  | inl e ↦ elim (Bool-cases (leb 76 (l.pos + length text))) [
    | inl f ↦ rw (e, f) p
    | inr f ↦
        let small : l.pos + length text < 76 = ground arith in
        let read : leb (length text) 10 ≡ true = ground arith in
        let written = store_fits l.buf l.pos text (omega (arith, p.array.0)) in
        rw (e, f, read, vbuf_cut text, written)
          (Placed-append a l.pos l.buf text p nonul bytes (omega arith))
  ]
  | inr e ↦ rw e p
]
