-- ===== src/Session/Reading.antt =====
-- What a data recorder is to read of a value that a sensor prints: format_value of sdi12_sensor.c, and
-- the end of the loop of sdi12_master_parse_data_values, described without them.
use libsdi.Base.{
  ℕ, zero, suc, ◌%◌, ◌^◌, ◌<◌, ◌≡◌, refl, ap, ◌∙◌, false, List, [], ◌∷◌, map, Option, none, some,
  arith, length, take, take_all, All, ◌==◌, if◌then◌else◌, Bool-cases, inl, inr,
}
use mathlib.Core.Option
use libsdi.Protocol.{value_max_chars}
use libsdi.Sensor.Types.{Floats, Value}
use libsdi.Sensor.Pages.{value_text}
use libsdi.Sensor.Valid.{IsPrintable}
use libsdi.Sensor.Metadata.{find_byte}
use libsdi.Master.Values.{decimals_of, read_value}

-- The number of characters behind the first point of a text; 0 where it has none.
abbrev pub point_digits : List ℕ → ℕ
point_digits [] = 0
point_digits (c ∷ cs) = if c == b'.' then length cs else point_digits cs

-- A number of decimals is printed as an integer if it is 0.
abbrev pub magnitude_text : {F : Type 0} → Floats F → ℕ → F → List ℕ
magnitude_text fl zero x = fl.print_trunc x
magnitude_text fl (suc d) x = fl.print_fixed (suc d) x

-- The text of a value: a plus and the number, or a minus and its negation.
abbrev pub signed_text : {F : Type 0} → Floats F → Value F → List ℕ
signed_text fl v =
    if fl.nonneg v.value
    then b'+' ∷ magnitude_text fl v.decimals v.value
    else b'-' ∷ magnitude_text fl v.decimals (fl.neg v.value)

-- What is read: the number that strtod makes of that text, and the digits behind its point.
abbrev pub reading : {F : Type 0} → Floats F → (List ℕ → F) → Value F → Value F
reading fl strtod v = record {
  value = strtod (signed_text fl v);
  decimals = point_digits (signed_text fl v);
}

-- The point of a text is one character further than in its tail.
decimals_of-suc :
    (c : ℕ) (cs : List ℕ) (dot : Option ℕ)
    → decimals_of (c ∷ cs) (Option.map suc dot) ≡ decimals_of cs dot
unfolding decimals_of
decimals_of-suc c cs none = refl
decimals_of-suc c cs (some k) = ap (λ (n : ℕ). n % 2 ^ 8) (omega arith)

decimals_of-point_digits :
    (text : List ℕ) → length text < 256 → decimals_of text (find_byte b'.' text) ≡ point_digits text
unfolding find_byte
decimals_of-point_digits [] h = unfold decimals_of in refl
decimals_of-point_digits (c ∷ cs) h = elim (Bool-cases (c == b'.')) [
  | inl e ↦ rw e (unfold decimals_of in omega arith)
  | inr e ↦
      rw e (decimals_of-suc c cs (find_byte b'.' cs) ∙ decimals_of-point_digits cs (omega arith))
]

module _ {F : Type 0} (fl : Floats F) where
  magnitude_text_lem :
      (d : ℕ) (x : F)
      → (if d == 0 then fl.print_trunc x else fl.print_fixed d x) ≡ magnitude_text fl d x
  magnitude_text_lem zero x = refl
  magnitude_text_lem (suc d) x =
      let some_digits : (suc d == 0) ≡ false = ground arith in rw some_digits refl

  value_text-signed_text : (v : Value F) → value_text fl v ≡ signed_text fl v
  unfolding value_text
  value_text-signed_text v = elim (Bool-cases (fl.nonneg v.value)) [
    | inl e ↦ rw e (ap (◌∷◌ b'+') (magnitude_text_lem v.decimals v.value))
    | inr e ↦ rw e (ap (◌∷◌ b'-') (magnitude_text_lem v.decimals (fl.neg v.value)))
  ]

  -- A printable value is read from the whole of its text.
  read_value-reading :
      (strtod : List ℕ → F) (v : Value F)
      → IsPrintable fl v
      → read_value strtod (value_text fl v) ≡ reading fl strtod v
  unfolding read_value
  read_value-reading strtod v h =
      let text = value_text fl v in
      let whole : take value_max_chars text ≡ text = take_all value_max_chars text h.0 in
      let digits : decimals_of text (find_byte b'.' text) ≡ point_digits text =
        decimals_of-point_digits text (omega (arith, h.0)) in
      ap (λ (t : List ℕ). record { value = strtod t; decimals = decimals_of t (find_byte b'.' t) })
        whole
      ∙ ap (λ (d : ℕ). record { value = strtod text; decimals = d }) digits
      ∙ ap (λ (t : List ℕ). record { value = strtod t; decimals = point_digits t })
          (value_text-signed_text v)

  pub map-reading :
      (strtod : List ℕ → F) (vs : List (Value F))
      → All (IsPrintable fl) vs
      → map (read_value strtod) (map (value_text fl) vs) ≡ map (reading fl strtod) vs
  map-reading strtod [] h = refl
  map-reading strtod (v ∷ vs) h =
      ap (λ (u : Value F). u ∷ map (read_value strtod) (map (value_text fl) vs))
        (read_value-reading strtod v h.0)
      ∙ ap (◌∷◌ (reading fl strtod v)) (map-reading strtod vs h.1)
