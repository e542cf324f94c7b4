-- ===== src/Master/Numbers.antt =====
-- sdi12_master.c: sdi12_master_parse_data_values ends, and reads the values that a response carries.
use libsdi.Base.{
  ℕ, zero, suc, ◌-◌, ◌≤◌, ◌≡◌, refl, Bool, true, ◌&&◌, List, [], ◌∷◌, Option, none, some, arith,
  length, length-append, length-drop, length-take, take, ltb, leb, Bool-cases, inl, inr,
  if◌then◌else◌,
}
use libsdi.Protocol.{ok}
use libsdi.Sensor.Types.{Value}
use libsdi.Master.Values.{
  skip_spaces, number_width, next_value, read_value, add_value, values_loop, parse_data_values,
}

length-skip_spaces : (cs : List ℕ) → length (skip_spaces cs) ≤ length cs
unfolding skip_spaces
length-skip_spaces [] = omega arith
length-skip_spaces (c ∷ cs) = ground (arith, length-skip_spaces cs)

-- A round consumes a character.
length-next_value : (cs : List ℕ) → length (next_value cs).1 ≤ length cs - 1
unfolding next_value
length-next_value [] = omega arith
length-next_value (c ∷ cs) = ground (arith, length-drop (number_width cs) cs)

round_shorter : (c : ℕ) (cs : List ℕ) → length (next_value (skip_spaces (c ∷ cs))).1 ≤ length cs
round_shorter c cs =
    omega (arith, length-next_value (skip_spaces (c ∷ cs)), length-skip_spaces (c ∷ cs))

module _ {F : Type 0} (strtod : List ℕ → F) where
  length-add_value :
      (found : Option (List ℕ)) (values : List (Value F))
      → length (add_value strtod found values) ≤ suc (length values)
  unfolding add_value
  length-add_value none values = omega arith
  length-add_value (some text) values =
      omega (arith, length-append values (read_value strtod text ∷ []))

  values_loop-ends :
      (limit fuel : ℕ) (text : List ℕ) (values : List (Value F))
      → length text ≤ fuel
      → length values ≤ limit
      → (vs : List (Value F)) × (values_loop strtod limit fuel text values ≡ some vs)
        × (length vs ≤ limit)
  unfolding values_loop
  values_loop-ends limit fuel [] values h k = (values, refl, k)
  values_loop-ends limit zero (c ∷ cs) values h k = absurd (omega arith)
  values_loop-ends limit (suc fuel) (c ∷ cs) values h k =
      elim (Bool-cases (ltb (length values) limit)) [
        | inl e ↦
            let round = next_value (skip_spaces (c ∷ cs)) in
            let next = add_value strtod round.0 values in
            let (vs, done, few) =
              values_loop-ends limit fuel round.1 next (omega (arith, h, round_shorter c cs))
                (ground (arith, length-add_value round.0 values)) in
            (vs, rw e done, few)
        | inr e ↦ (values, rw e refl, k)
      ]

  -- For a response that is in memory, sdi12_master_parse_data_values ends, within as many rounds as
  -- there are characters, and returns SDI12_OK and no more values than the caller's array holds.
  pub parse_data_values-ends :
      (resp_str : List ℕ) (len limit : ℕ) (verify_crc : Bool)
      → len ≤ length resp_str
      → (vs : List (Value F)) × (parse_data_values strtod resp_str len limit verify_crc
          ≡ some (ok, vs))
        × (length vs ≤ limit)
  unfolding parse_data_values
  parse_data_values-ends resp_str len limit verify_crc h =
      let n = if verify_crc && leb 3 len then len - 3 else len in
      let few : n ≤ length resp_str = ground arith in
      let inside : leb n (length resp_str) ≡ true = ground arith in
      let cut : length (take n resp_str) ≤ n = omega (arith, length-take n resp_str) in
      let (vs, done, fits) = values_loop-ends limit n (take n resp_str) [] cut (omega arith) in
      (vs, rw (inside, done) refl, fits)
