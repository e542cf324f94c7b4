-- ===== src/Master/Readings.antt =====
-- sdi12_master.c: the values that sdi12_master_parse_data_values and sdi12_master_get_data read.
use libsdi.Base.{
  concat, ℕ, zero, suc, map, ◌+◌, ◌-◌, ◌≤◌, ◌≡◌, refl, sym, ap, ◌∙◌, Bool, true, false, not, ◌&&◌,
  ◌||◌, List, [], ◌∷◌, ◌++◌, append-nil, append_assoc, some, All, arith, length, length-append,
  take-append, drop-append, take_all, All-append, ◌<◌, ltb, leb, ◌==◌, if◌then◌else◌,
}
use libsdi.Base.Text.{is_digit, decimal, length-decimal}
use libsdi.Crc.{crlf}
use libsdi.Protocol.{ok, valid_address}
use libsdi.Sensor.Types.{Value}
use libsdi.Master.Values.{
  skip_spaces, number_width, next_value, read_value, add_value, values_loop, parse_data_values,
  max_values, parsed_data, read_data, get_data,
}
use libsdi.Master.Bus.{Master, response_timeout_ms}
use libsdi.Master.Transact.{IsMaster}
use libsdi.Master.Line.{IsInner, transact_line}
use libsdi.Master.Identify.{valid-IsInner}

-- A digit or a point.
abbrev pub IsNumeral : ℕ → Type 0
IsNumeral c = (is_digit c || c == b'.') ≡ true

-- The text of a value: a sign, and digits and points behind it.
abbrev pub IsReading : List ℕ → Type 0
IsReading [] = ⊥
IsReading (c ∷ body) = ((c == b'+') || (c == b'-')) ≡ true × (1 ≤ length body) × All IsNumeral body

-- A number ends where the next sign stands.
number_width-readings : (ts : List (List ℕ)) → All IsReading ts → number_width (concat ts) ≡ 0
unfolding number_width is_digit
number_width-readings [] h = refl
number_width-readings ([] ∷ ts) h = absurd h.0
number_width-readings ((c ∷ body) ∷ ts) h = ground (arith, h.0)

number_width-append :
    (body rest : List ℕ)
    → All IsNumeral body
    → number_width rest ≡ 0
    → number_width (body ++ rest) ≡ length body
unfolding number_width
number_width-append [] rest h e = e
number_width-append (c ∷ body) rest h e = rw (h.0, number_width-append body rest h.1 e) refl

skip_sign :
    (c : ℕ) (cs : List ℕ) → ((c == b'+') || (c == b'-')) ≡ true → skip_spaces (c ∷ cs) ≡ c ∷ cs
unfolding skip_spaces
skip_sign c cs h = ground arith

-- A round finds the text in front.
next_value-reading :
    (c : ℕ) (body rest : List ℕ)
    → ((c == b'+') || (c == b'-')) ≡ true
    → 1 ≤ length body
    → All IsNumeral body
    → number_width rest ≡ 0
    → next_value (c ∷ (body ++ rest)) ≡ (some (c ∷ body), rest)
unfolding next_value
next_value-reading c body rest sign long h e =
    let width = number_width-append body rest h e in
    let signed : (not (c == b'+') && not (c == b'-')) ≡ false = ground arith in
    let there : ltb 0 (length body) ≡ true = ground arith in
    rw
      (
        signed,
        width,
        there,
        take-append (length body) body rest refl,
        drop-append (length body) body rest refl,
      )
      refl

numerals-IsInner : (body : List ℕ) → All IsNumeral body → All IsInner body
unfolding is_digit
numerals-IsInner [] h = tt
numerals-IsInner (c ∷ body) h =
    ((ground (arith, h.0), ground (arith, h.0)), numerals-IsInner body h.1)

pub concat-IsInner : (ts : List (List ℕ)) → All IsReading ts → All IsInner (concat ts)
concat-IsInner [] h = tt
concat-IsInner ([] ∷ ts) h = absurd h.0
concat-IsInner ((c ∷ body) ∷ ts) h =
    let (sign, long, numerals) = h.0 in
    (
      (ground (arith, sign), ground (arith, sign)),
      All-append IsInner body (concat ts) (numerals-IsInner body numerals) (concat-IsInner ts h.1),
    )

module _ {F : Type 0} (strtod : List ℕ → F) where
  values_loop-readings :
      (limit fuel : ℕ) (ts : List (List ℕ)) (values : List (Value F))
      → All IsReading ts
      → length (concat ts) ≤ fuel
      → length values + length ts ≤ limit
      → values_loop strtod limit fuel (concat ts) values
        ≡ some (values ++ map (read_value strtod) ts)
  unfolding values_loop add_value
  values_loop-readings limit fuel [] values h k n = rw (append-nil values) refl
  values_loop-readings limit fuel ([] ∷ ts) values h k n = absurd h.0
  values_loop-readings limit zero ((c ∷ body) ∷ ts) values h k n = absurd (omega arith)
  values_loop-readings limit (suc fuel) ((c ∷ body) ∷ ts) values h k n =
      let (sign, long, numerals) = h.0 in
      let found =
        next_value-reading c body (concat ts) sign long numerals (number_width-readings ts h.1) in
      let room : ltb (length values) limit ≡ true = ground arith in
      let value = read_value strtod (c ∷ body) in
      let rest =
        values_loop-readings limit fuel ts (values ++ value ∷ []) h.1
          (omega (arith, length-append body (concat ts)))
          (omega (arith, length-append values (value ∷ []))) in
      rw
        (
          skip_sign c (body ++ concat ts) sign,
          found,
          room,
          rest,
          append_assoc values (value ∷ []) (map (read_value strtod) ts),
        )
        refl

  -- A response of at most as many value texts as the caller's array holds is read as these values
  -- in their order. If a CRC was asked for, the three characters behind them are dropped, whatever
  -- they are.
  pub parse_data_values-readings :
      (ts : List (List ℕ)) (trailer rest : List ℕ) (limit : ℕ) (verify_crc : Bool)
      → All IsReading ts
      → length ts ≤ limit
      → length trailer ≡ (if verify_crc then 3 else 0)
      → parse_data_values strtod
          (concat ts ++ (trailer ++ rest))
          (length (concat ts) + length trailer)
          limit
          verify_crc
        ≡ some (ok, map (read_value strtod) ts)
  unfolding parse_data_values
  parse_data_values-readings ts trailer rest limit verify_crc h few e =
      let n = length (concat ts) in
      let all = n + length trailer in
      let len : (if verify_crc && leb 3 all then all - 3 else all) ≡ n = ground arith in
      let inside : leb n (length (concat ts ++ (trailer ++ rest))) ≡ true =
        ground (arith, length-append (concat ts) (trailer ++ rest)) in
      let read = values_loop-readings limit n ts [] h (omega arith) (omega (arith, few)) in
      rw (len, inside, take-append n (concat ts) (trailer ++ rest) refl, read) refl

  module _ {W : Type 0} where
    -- The data recorder reads the values of a page: if what comes back to a request of data is the
    -- valid address, at most 99 value texts that fit the array with it, three characters that do
    -- not end a line if a CRC was asked for, CR and LF, then it returns SDI12_OK with that address
    -- and these values in their order, whatever the three characters are.
    pub get_data_lem :
        (a page : ℕ) (crc : Bool) (ts : List (List ℕ)) (trailer : List ℕ) (m : Master W)
        → valid_address a ≡ true
        → page < 256
        → IsMaster m
        → All IsReading ts
        → length ts ≤ max_values
        → length trailer ≡ (if crc then 3 else 0)
        → All IsInner trailer
        → (m.recv 85 response_timeout_ms
            (m.send (a ∷ b'D' ∷ (decimal page ++ b'!' ∷ [])) m.world)).0
          ≡ a ∷ (concat ts ++ (trailer ++ crlf))
        → (m' : Master W) × (get_data strtod a page crc m
            ≡ some ((ok, some (record { address = a; values = map (read_value strtod) ts })), m'))
    unfolding get_data read_data parsed_data
    get_data_lem a page crc ts trailer m h small v readings few size inner e =
        let text = a ∷ (concat ts ++ trailer) in
        let short : length (decimal page) ≤ 3 = (length-decimal page (omega arith)).1 in
        let cmd = a ∷ b'D' ∷ (decimal page ++ b'!' ∷ []) in
        let fits : length cmd ≤ 6 =
          omega (arith, length-append (decimal page) (b'!' ∷ []), short) in
        let whole = take_all 7 cmd (omega (arith, fits)) in
        let all_inner : All IsInner text = (
          valid-IsInner a h,
          All-append IsInner (concat ts) trailer (concat-IsInner ts readings) inner,
        ) in
        let line = e ∙ sym (ap (◌∷◌ a) (append_assoc (concat ts) trailer crlf)) in
        let (m₁, sent, (rest, trimmed)) =
          transact_line cmd text response_timeout_ms m (omega (arith, fits)) v (omega arith)
            all_inner line in
        let count = length-append (concat ts) trailer in
        let there : ltb (suc (length (concat ts ++ trailer))) 1 ≡ false = ground arith in
        let left : length text - 1 ≡ length (concat ts) + length trailer = omega (arith, count) in
        let read =
          parse_data_values-readings ts trailer (0 ∷ 0 ∷ rest) max_values crc readings few size in
        (
          record m₁ { resp_buf = text ++ 0 ∷ 0 ∷ rest },
          rw
              (
                h,
                whole,
                sent,
                trimmed,
                there,
                left,
                append_assoc (concat ts) trailer (0 ∷ 0 ∷ rest),
                read,
              )
              refl,
        )
