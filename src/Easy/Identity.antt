-- ===== src/Easy/Identity.antt =====
-- sdi12_easy.h: the identity that the SETUP macros build, and the sensor that it makes.
use libsdi.Base.{
  ℕ, zero, suc, ◌+◌, ◌-◌, ◌≤◌, ◌≡◌, ◌≢◌, refl, sym, ap, ◌∙◌, true, false, List, [], ◌∷◌, ◌++◌,
  append_assoc, append-nil, some, All, All-append, All-take, All-replicate, arith, codes, length,
  length-append, length-take, take, drop, take-append, take_all, replicate, ◌==◌,
}
use libsdi.Base.Buffer.{overwrite, NoNul}
use libsdi.Base.Text.{pad_right, length-pad_right, All-pad_right}
use libsdi.Crc.{crlf}
use libsdi.Crc.Step.{IsByte}
use libsdi.Protocol.{ok, ready, valid_address}
use libsdi.Sensor.Types.{Floats, Value, Ident, Sensor}
use libsdi.Sensor.Valid.{IsText, IsIdent, ReadOk, IsValid}
use libsdi.Sensor.Reply.{identification}
use libsdi.Sensor.Api.{init, is_set, fresh, restore_address}
use libsdi.Sensor.ApiValid.{init-Initialised}
use libsdi.Easy.{c_string, padded_field, serial_field, easy_ident, easy_callbacks, sensor_setup}

c_string-append : (xs rest : List ℕ) → NoNul xs → c_string (xs ++ 0 ∷ rest) ≡ xs
unfolding c_string
c_string-append [] rest h = refl
c_string-append (x ∷ xs) rest h =
    let there : (x == 0) ≡ false = ground (arith, h.0) in
    rw there (ap (◌∷◌ x) (c_string-append xs rest h.1))

-- What a text leaves of the spaces and the NUL behind them.
spaces_left :
    (n k : ℕ)
    → k ≤ n
    → drop {A = ℕ} k (replicate n b' ' ++ 0 ∷ []) ≡ replicate (n - k) b' ' ++ 0 ∷ []
spaces_left n zero h = ap (λ (i : ℕ). replicate i b' ' ++ 0 ∷ []) (omega arith)
spaces_left zero (suc k) h = absurd (omega arith)
spaces_left (suc n) (suc k) h =
    spaces_left n k (omega arith) ∙ ap (λ (i : ℕ). replicate i b' ' ++ 0 ∷ []) (omega arith)

-- A padded field holds the text, cut and padded with spaces to the width.
c_string-padded :
    (n : ℕ) (text : List ℕ)
    → NoNul text
    → c_string (take n text ++ drop (0 + length (take n text)) (replicate n b' ' ++ 0 ∷ []))
      ≡ pad_right n text
unfolding pad_right
c_string-padded n text h =
    let k = 0 + length (take n text) in
    let cut = length-take n text in
    let spaces : List ℕ = replicate (n - k) b' ' in
    let same : n - k ≡ n - length text = omega (arith, cut) in
    let clean =
      All-append (λ c. c ≢ 0) (take n text) spaces (All-take (λ c. c ≢ 0) n text h)
        (All-replicate (λ c. c ≢ 0) (n - k) b' ' (omega arith)) in
    ap (λ (t : List ℕ). c_string (take n text ++ t)) (spaces_left n k (omega (arith, cut)))
    ∙ ap c_string (sym (append_assoc (take n text) spaces (0 ∷ [])))
    ∙ c_string-append (take n text ++ spaces) [] clean
    ∙ ap (λ (i : ℕ). take n text ++ replicate i b' ') same

-- A text that is filled up with NULs and ended by one.
c_string-filled :
    (n k : ℕ) (text rest : List ℕ)
    → NoNul text
    → n ≤ k
    → c_string (take n (text ++ replicate k 0) ++ 0 ∷ rest) ≡ take n text
unfolding c_string
c_string-filled zero k text rest h le = refl
c_string-filled (suc n) zero text rest h le = absurd (omega arith)
c_string-filled (suc n) (suc k) [] rest h le = refl
c_string-filled (suc n) (suc k) (x ∷ text) rest h le =
    let there : (x == 0) ≡ false = ground (arith, h.0) in
    rw there (ap (◌∷◌ x) (c_string-filled n (suc k) text rest h.1 (omega arith)))

-- strncpy leaves at most 13 characters of the serial number, ended by a NUL.
c_string-serial : (serial : List ℕ) → NoNul serial → c_string (serial_field serial) ≡ take 13 serial
unfolding serial_field
c_string-serial serial h =
    let zeros : List ℕ = replicate 13 0 in
    let copied = take 13 (serial ++ zeros) in
    let whole : 13 ≡ length copied =
      omega (arith, length-take 13 (serial ++ zeros), length-append serial zeros) in
    let array = overwrite (overwrite (replicate 14 b' ') 0 (0 ∷ [])) 0 copied in
    let tail = 0 ∷ drop 14 array in
    ap (λ (t : List ℕ). c_string (t ++ tail))
      (take-append 13 copied (drop (0 + length copied) (overwrite (replicate 14 b' ') 0 (0 ∷ [])))
        whole)
    ∙ c_string-filled 13 13 serial (drop 14 array) h (omega arith)

-- The identity of the macros: the texts cut to their widths, and padded but for the serial number.
easy_ident_lem :
    (vendor model fwver serial : List ℕ)
    → NoNul vendor
    → NoNul model
    → NoNul fwver
    → NoNul serial
    → easy_ident vendor model fwver serial ≡ record {
      vendor = pad_right 8 vendor;
      model = pad_right 6 model;
      firmware_version = pad_right 3 fwver;
      serial = take 13 serial;
    }
unfolding easy_ident padded_field
easy_ident_lem vendor model fwver serial hv hm hf hs =
    rw
      (
        c_string-padded 8 vendor hv,
        c_string-padded 6 model hm,
        c_string-padded 3 fwver hf,
        c_string-serial serial hs,
      )
      refl

-- A string of bytes, of any length.
abbrev pub IsString : List ℕ → Type 0
IsString text = NoNul text × All IsByte text

padded-IsText : (n : ℕ) (text : List ℕ) → IsString text → IsText n (pad_right n text)
padded-IsText n text (nonul, bytes) = (
  omega (arith, length-pad_right n text),
  All-pad_right (λ c. c ≢ 0) n text (omega arith) nonul,
  All-pad_right IsByte n text (omega arith) bytes,
)

pad_right_twice : (n : ℕ) (text : List ℕ) → pad_right n (pad_right n text) ≡ pad_right n text
unfolding pad_right
pad_right_twice n text =
    let padded = take n text ++ replicate (n - length text) b' ' in
    let size : length padded ≡ n = length-pad_right n text in
    let none_left : n - length padded ≡ 0 = omega (arith, size) in
    rw none_left (append-nil (take n padded) ∙ take_all n padded (omega (arith, size)))

module _ {F W : Type 0} (fl : Floats F) where
  -- SDI12_SENSOR_SETUP with a valid address, strings of any length, callbacks that are all set,
  -- and a read callback that returns printable values, gives SDI12_OK and a well-formed sensor in
  -- the ready state with that address, whose identification is the address, 14, the vendor, the
  -- model and the firmware version cut or padded with spaces to 8, 6 and 3 characters, the first
  -- 13 characters of the serial number, CR and LF.
  pub sensor_setup-IsValid :
      (addr : ℕ) (vendor model fwver serial : List ℕ) (read : ℕ → W → Value F × W) (w : W)
      → valid_address addr ≡ true
      → IsString vendor
      → IsString model
      → IsString fwver
      → IsString serial
      → ReadOk fl (some read)
      → (s : Sensor F W) × (sensor_setup addr vendor model fwver serial true true (some read) w
          ≡ (ok, some s))
        × IsValid fl s
        × (s.state ≡ ready)
        × (s.address ≡ addr)
        × (identification s
            ≡ addr
              ∷ (codes "14"
                  ++ (pad_right 8 vendor
                      ++ (pad_right 6 model ++ (pad_right 3 fwver ++ (take 13 serial ++ crlf))))))
  unfolding sensor_setup easy_callbacks init fresh restore_address is_set identification
  sensor_setup-IsValid addr vendor model fwver serial read w h hv hm hf hs good =
      let id : Ident = record {
        vendor = pad_right 8 vendor;
        model = pad_right 6 model;
        firmware_version = pad_right 3 fwver;
        serial = take 13 serial;
      } in
      let built = easy_ident_lem vendor model fwver serial hv.0 hm.0 hf.0 hs.0 in
      let short : IsText 13 (take 13 serial) = (
        omega (arith, length-take 13 serial),
        All-take (λ c. c ≢ 0) 13 serial hs.0,
        All-take IsByte 13 serial hs.1,
      ) in
      let hi : IsIdent id =
        (padded-IsText 8 vendor hv, padded-IsText 6 model hm, padded-IsText 3 fwver hf, short) in
      let cb = easy_callbacks true true (some read) in
      let (fine, valid, at_rest, unsent) = rw h at (init-Initialised fl addr id cb w hi good tt) in
      (
        fresh addr id cb w,
        rw (built, h) refl,
        valid,
        refl,
        refl,
        rw (pad_right_twice 8 vendor, pad_right_twice 6 model, pad_right_twice 3 fwver) refl,
      )
