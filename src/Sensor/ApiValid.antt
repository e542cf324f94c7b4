-- ===== src/Sensor/ApiValid.antt =====
-- sdi12_sensor.c: sdi12_sensor_init and the registrations keep the sensor well-formed.
use libsdi.Base.{
  ℕ, zero, suc, ◌≡◌, ◌≢◌, refl, true, not, ◌||◌, List, [], ◌∷◌, ◌++◌, Option, none, some, All,
  All-append, All-take, arith, length, length-append, length-take, take, replicate,
  length-replicate, leb, Bool-cases, inl, inr,
}
use libsdi.Base.Buffer.{NoNul}
use libsdi.Crc.Step.{IsByte}
use libsdi.Protocol.{Err, ok, ready, max_params, max_xcmds, max_meas_groups, valid_address}
use libsdi.Sensor.Types.{Floats, Ident, Callbacks, Param, Xcmd, Sensor}
use libsdi.Sensor.Api.{is_set, fresh, restore_address, init, register_param, register_xcmd}
use libsdi.Sensor.Valid.{IsText, IsParam, IsIdent, IsXcmd, ReadOk, BinaryOk, IsConfig, IsValid}

-- The array after `memset`.
zeros-bytes : (n : ℕ) → All IsByte (replicate n 0)
zeros-bytes zero = tt
zeros-bytes (suc n) = (omega arith, zeros-bytes n)

take-IsText : (n : ℕ) (text : List ℕ) → NoNul text → All IsByte text → IsText n (take n text)
take-IsText n text nonul bytes = (
  omega (arith, length-take n text),
  All-take (λ c. c ≢ 0) n text nonul,
  All-take IsByte n text bytes,
)

module _ {F W : Type 0} (fl : Floats F) where
  -- The outcome of sdi12_sensor_init: no context, or a well-formed one.
  abbrev pub Initialised : Err × Option (Sensor F W) → Type 0
  Initialised (e, none) = e ≢ ok
  Initialised (e, some s) = (e ≡ ok) × IsValid fl s × (s.state ≡ ready) × (s.resp_len ≡ 0)

  restore_address-IsValid :
      (load : Option (W → ℕ × W)) (s : Sensor F W)
      → IsValid fl s
      → s.state ≡ ready
      → s.resp_len ≡ 0
      → Initialised (ok, some (restore_address load s))
  unfolding restore_address
  restore_address-IsValid none s v r z = (refl, v, r, z)
  restore_address-IsValid (some load) s (config, buffer, cache) r z =
      elim (Bool-cases (valid_address (load s.world).0)) [
        | inl e ↦
            let config' : IsConfig fl (load s.world).0 s.ident s.cb s.params s.xcmds = record {
              address_valid = e;
              ident_valid = config.ident_valid;
              sends = config.sends;
              read_ok = config.read_ok;
              binary_ok = config.binary_ok;
              params_fit = config.params_fit;
              params_valid = config.params_valid;
              xcmds_fit = config.xcmds_fit;
              xcmds_valid = config.xcmds_valid;
            } in
            rw e (refl, (config', buffer, cache), r, z)
        | inr e ↦ rw e (refl, (config, buffer, cache), r, z)
      ]

  -- sdi12_sensor_init with an identification whose strings fit and with callbacks that keep their
  -- contracts fails without a context, or returns SDI12_OK and a well-formed context in the ready
  -- state, whatever address the callback restores.
  pub init-Initialised :
      (address : ℕ) (ident : Ident) (cb : Callbacks F W) (w : W)
      → IsIdent ident
      → ReadOk fl cb.read_param
      → BinaryOk cb.format_binary_page
      → Initialised (init address (some ident) (some cb) w)
  unfolding init fresh
  init-Initialised address ident cb w hi hr hb =
      elim (Bool-cases
        (not cb.send_response || (not cb.set_direction || not (is_set cb.read_param)))) [
          | inl e ↦ rw e (λ h. cc)
          | inr e ↦ elim (Bool-cases (valid_address address)) [
            | inl f ↦
                let config : IsConfig fl address ident cb [] [] = record {
                  address_valid = f;
                  ident_valid = hi;
                  sends = ground arith;
                  read_ok = hr;
                  binary_ok = hb;
                  params_fit = omega arith;
                  params_valid = tt;
                  xcmds_fit = omega arith;
                  xcmds_valid = tt;
                } in
                rw (e, f)
                  (restore_address-IsValid cb.load_address (fresh address ident cb w)
                    (config, (length-replicate {A = ℕ} 82 0, zeros-bytes 82), (omega arith, tt))
                    refl refl)
            | inr f ↦ rw (e, f) (λ h. cc)
          ]
        ]

  -- Registering a parameter whose names are strings of bytes, accepted or refused, keeps the sensor
  -- well-formed: names that are too long are cut, and the table never grows beyond SDI12_MAX_PARAMS.
  pub register_param-IsValid :
      (group decimals : ℕ) (shef units : List ℕ) (s : Sensor F W)
      → NoNul shef × All IsByte shef
      → NoNul units × All IsByte units
      → IsValid fl s
      → IsValid fl (register_param group (some shef) (some units) decimals s).1
  unfolding register_param
  register_param-IsValid group decimals shef units s hs hu (config, buffer, cache) =
      elim (Bool-cases (leb max_params (length s.params))) [
        | inl e ↦ rw e (config, buffer, cache)
        | inr e ↦ elim (Bool-cases (leb max_meas_groups group)) [
          | inl f ↦ rw (e, f) (config, buffer, cache)
          | inr f ↦
              let p : Param = record {
                shef = take 3 shef;
                units = take 20 units;
                group = group;
                decimals = decimals;
                active = true;
              } in
              let fits : IsParam p =
                (take-IsText 3 shef hs.0 hs.1, take-IsText 20 units hu.0 hu.1, ground arith) in
              let config' : IsConfig fl s.address s.ident s.cb (s.params ++ p ∷ []) s.xcmds =
                record {
                  address_valid = config.address_valid;
                  ident_valid = config.ident_valid;
                  sends = config.sends;
                  read_ok = config.read_ok;
                  binary_ok = config.binary_ok;
                  params_fit = ground (arith, length-append s.params (p ∷ []));
                  params_valid =
                      All-append IsParam s.params (p ∷ []) config.params_valid (fits, tt);
                  xcmds_fit = config.xcmds_fit;
                  xcmds_valid = config.xcmds_valid;
                } in
              rw (e, f) (config', buffer, cache)
        ]
      ]

  -- Registering an extended command whose handler keeps its contract, accepted or refused, keeps the
  -- sensor well-formed.
  pub register_xcmd-IsValid :
      (prefix : List ℕ) (handler : List ℕ → List ℕ → W → (Err × List ℕ) × W) (s : Sensor F W)
      → IsXcmd (record { prefix = take 15 prefix; handler = handler; active = true })
      → IsValid fl s
      → IsValid fl (register_xcmd (some prefix) (some handler) s).1
  unfolding register_xcmd
  register_xcmd-IsValid prefix handler s contract (config, buffer, cache) =
      elim (Bool-cases (leb max_xcmds (length s.xcmds))) [
        | inl e ↦ rw e (config, buffer, cache)
        | inr e ↦
            let x : Xcmd W = record { prefix = take 15 prefix; handler = handler; active = true } in
            let config' : IsConfig fl s.address s.ident s.cb s.params (s.xcmds ++ x ∷ []) = record {
              address_valid = config.address_valid;
              ident_valid = config.ident_valid;
              sends = config.sends;
              read_ok = config.read_ok;
              binary_ok = config.binary_ok;
              params_fit = config.params_fit;
              params_valid = config.params_valid;
              xcmds_fit = ground (arith, length-append s.xcmds (x ∷ []));
              xcmds_valid = All-append IsXcmd s.xcmds (x ∷ []) config.xcmds_valid (contract, tt);
            } in
            rw e (config', buffer, cache)
      ]
