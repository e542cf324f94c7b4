-- ===== src/Sensor/Examples.antt =====
-- sdi12_sensor.c on the sample sensor.
use libsdi.Base.{
  List, [], arith, codes, false, min, refl, replicate, some, suc, take, true, zero, ℕ, ◌++◌, ◌+◌,
  ◌<◌, ◌∷◌, ◌≡◌,
}
use libsdi.Base.Buffer.{strlen}
use libsdi.Crc.{crlf}
use libsdi.Protocol.{Err, ok, standard, ready, measuring, max_params, c_values_max_chars}
use libsdi.Base.{length, get_elem?}
use libsdi.Base.Text.{decimal, digits}
use libsdi.Sensor.Types.{Param, Sensor, Value}
use libsdi.Sensor.Pages.{render_page, value_text}
use libsdi.Sensor.Groups.{in_group, count_loop, count_group, collect_group_indices}
use libsdi.Sensor.Metadata.{find_byte}
use libsdi.Sensor.Process.{process, strip_bang}
use libsdi.Sensor.Api.{init, measurement_done, break}
use libsdi.Sensor.Valid.{IsXcmd, IsPrintable, IsValid, Answers}
use libsdi.Sensor.ProcessAnswers.{process-Answers}
use libsdi.Sensor.CommandAnswers.{NumberFits}
use libsdi.Sensor.PageAnswers.{Rendered, render_page-Rendered}
use libsdi.Sensor.FirstPage.{texts, whole_or_nothing, render_page-whole}
use libsdi.Sensor.FullPage.{render_page-full}
use libsdi.Sensor.PageContents.{render_page-later}
use libsdi.Sensor.Measure.{count_text, handle_measurement}
use libsdi.Sensor.Announce.{Announced, handle_measurement-announces}
use libsdi.Sensor.Counting.{collect_group_indices_lem}
use libsdi.Sensor.ApiValid.{Initialised, init-Initialised}
use libsdi.Sensor.Lifecycle.{Done, measurement_done-Done, break-IsValid}
use libsdi.Sensor.Sample.{
  floats, seven, ident, callbacks, param, sensor, seven-IsPrintable, ident-IsIdent, zeros, config,
  sensor-IsValid,
}

no_number : NumberFits (codes "0R0!") (strip_bang (codes "0R0!") 4)
unfolding find_byte strip_bang
no_number k e = cc

-- `0R0!`
process-Answers_example :
    Answers floats [] (process floats (codes "0R0!") 4 (sensor ready (seven ∷ [])))
process-Answers_example =
    process-Answers floats (codes "0R0!") 4 (sensor ready (seven ∷ [])) (sensor-IsValid ready)
      (λ e. no_number)

measurement_done-Done_example :
    (s' : Sensor ℕ ℕ) × (measurement_done (seven ∷ seven ∷ []) 2 (sensor measuring (seven ∷ []))
      ≡ some (ok, s'))
    × Done floats (take (min 2 max_params) (seven ∷ seven ∷ [])) (sensor measuring (seven ∷ [])) s'
measurement_done-Done_example =
    measurement_done-Done floats (seven ∷ seven ∷ []) 2 (sensor measuring (seven ∷ []))
      (sensor-IsValid measuring) (seven-IsPrintable, (seven-IsPrintable, tt)) (omega arith)

render_page-Rendered_example :
    Rendered true b'0' (render_page floats 0 35 true b'0' (seven ∷ []) (replicate 82 0))
render_page-Rendered_example =
    render_page-Rendered floats 0 35 true b'0' (seven ∷ []) (replicate 82 0) config.address_valid
      (seven-IsPrintable, tt) (refl, zeros)

render_page-later_example :
    render_page floats 1 35 false b'0' (replicate 10 seven) (replicate 82 0)
    ≡ render_page floats 1 35 false b'0' [] (replicate 82 0)
render_page-later_example =
    render_page-later floats 1 35 false b'0' (replicate 10 seven) (replicate 82 0) (omega arith)

init-Initialised_example : Initialised floats (init b'0' (some ident) (some callbacks) 0)
init-Initialised_example =
    init-Initialised floats b'0' ident callbacks 0 ident-IsIdent (λ i w. seven-IsPrintable) tt

-- A handler that leaves the address as the answer.
abbrev plain : List ℕ → List ℕ → ℕ → (Err × List ℕ) × ℕ
plain str buf w = ((ok, buf), w)

plain-IsXcmd : IsXcmd (record { prefix = take 15 (codes "XT"); handler = plain; active = true })
unfolding strlen
plain-IsXcmd zero str rest w b = (b, refl, (0, refl))
plain-IsXcmd (suc a) str rest w b = (b, refl, (1, ground arith))

break-IsValid_example :
    let s' = break (sensor measuring (seven ∷ [])) in
    (s'.state ≡ ready)
    × IsValid floats s'
    × (s'.trace ≡ [])
    × (s'.data_available ≡ false)
    × (s'.data_cache ≡ [])
break-IsValid_example =
    break-IsValid floats (sensor measuring (seven ∷ [])) (sensor-IsValid measuring)

-- The first and the last are active parameters of group 0.
abbrev mixed_params : List Param
mixed_params = param ∷ record param { active = false } ∷ record param { group = 1 } ∷ param ∷ []

collect_group_indices_lem_example :
    let indices = collect_group_indices mixed_params 0 max_params in
    (indices ≡ 0 ∷ 3 ∷ [])
    × ((k idx : ℕ)
        → get_elem? indices k ≡ some idx
        → (p : Param) × (get_elem? mixed_params idx ≡ some p) × (p.active ≡ true) × (p.group ≡ 0))
    × ((idx : ℕ) (p : Param)
        → get_elem? mixed_params idx ≡ some p
        → p.active ≡ true
        → p.group ≡ 0
        → (k : ℕ) × (get_elem? indices k ≡ some idx))
collect_group_indices_lem_example = collect_group_indices_lem mixed_params 0 (omega arith)

two_params : 0 < count_group (param ∷ param ∷ []) 0
unfolding count_group count_loop in_group
two_params = omega arith

handle_measurement-announces_example :
    let s = sensor ready (seven ∷ []) in
    (s' : Sensor ℕ ℕ) × (handle_measurement 0 false standard s ≡ some (ok, s'))
    × Announced
        (b'0' ∷ (codes "000" ++ (count_text standard (count_group s.params 0) ++ crlf)))
        (count_group s.params 0)
        0
        false
        standard
        s
        s'
handle_measurement-announces_example =
    handle_measurement-announces floats 0 false standard (sensor ready (seven ∷ []))
      (λ i w. (seven, w + 1)) (sensor-IsValid ready) refl refl refl two_params

render_page-whole_example :
    (rest : List ℕ) × (render_page floats 0 35 false b'0' (seven ∷ seven ∷ []) (replicate 82 0)
      ≡ some
          (b'0' ∷ (whole_or_nothing 35 (texts floats (seven ∷ seven ∷ [])) ++ (crlf ++ 0 ∷ rest))))
render_page-whole_example =
    render_page-whole floats b'0' 35 (seven ∷ seven ∷ []) (replicate 82 0)
      (seven-IsPrintable, (seven-IsPrintable, tt)) (omega arith) (omega arith) refl

-- Nine characters and three.
abbrev long_value : Value ℕ
long_value = record { value = 12345678; decimals = 0 }

abbrev short_value : Value ℕ
short_value = record { value = 12; decimals = 0 }

long_value-IsPrintable : IsPrintable floats long_value
unfolding value_text decimal digits
long_value-IsPrintable = omega arith

short_value-IsPrintable : IsPrintable floats short_value
unfolding value_text decimal digits
short_value-IsPrintable = omega arith

filled_lengths :
    length (texts floats (replicate 8 long_value)) + length (value_text floats short_value)
    ≡ c_values_max_chars
unfolding value_text decimal digits
filled_lengths = refl

render_page-full_example :
    let vs = replicate 8 long_value in
    (rest : List ℕ) × (render_page floats 0 c_values_max_chars false b'0'
        (vs ++ short_value ∷ [])
        (replicate 82 0)
      ≡ some (b'0' ∷ (texts floats vs ++ (crlf ++ 0 ∷ rest))))
render_page-full_example =
    let p = long_value-IsPrintable in
    render_page-full floats b'0' (replicate 8 long_value) short_value (replicate 82 0)
      (p, (p, (p, (p, (p, (p, (p, (p, tt)))))))) short_value-IsPrintable filled_lengths refl
