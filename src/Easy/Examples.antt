-- ===== src/Easy/Examples.antt =====
-- sdi12_easy.h on the identity of the sample sensor.
use libsdi.Base.{ℕ, ◌+◌, ◌≡◌, true, ◌∷◌, ◌++◌, some, arith, codes}
use libsdi.Base.Text.{pad_right}
use libsdi.Crc.{crlf}
use libsdi.Protocol.{ok, ready}
use libsdi.Sensor.Types.{Sensor}
use libsdi.Sensor.Valid.{IsValid}
use libsdi.Sensor.Reply.{identification}
use libsdi.Sensor.Sample.{floats, seven, config, seven-IsPrintable}
use libsdi.Easy.{sensor_setup}
use libsdi.Easy.Identity.{sensor_setup-IsValid}

sensor_setup-IsValid_example :
    (s : Sensor ℕ ℕ) × (sensor_setup b'0'
        (codes "MYVENDORX")
        (codes "MDL")
        (codes "100")
        (codes "SN001")
        true
        true
        (some (λ i w. (seven, w + 1)))
        0
      ≡ (ok, some s))
    × IsValid floats s
    × (s.state ≡ ready)
    × (s.address ≡ b'0')
    × (identification s ≡ b'0' ∷ (codes "14MYVENDORMDL   100SN001" ++ crlf))
unfolding pad_right
sensor_setup-IsValid_example =
    sensor_setup-IsValid floats b'0' (codes "MYVENDORX") (codes "MDL") (codes "100") (codes "SN001")
      (λ i w. (seven, w + 1)) 0 config.address_valid (omega arith) (omega arith) (omega arith)
      (omega arith) (λ i w. seven-IsPrintable)
