-- ===== src/Master/Examples.antt =====
-- sdi12_master.c on small inputs: the answer `00023` to a standard measurement, and a sensor `0`.
use libsdi.Base.{
  ℕ, ◌≡◌, refl, true, List, ◌∷◌, ◌++◌, [], some, arith, length-take, take, replicate, codes,
}
use libsdi.Base.Buffer.{overwrite}
use libsdi.Base.Text.{zero_pad}
use libsdi.Crc.{crlf}
use libsdi.Protocol.{ok, standard, valid_address}
use libsdi.Sensor.Measure.{count_text}
use libsdi.Master.Bus.{
  Master, direction, rx, tx, transmitted, transact, acknowledge, change_address,
}
use libsdi.Master.Transact.{IsMaster, transact_lem}
use libsdi.Master.Exchange.{acknowledge_lem, change_address_lem}

abbrev answer : List ℕ
answer = b'0' ∷ (zero_pad 3 2 ++ (count_text standard 3 ++ crlf))

-- A bus on which the sensor `0` answers every command with its address.
abbrev bus : Master ℕ
bus = record {
  send = λ bytes w. w;
  recv = λ room timeout w. (take room (b'0' ∷ crlf), w);
  cmd_buf = replicate 24 0;
  resp_buf = replicate 86 0;
  resp_len = 0;
  world = 0;
  trace = [];
}

bus-IsMaster : IsMaster bus
bus-IsMaster = record {
  commands = refl;
  responses = refl;
  within = λ room timeout w. omega (arith, length-take room (b'0' ∷ crlf));
}

zero_valid : valid_address b'0' ≡ true
unfolding valid_address
zero_valid = refl

one_valid : valid_address b'1' ≡ true
unfolding valid_address
one_valid = refl

acknowledge_lem_example : (m' : Master ℕ) × (acknowledge b'0' bus ≡ some ((ok, some true), m'))
acknowledge_lem_example = acknowledge_lem b'0' true bus zero_valid bus-IsMaster refl

change_address_lem_example : (m' : Master ℕ) × (change_address b'1' b'0' bus ≡ some (ok, m'))
change_address_lem_example =
    change_address_lem b'1' b'0' true bus one_valid zero_valid bus-IsMaster refl

transact_lem_example :
    transact (codes "0!") 15 bus
    ≡ some (
      ok,
      record bus {
        cmd_buf = overwrite (replicate 24 0) 0 (codes "0!" ++ 0 ∷ []);
        trace = direction tx ∷ transmitted (codes "0!") ∷ direction rx ∷ [];
        resp_len = 3;
        resp_buf = overwrite (overwrite (replicate 86 0) 0 (b'0' ∷ crlf)) 3 (0 ∷ []);
      },
    )
transact_lem_example = transact_lem (codes "0!") 15 bus bus-IsMaster
