-- ===== src/Master/Calls/Examples.antt =====
-- Calls on a bus that answers every command by the same bytes.
use libsdi.Base.{
  ℕ, ◌≡◌, refl, false, List, [], ◌∷◌, some, arith, length, length-take, take, replicate, codes,
}
use libsdi.Protocol.{Err, standard}
use libsdi.Master.Bus.{Master}
use libsdi.Master.Safe.{Guarded, Stays}
use libsdi.Master.Calls.{Call, run_calls}
use libsdi.Master.Calls.Safe.{run_calls-Safe}

abbrev answering : List ℕ → Master ℕ
answering answer = record {
  send = λ bytes w. w;
  recv = λ room timeout w. (take room answer, w);
  cmd_buf = replicate 24 0;
  resp_buf = replicate 86 0;
  resp_len = 0;
  world = 7;
  trace = [];
}

-- The world does not change, and every command may be sent.
abbrev IsSeven : ℕ → Type 0
IsSeven w = w ≡ 7

abbrev Any : List ℕ → Type 0
Any cmd = Unit {0}

answering-Guarded : (answer : List ℕ) → Guarded IsSeven Any (answering answer)
answering-Guarded answer = record {
  arrays = record {
    commands = refl;
    responses = refl;
    within = λ room timeout w. omega (arith, length-take room answer);
  };
  sends = λ cmd w c h. h;
  receives = λ room timeout w h. h;
  holds = refl;
}

abbrev first : List ℕ → ℕ
first [] = 0
first (c ∷ cs) = c

abbrev many_calls : List Call
many_calls =
    Call.start_measurement_call b'0' standard 0 false
    ∷ Call.get_data_call b'0' 0 false
    ∷ Call.extended_multiline_call b'0' (codes "Q") (replicate 10 0) 10 20
    ∷ Call.get_hv_binary_data_call b'0' 0
        (record { out_type = 0; out_payload = replicate 4 0; out_len = 4 })
    ∷ []

run_calls-Safe_example :
    (errors : List Err) × (m' : Master ℕ) × (run_calls first many_calls (answering (codes "0+1+2"))
      ≡ some (errors, m'))
    × (length errors ≡ 4)
    × Stays IsSeven Any (answering (codes "0+1+2")) m'
run_calls-Safe_example =
    run_calls-Safe first IsSeven Any many_calls (answering (codes "0+1+2"))
      (answering-Guarded (codes "0+1+2"))
      ((λ cmd e. tt), (tt, ((omega arith, tt), ((omega arith, tt), tt))))
