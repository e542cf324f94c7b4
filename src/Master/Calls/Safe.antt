-- ===== src/Master/Calls/Safe.antt =====
-- sdi12_master.c: no sequence of calls leaves the arrays.
use libsdi.Base.{ℕ, arith, ◌≡◌, refl, ap, List, [], ◌∷◌, Option, some, All, length}
use libsdi.Protocol.{Err, verification}
use libsdi.Master.Bus.{Master, send_break}
use libsdi.Master.Commands.{verify}
use libsdi.Master.Safe.{
  Guarded, Stays, Safe, Outcome, answered, failed, Stays-refl, Stays-trans, transact-Outcome,
}
use libsdi.Master.Safe.Replies.{
  acknowledge-Safe, change_address-Safe, query_address-Safe, identify-Safe,
}
use libsdi.Master.Safe.Measures.{
  start_measurement-Safe, wait_service_request-Safe, identify_measurement-Safe,
  identify_parameter-Safe, get_data-Safe, read_continuous-Safe,
}
use libsdi.Master.Safe.Collect.{extended-Safe, extended_multiline-Safe, get_hv_data-Safe}
use libsdi.Master.Safe.Binary.{get_hv_binary_data-Safe}
use libsdi.Master.Calls.{Call, Allowed, coded, run_call, run_calls}

module _ {F W : Type 0} (strtod : List ℕ → F) (P : W → Type 0) (C : List ℕ → Type 0) where
  coded-Safe :
      {A : Type 0} (m : Master W) (run : Option ((Err × A) × Master W))
      → Safe P C m run
      → Safe P C m (coded run)
  coded-Safe m run (r, m', done, s) = (r.0, m', ap coded done, s)

  transact-Safe :
      (m : Master W) (run : Option (Err × Master W)) → Outcome P C m run → Safe P C m run
  transact-Safe m run (answered m' e s low high) = (_, m', e, s)
  transact-Safe m run (failed err m' ne e s) = (err, m', e, s)

  -- A break changes nothing but the trace.
  send_break-Safe : (m : Master W) → Guarded P C m → Safe P C m (some (send_break m))
  unfolding send_break
  send_break-Safe m g = (
    _,
    _,
    refl,
    record {
      bus = record { sends = refl; receives = refl; commands = refl; responses = refl };
      guarded = record {
        arrays = record {
          commands = g.arrays.commands;
          responses = g.arrays.responses;
          within = g.arrays.within;
        };
        sends = g.sends;
        receives = g.receives;
        holds = g.holds;
      };
    },
  )

  pub run_call-Safe :
      (call : Call) (m : Master W)
      → Guarded P C m
      → Allowed C call
      → Safe P C m (run_call strtod call m)
  unfolding run_call verify
  run_call-Safe Call.break_call m g c = send_break-Safe m g
  run_call-Safe Call.query_address_call m g c = coded-Safe m _ (query_address-Safe P C m g c)
  run_call-Safe (Call.transact_call cmd timeout_ms) m g c =
      transact-Safe m _ (transact-Outcome P C cmd timeout_ms m g c)
  run_call-Safe (Call.acknowledge_call addr) m g c =
      coded-Safe m _ (acknowledge-Safe P C addr m g c)
  run_call-Safe (Call.identify_call addr) m g c = coded-Safe m _ (identify-Safe P C addr m g c)
  run_call-Safe (Call.verify_call addr) m g c =
      coded-Safe m _ (start_measurement-Safe P C addr verification 0 _ m g c)
  run_call-Safe (Call.change_address_call old_addr new_addr) m g c =
      change_address-Safe P C old_addr new_addr m g c
  run_call-Safe (Call.start_measurement_call addr type group crc) m g c =
      coded-Safe m _ (start_measurement-Safe P C addr type group crc m g c)
  run_call-Safe (Call.wait_service_request_call addr timeout_ms) m g c =
      wait_service_request-Safe P C addr timeout_ms m g
  run_call-Safe (Call.get_data_call addr index crc) m g c =
      coded-Safe m _ (get_data-Safe P C strtod addr index crc m g c)
  run_call-Safe (Call.continuous_call addr index crc) m g c =
      coded-Safe m _ (read_continuous-Safe P C strtod addr index crc m g c)
  run_call-Safe (Call.identify_measurement_call addr cmd_body type) m g c =
      coded-Safe m _ (identify_measurement-Safe P C addr cmd_body type m g c)
  run_call-Safe (Call.identify_parameter_call addr cmd_body param_num) m g c =
      coded-Safe m _ (identify_parameter-Safe P C addr cmd_body param_num m g c)
  run_call-Safe (Call.extended_call addr xcmd out room timeout_ms) m g (fits, c) =
      coded-Safe m _ (extended-Safe P C addr xcmd out room timeout_ms m g fits c)
  run_call-Safe (Call.extended_multiline_call addr xcmd out room timeout_ms) m g (fits, c) =
      coded-Safe m _ (extended_multiline-Safe P C addr xcmd out room timeout_ms m g fits c)
  run_call-Safe (Call.get_hv_data_call addr page out room) m g (fits, c) =
      coded-Safe m _ (get_hv_data-Safe P C addr page out room m g fits c)
  run_call-Safe (Call.get_hv_binary_data_call addr page out) m g (fits, c) =
      coded-Safe m _ (get_hv_binary_data-Safe P C addr page out m g fits c)

  -- Every sequence of calls of the interface, on a well-formed data recorder and whatever it
  -- receives, runs to its end without an access outside an array, and returns a code for every
  -- call; the data recorder stays well-formed and keeps its callbacks, and any property of the
  -- world that receiving keeps, and sending keeps for the commands that the calls send, still
  -- holds. The callers have the room that they say.
  pub run_calls-Safe :
      (calls : List Call) (m : Master W)
      → Guarded P C m
      → All (Allowed C) calls
      → (codes : List Err) × (m' : Master W) × (run_calls strtod calls m ≡ some (codes, m'))
        × (length codes ≡ length calls)
        × Stays P C m m'
  unfolding run_calls
  run_calls-Safe [] m g h = ([], m, refl, refl, Stays-refl P C m g)
  run_calls-Safe (call ∷ calls) m g h =
      let (e, m₁, done, s) = run_call-Safe call m g h.0 in
      let (es, m₂, rest, size, t) = run_calls-Safe calls m₁ s.guarded h.1 in
      (e ∷ es, m₂, rw (done, rest) refl, omega (arith, size), Stays-trans P C m m₁ m₂ s t)
