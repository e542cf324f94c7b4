-- ===== src/Session/Wired.antt =====
-- The bus as the callbacks of a data recorder.
use libsdi.Base.{ℕ, ◌≤◌, ◌≡◌, subst, sym, ap, ◌∙◌, List, arith, length, length-take, drop, take_all}
use libsdi.Sensor.Types.{Floats, Sensor}
use libsdi.Master.Bus.{Master}
use libsdi.Master.Transact.{IsMaster, SameBus}
use libsdi.Session.{Wire, wire_send, wire_recv}

-- A data recorder whose callbacks are the bus, with arrays of their sizes.
pub record IsWired {F V : Type 0} (fl : Floats F) (m : Master (Wire F V)) : Type 0 where
  pub sends : m.send ≡ wire_send fl
  pub receives : m.recv ≡ wire_recv
  pub commands : length m.cmd_buf ≡ 24
  pub responses : length m.resp_buf ≡ 86

module _ {F V : Type 0} (fl : Floats F) where
  pub wired-IsMaster : (m : Master (Wire F V)) → IsWired fl m → IsMaster m
  unfolding wire_recv
  wired-IsMaster m h = record {
    commands = h.commands;
    responses = h.responses;
    within = λ room timeout w.
        subst (λ (r : ℕ → ℕ → Wire F V → List ℕ × Wire F V). length (r room timeout w).0 ≤ room)
          (sym h.receives) (omega (arith, length-take room w.incoming));
  }

  -- What the data recorder receives of an answer that fits.
  pub wired_answer :
      (m : Master (Wire F V))
      → IsWired fl m
      → (cmd : List ℕ) (timeout : ℕ) (s : Sensor F V) (line : List ℕ)
      → wire_send fl cmd m.world ≡ record m.world { sensor = s; incoming = line }
      → length line ≤ 85
      → m.recv 85 timeout (m.send cmd m.world)
        ≡ (line, record m.world { sensor = s; incoming = drop 85 line })
  unfolding wire_recv
  wired_answer m h cmd timeout s line e fits =
      ap (λ (r : ℕ → ℕ → Wire F V → List ℕ × Wire F V). r 85 timeout (m.send cmd m.world))
        h.receives
      ∙ ap (λ (f : List ℕ → Wire F V → Wire F V). wire_recv 85 timeout (f cmd m.world)) h.sends
      ∙ ap (wire_recv 85 timeout) e
      ∙ ap (λ (got : List ℕ). (got, record m.world { sensor = s; incoming = drop 85 line }))
          (take_all 85 line fits)

  -- The next command finds the same bus.
  pub SameBus-IsWired : (m m' : Master (Wire F V)) → IsWired fl m → SameBus m m' → IsWired fl m'
  SameBus-IsWired m m' h bus = record {
    sends = bus.sends ∙ h.sends;
    receives = bus.receives ∙ h.receives;
    commands = bus.commands ∙ h.commands;
    responses = bus.responses ∙ h.responses;
  }
