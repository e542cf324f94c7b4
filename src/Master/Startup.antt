-- ===== src/Master/Startup.antt =====
-- sdi12_master.c: what sdi12_master_init makes of the callbacks, and that a break keeps it.
use libsdi.Base.{
  ℕ, ◌≤◌, ◌≡◌, refl, Bool, true, false, ◌&&◌, List, [], Option, none, some, length,
  length-replicate,
}
use libsdi.Protocol.{Err, ok, err_callback_missing}
use libsdi.Master.Bus.{Master}
use libsdi.Master.Transact.{IsMaster}
use libsdi.Master.Setup.{MasterCallbacks, fresh_master, init_bound, master_init}

module _ {W : Type 0} where
  -- The receiver, if there is one, writes no more than the room it is told.
  abbrev pub RecvOk : Option (ℕ → ℕ → W → List ℕ × W) → Type 0
  RecvOk none = Unit {0}
  RecvOk (some recv) = (room timeout : ℕ) (w : W) → length (recv room timeout w).0 ≤ room

  abbrev pub are_set : Option (List ℕ → W → W) → Option (ℕ → ℕ → W → List ℕ × W) → Bool → Bool
  are_set (some send) (some recv) others = others
  are_set (some send) none others = false
  are_set none recv others = false

  -- A new context that has done nothing yet, or a code and none.
  abbrev pub Started : Bool → W → Err × Option (Master W) → Type 0
  Started true w (e, some m) =
      (e ≡ ok) × IsMaster m × (m.world ≡ w) × (m.trace ≡ []) × (m.resp_len ≡ 0)
  Started true w (e, none) = ⊥
  Started false w (e, some m) = ⊥
  Started false w (e, none) = e ≡ err_callback_missing

  init_bound-Started :
      (send : Option (List ℕ → W → W)) (recv : Option (ℕ → ℕ → W → List ℕ × W)) (others : Bool)
      (w : W)
      → RecvOk recv
      → Started (are_set send recv others) w (init_bound send recv others w)
  unfolding init_bound fresh_master
  init_bound-Started (some send) (some recv) true w h = (
    refl,
    record {
      commands = length-replicate {A = ℕ} 24 0;
      responses = length-replicate {A = ℕ} 86 0;
      within = h;
    },
    refl,
    refl,
    refl,
  )
  init_bound-Started (some send) (some recv) false w h = refl
  init_bound-Started (some send) none others w h = refl
  init_bound-Started none recv others w h = refl

  -- With all five callbacks set, and a receiver that writes no more than the room it is told,
  -- sdi12_master_init returns SDI12_OK and a well-formed context that has called nothing and holds
  -- no response; with any of them missing it returns SDI12_ERR_CALLBACK_MISSING and makes no
  -- context.
  pub master_init-Started :
      (cb : MasterCallbacks W) (w : W)
      → RecvOk cb.recv
      → Started
          (are_set cb.send cb.recv (cb.set_direction && (cb.send_break && cb.delay)))
          w
          (master_init (some cb) w)
  unfolding master_init
  master_init-Started cb w h =
      init_bound-Started cb.send cb.recv (cb.set_direction && (cb.send_break && cb.delay)) w h
