-- ===== src/Session/Commission.antt =====
-- A sensor gets another address: sdi12_master_change_address, and then sdi12_master_identify at the
-- new address and sdi12_master_acknowledge at the old one, against sdi12_sensor_process.
use libsdi.Base.{ℕ, ◌≡◌, ◌≢◌, subst, sym, ap, ◌∙◌, true, false, [], ◌∷◌, some, arith, codes}
use libsdi.Crc.{crlf}
use libsdi.Protocol.{ok, valid_address}
use libsdi.Sensor.Types.{Floats, Ident}
use libsdi.Sensor.Reply.{identification}
use libsdi.Sensor.Valid.{IsValid}
use libsdi.Master.Bus.{Master, response_timeout_ms, change_address, acknowledge}
use libsdi.Master.Exchange.{acknowledge_lem, change_address-answered}
use libsdi.Master.Setup.{identify}
use libsdi.Master.Identify.{IsInnerIdent, padded, identify_lem, identification-fits}
use libsdi.Session.Wired.{IsWired, wired-IsMaster, wired_answer, SameBus-IsWired}
use libsdi.Session.Rename.{Renamed, rename_answers, identify_answers, stays_silent}
use libsdi.Session.{Wire}

module _ {F V : Type 0} (fl : Floats F) where
  -- The identification of the sensor on the bus.
  pub identify_session :
      (m : Master (Wire F V))
      → let s = m.world.sensor in
        IsWired fl m
        → IsValid fl s
        → IsInnerIdent s.ident
        → (m' : Master (Wire F V)) × (identify s.address m ≡ some ((ok, some (padded s.ident)), m'))
  identify_session m h v inner =
      let s = m.world.sensor in
      let (s', sent_so) = identify_answers fl m.world v in
      let received =
        wired_answer fl m h (s.address ∷ codes "I!") response_timeout_ms s' (identification s)
          sent_so (identification-fits s v.0.ident_valid) in
      identify_lem s m v.0.address_valid v.0.ident_valid inner (wired-IsMaster fl m h)
        (ap (λ r. r.0) received)

  -- Another address is not there.
  absent_session :
      (a : ℕ) (m : Master (Wire F V))
      → IsWired fl m
      → valid_address a ≡ true
      → a ≢ m.world.sensor.address
      → (m' : Master (Wire F V)) × (acknowledge a m ≡ some ((ok, some false), m'))
  absent_session a m h valid ne =
      let (s', sent_so) = stays_silent fl a m.world valid ne in
      let received =
        wired_answer fl m h (a ∷ b'!' ∷ []) response_timeout_ms s' [] sent_so (omega arith) in
      acknowledge_lem a false m valid (wired-IsMaster fl m h) (ap (λ r. r.0) received)

  -- On a bus with a well-formed sensor whose identity has no character that ends a line, a data
  -- recorder with arrays of their sizes that changes the sensor's address to another valid one
  -- gets SDI12_OK; the sensor, still well-formed, has the new address and its identity, and has
  -- saved the address, if it has a save_address callback, before it sent it with CR and LF. From
  -- then on the data recorder that asks for the identification of the new address gets SDI12_OK
  -- and the identity, padded to its fields, and the one that asks for the old address gets
  -- SDI12_OK and that it is absent.
  pub change_address_session :
      (m : Master (Wire F V)) (new : ℕ)
      → let s = m.world.sensor in
        IsWired fl m
        → IsValid fl s
        → IsInnerIdent s.ident
        → valid_address new ≡ true
        → s.address ≢ new
        → (m₁ : Master (Wire F V)) × (change_address s.address new m ≡ some (ok, m₁))
          × Renamed fl new s m₁.world.sensor
          × ((m₂ : Master (Wire F V)) × (identify new m₁ ≡ some ((ok, some (padded s.ident)), m₂)))
          × ((m₂ : Master (Wire F V)) × (acknowledge s.address m₁ ≡ some ((ok, some false), m₂)))
  change_address_session m new h v inner valid other =
      let s = m.world.sensor in
      let (s₁, renamed, sent_so) = rename_answers fl new m.world v valid in
      let received =
        wired_answer fl m h (s.address ∷ b'A' ∷ new ∷ b'!' ∷ []) response_timeout_ms s₁ (new ∷ crlf)
          sent_so (omega arith) in
      let (m₁, done, world, bus) =
        change_address-answered s.address new m v.0.address_valid valid (wired-IsMaster fl m h)
          (ap (λ r. r.0) received) in
      let now : Renamed fl new s m₁.world.sensor =
        subst (λ (w : Wire F V). Renamed fl new s w.sensor) (sym (world ∙ ap (λ r. r.1) received))
          renamed in
      let wired = SameBus-IsWired fl m m₁ h bus in
      let (m₂, known) =
        identify_session m₁ wired now.valid (subst IsInnerIdent (sym now.ident) inner) in
      let found : identify new m₁ ≡ some ((ok, some (padded s.ident)), m₂) =
        ap (λ (a : ℕ). identify a m₁) (sym now.at)
        ∙ known
        ∙ ap (λ (i : Ident). some ((ok, some (padded i)), m₂)) now.ident in
      let absent = absent_session s.address m₁ wired v.0.address_valid (λ e. other (e ∙ now.at)) in
      (m₁, done, now, (m₂, found), absent)
