-- ===== src/Master/Safe/Replies.antt =====
-- sdi12_master.c: the commands that are answered by one line, on any answer.
use libsdi.Base.{
  ℕ, ◌≤◌, ◌≡◌, ◌≢◌, refl, ap, ◌∙◌, Bool, true, false, not, ◌&&◌, ◌||◌, List, [], ◌∷◌, Option, none,
  some, arith, length, ltb, leb, if◌then◌else◌, ◌>>=◌,
}
use libsdi.Base.Buffer.{byte_at}
use libsdi.Protocol.{Err, ok, err_timeout, valid_address}
use libsdi.Master.Parse.{trim_crlf}
use libsdi.Master.Bus.{Master, trimmed_starts, presence, acknowledge, renaming, change_address}
use libsdi.Master.Setup.{queried, query_address, identified, identify}
use libsdi.Master.Safe.{
  Guarded, Safe, Outcome, Stays-refl, buffer-Stays, transact-Outcome, after-Safe, trim_crlf_total,
}

module _ {W : Type 0} (P : W → Type 0) (C : List ℕ → Type 0) where
  -- A run that leaves this data recorder, whatever it returns.
  abbrev pub Leaves : {R : Type 0} → Option (R × Master W) → Master W → Type 0
  Leaves none m = ⊥
  Leaves (some (r, m')) m = m' ≡ m

  pub returned :
      {R : Type 0} (run : Option (R × Master W)) (m : Master W)
      → Leaves run m
      → (r : R) × (run ≡ some (r, m))
  returned none m h = absurd h
  returned (some (r, m')) m h = (r, ap (λ (t : Master W). some (r, t)) h)

  -- A reply that is trimmed, and from then on only read.
  abbrev pub Trims : {R : Type 0} → Master W → Option (R × Master W) → Type 0
  Trims {R} m run =
      (buf : List ℕ) (n : ℕ)
      → trim_crlf m.resp_buf m.resp_len ≡ some (buf, n)
      → length buf ≡ 86
      → n ≤ 85
      → Leaves run (record m { resp_buf = buf })

  pub Trims-Safe :
      {R : Type 0} (m : Master W) (run : Option (R × Master W))
      → Guarded P C m
      → m.resp_len ≤ 85
      → Trims m run
      → Safe P C m run
  Trims-Safe m run g few k =
      let (buf, n, e, same, le) =
        trim_crlf_total m.resp_buf m.resp_len (omega (arith, few, g.arrays.responses)) in
      let (r, done) =
        returned run (record m { resp_buf = buf })
          (k buf n e (same ∙ g.arrays.responses) (omega (arith, le))) in
      (r, record m { resp_buf = buf }, done, buffer-Stays P C m buf g same)

  -- A call that refuses an invalid address, and else sends one command and reads the reply.
  pub asks-Safe :
      {R : Type 0} (m : Master W) (run : Option (Err × Master W))
      (k : Err × Master W → Option (R × Master W))
      → Guarded P C m
      → ((m : Master W) → Trims m (k (ok, m)))
      → ((e : Err) (m : Master W) → e ≢ ok → Leaves (k (e, m)) m)
      → Outcome P C m run
      → Safe P C m (run >>= k)
  asks-Safe m run k g good bad out =
      after-Safe P C m run k out (λ m' g' low high. Trims-Safe m' (k (ok, m')) g' high (good m'))
        (λ e m' ne. returned (k (e, m')) m' (bad e m' ne))

  pub unless-Safe :
      {R : Type 0} (b : Bool) (r : R) (m : Master W) (run : Option (R × Master W))
      → Guarded P C m
      → Safe P C m run
      → Safe P C m (if b then some (r, m) else run)
  unless-Safe true r m run g h = (r, m, refl, Stays-refl P C m g)
  unless-Safe false r m run g h = h

  presence-Trims : (addr : ℕ) (m : Master W) → Trims m (presence addr (ok, m))
  unfolding presence trimmed_starts
  presence-Trims addr m buf n e same few = rw e refl

  presence_failed : (addr : ℕ) (e : Err) (m : Master W) → e ≢ ok → Leaves (presence addr (e, m)) m
  unfolding presence
  presence_failed addr ok m ne = absurd (ne refl)
  presence_failed addr err_timeout m ne = refl
  presence_failed addr _ m ne = refl

  pub acknowledge-Safe :
      (addr : ℕ) (m : Master W)
      → Guarded P C m
      → C (addr ∷ b'!' ∷ [])
      → Safe P C m (acknowledge addr m)
  unfolding acknowledge
  acknowledge-Safe addr m g c = unless-Safe (not (valid_address addr)) _ m _ g (
      asks-Safe m _ (presence addr) g (presence-Trims addr) (presence_failed addr)
        (transact-Outcome P C _ _ m g c))

  renaming-Trims : (addr : ℕ) (m : Master W) → Trims m (renaming addr (ok, m))
  unfolding renaming trimmed_starts
  renaming-Trims addr m buf n e same few = rw e refl

  renaming_failed : (addr : ℕ) (e : Err) (m : Master W) → e ≢ ok → Leaves (renaming addr (e, m)) m
  unfolding renaming
  renaming_failed addr ok m ne = absurd (ne refl)
  renaming_failed addr _ m ne = refl

  pub change_address-Safe :
      (old_addr new_addr : ℕ) (m : Master W)
      → Guarded P C m
      → C (old_addr ∷ b'A' ∷ new_addr ∷ b'!' ∷ [])
      → Safe P C m (change_address old_addr new_addr m)
  unfolding change_address
  change_address-Safe old_addr new_addr m g c =
      unless-Safe (not (valid_address old_addr) || not (valid_address new_addr)) _ m _ g (
        asks-Safe m _ (renaming new_addr) g (renaming-Trims new_addr) (renaming_failed new_addr)
          (transact-Outcome P C _ _ m g c))

  -- A choice between two results with the same state.
  either-Leaves :
      {R : Type 0} (b : Bool) (x y : R) (m : Master W)
      → Leaves (some (if b then (x, m) else (y, m))) m
  either-Leaves true x y m = refl
  either-Leaves false x y m = refl

  queried-Trims : (m : Master W) → Trims m (queried (ok, m))
  unfolding queried
  queried-Trims m buf n e same few =
      rw e (either-Leaves (leb 1 n && valid_address (byte_at buf 0)) _ _ _)

  queried_failed : (e : Err) (m : Master W) → e ≢ ok → Leaves (queried (e, m)) m
  unfolding queried
  queried_failed ok m ne = absurd (ne refl)
  queried_failed _ m ne = refl

  pub query_address-Safe :
      (m : Master W) → Guarded P C m → C (b'?' ∷ b'!' ∷ []) → Safe P C m (query_address m)
  unfolding query_address
  query_address-Safe m g c =
      asks-Safe m _ queried g queried-Trims queried_failed (transact-Outcome P C _ _ m g c)

  identified-Trims : (m : Master W) → Trims m (identified (ok, m))
  unfolding identified
  identified-Trims m buf n e same few = rw e (either-Leaves (ltb n 20) _ _ _)

  identified_failed : (e : Err) (m : Master W) → e ≢ ok → Leaves (identified (e, m)) m
  unfolding identified
  identified_failed ok m ne = absurd (ne refl)
  identified_failed _ m ne = refl

  pub identify-Safe :
      (addr : ℕ) (m : Master W)
      → Guarded P C m
      → C (addr ∷ b'I' ∷ b'!' ∷ [])
      → Safe P C m (identify addr m)
  unfolding identify
  identify-Safe addr m g c = unless-Safe (not (valid_address addr)) _ m _ g (
      asks-Safe m _ identified g identified-Trims identified_failed
        (transact-Outcome P C _ _ m g c))
