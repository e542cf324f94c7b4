-- ===== src/Master/Safe/Collect.antt =====
-- sdi12_master.c: the extended and the high-volume ASCII responses, on any answer.
use libsdi.Base.{
  ℕ, zero, suc, ◌+◌, ◌-◌, ◌%◌, ◌^◌, ◌≤◌, ◌<◌, ◌≡◌, ◌≢◌, refl, false, not, List, [], ◌∷◌, ◌++◌,
  Option, none, some, arith, length, length-take, ltb, ltb→lt, min, if◌then◌else◌, ◌>>=◌,
  Bool-cases, inl, inr, drop, take,
}
use libsdi.Base.Buffer.{overwrite, length-overwrite, store_fits}
use libsdi.Base.Text.{decimal}
use libsdi.Protocol.{Err, ok, valid_address}
use libsdi.Master.Bus.{Master, send_command, after_send, transact}
use libsdi.Master.Commands.{cut_to}
use libsdi.Master.Extended.{
  multiline_gap_ms, extended_command, Received, copied, extended, add_line, line_received,
  line_round, line_loop, collect_lines, extended_multiline, raw_copied, get_hv_data,
}
use libsdi.Master.Safe.{
  Guarded, Safe, answered, failed, Stays-refl, Stays-trans, recv_response-Outcome, transact-Outcome,
  after-Safe,
}
use libsdi.Master.Safe.Replies.{Leaves, Trims, returned, asks-Safe, unless-Safe}

module _ {W : Type 0} (P : W → Type 0) (C : List ℕ → Type 0) where
  -- The copy into the caller's array of `room` bytes at least.
  copied-Leaves :
      (out : List ℕ) (room : ℕ) (m : Master W)
      → room ≤ length out
      → Leaves P C (copied out room (ok, m)) m
  unfolding copied
  copied-Leaves out room m fits =
      let len = min m.resp_len room in
      rw (store_fits out 0 (take len m.resp_buf) (omega (arith, length-take len m.resp_buf))) refl

  copied_failed :
      (out : List ℕ) (room : ℕ) (e : Err) (m : Master W)
      → e ≢ ok
      → Leaves P C (copied out room (e, m)) m
  unfolding copied
  copied_failed out room ok m ne = absurd (ne refl)
  copied_failed out room _ m ne = refl

  pub extended-Safe :
      (addr : ℕ) (xcmd out : List ℕ) (room timeout : ℕ) (m : Master W)
      → Guarded P C m
      → room ≤ length out
      → C (extended_command addr xcmd)
      → Safe P C m (extended addr xcmd out room timeout m)
  unfolding extended
  extended-Safe addr xcmd out room timeout m g fits c =
      unless-Safe P C (not (valid_address addr)) _ m _ g (
        after-Safe P C m _ (copied out room) (transact-Outcome P C _ _ m g c)
          (λ m' g' low high.
            let (r, done) = returned P C _ m' (copied-Leaves out room m' fits) in
            (r, m', done, Stays-refl P C m' g'))
          (λ e m' ne. returned P C _ m' (copied_failed out room e m' ne)))

  raw_copied-Trims :
      (out : List ℕ) (room : ℕ) (m : Master W)
      → room ≤ length out
      → Trims P C m (raw_copied out room (ok, m))
  unfolding raw_copied
  raw_copied-Trims out room m fits buf n e same few = elim (Bool-cases (ltb n 1)) [
    | inl short ↦ rw (e, short) refl
    | inr long ↦
        let len = min (n - 1) room in
        rw
          (
            e,
            long,
            store_fits out 0 (take len (drop 1 buf)) (omega (arith, length-take len (drop 1 buf))),
          )
          refl
  ]

  raw_copied_failed :
      (out : List ℕ) (room : ℕ) (e : Err) (m : Master W)
      → e ≢ ok
      → Leaves P C (raw_copied out room (e, m)) m
  unfolding raw_copied
  raw_copied_failed out room ok m ne = absurd (ne refl)
  raw_copied_failed out room _ m ne = refl

  pub get_hv_data-Safe :
      (addr page : ℕ) (out : List ℕ) (room : ℕ) (m : Master W)
      → Guarded P C m
      → room ≤ length out
      → C (cut_to 12 (addr ∷ b'D' ∷ (decimal page ++ b'!' ∷ [])))
      → Safe P C m (get_hv_data addr page out room m)
  unfolding get_hv_data
  get_hv_data-Safe addr page out room m g fits c =
      unless-Safe P C (not (valid_address addr)) _ m _ g (
        asks-Safe P C m _ (raw_copied out room) g (λ m'. raw_copied-Trims out room m' fits)
          (raw_copied_failed out room) (transact-Outcome P C _ _ m g c))

  -- What has been collected lies in the first `size` bytes of an array that has them.
  record Fits (size : ℕ) (r : Received) : Type 0 where
    within : r.total ≤ size
    room : size ≤ length r.out

  add_line-Fits :
      (size : ℕ) (r : Received) (m : Master W)
      → Fits size r
      → (r' : Received) × (add_line size r m ≡ some r')
        × Fits size r'
        × (min size (r.total + m.resp_len) ≤ r'.total)
  unfolding add_line
  add_line-Fits size r m f =
      let copy = if ltb size (r.total + m.resp_len) then size - r.total else m.resp_len in
      let fits : r.total + copy ≤ size = ground (arith, f.within) in
      let all : min size (r.total + m.resp_len) ≤ r.total + copy = ground (arith, f.within) in
      let inside : r.total + length (take copy m.resp_buf) ≤ length r.out =
        omega (arith, length-take copy m.resp_buf, fits, f.room) in
      (
        record {
          out = overwrite r.out r.total (take copy m.resp_buf);
          total = r.total + copy;
          lines = (r.lines + 1) % 2 ^ 8;
        },
        rw (store_fits r.out r.total (take copy m.resp_buf) inside) refl,
        record {
          within = fits;
          room =
              omega (arith, length-overwrite r.out r.total (take copy m.resp_buf) inside, f.room);
        },
        all,
      )

  line_received_failed :
      (size : ℕ) (r : Received) (e : Err) (m : Master W)
      → e ≢ ok
      → line_received size r (e, m) ≡ some (false, (r, m))
  unfolding line_received
  line_received_failed size r ok m ne = absurd (ne refl)
  line_received_failed size r _ m ne = refl

  line_loop-Safe :
      (fuel size : ℕ) (r : Received) (m : Master W)
      → Guarded P C m
      → Fits size r
      → size - r.total < fuel
      → Safe P C m (line_loop fuel size r m)
  unfolding line_loop line_round line_received
  line_loop-Safe zero size r m g f enough = absurd (omega arith)
  line_loop-Safe (suc fuel) size r m g f enough = elim (Bool-cases (ltb r.total size)) [
    | inr full ↦ (r, m, rw full refl, Stays-refl P C m g)
    | inl open_ ↦ elim (recv_response-Outcome P C multiline_gap_ms m g) [
      | failed e m₁ ne heard s ↦
          (r, m₁, rw (open_, heard, line_received_failed size r e m₁ ne) refl, s)
      | answered m₁ heard s low high ↦
          let (r', added, f', more) = add_line-Fits size r m₁ f in
          let (r'', m₂, done, t) =
            line_loop-Safe fuel size r' m₁ s.guarded f'
              (omega (arith, more, low, ltb→lt _ _ open_)) in
          (r'', m₂, rw (open_, heard, added) done, Stays-trans P C m m₁ m₂ s t)
    ]
  ]

  bind_assoc :
      {A B D : Type 0} (x : Option A) (f : A → Option B) (k : B → Option D)
      → (x >>= f >>= k) ≡ (x >>= λ a. f a >>= k)
  bind_assoc none f k = refl
  bind_assoc (some a) f k = refl

  collect_lines-Safe :
      (out : List ℕ) (size : ℕ) (m : Master W)
      → Guarded P C m
      → size ≤ length out
      → Safe P C m (collect_lines out size (ok, m))
  unfolding collect_lines
  collect_lines-Safe out size m g fits =
      let start : Received = record { out = out; total = 0; lines = 0 } in
      let empty : Fits size start = record { within = omega arith; room = fits } in
      let (first, added, f, more) = add_line-Fits size start m empty in
      elim (Bool-cases (ltb 0 m.resp_len)) [
        | inl some_bytes ↦
            let (r, m', done, s) = line_loop-Safe (suc size) size first m g f (omega arith) in
            ((ok, some r), m', rw (added, some_bytes, done) refl, s)
        | inr nothing ↦
            let (r, m', done, s) = line_loop-Safe (suc size) size start m g empty (omega arith) in
            ((ok, some r), m', rw (added, nothing, done) refl, s)
      ]

  collect_lines_failed :
      (out : List ℕ) (size : ℕ) (e : Err) (m : Master W)
      → e ≢ ok
      → Leaves P C (collect_lines out size (e, m)) m
  unfolding collect_lines
  collect_lines_failed out size ok m ne = absurd (ne refl)
  collect_lines_failed out size _ m ne = refl

  pub extended_multiline-Safe :
      (addr : ℕ) (xcmd out : List ℕ) (size timeout : ℕ) (m : Master W)
      → Guarded P C m
      → size ≤ length out
      → C (extended_command addr xcmd)
      → Safe P C m (extended_multiline addr xcmd out size timeout m)
  unfolding extended_multiline transact
  extended_multiline-Safe addr xcmd out size timeout m g fits c =
      let cmd = extended_command addr xcmd in
      let safe =
        after-Safe P C m _ (collect_lines out size) (transact-Outcome P C cmd timeout m g c)
          (λ m' g' low high. collect_lines-Safe out size m' g' fits)
          (λ e m' ne. returned P C _ m' (collect_lines_failed out size e m' ne)) in
      unless-Safe P C (not (valid_address addr)) _ m _ g
        (rw (bind_assoc (send_command cmd m) (after_send timeout) (collect_lines out size)) at safe)
