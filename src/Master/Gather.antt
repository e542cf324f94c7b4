-- ===== src/Master/Gather.antt =====
-- sdi12_master.c: sdi12_master_extended_multiline ends, and collects the lines that arrive.
use libsdi.Base.{
  ℕ, zero, suc, ◌+◌, ◌-◌, ◌%◌, ◌^◌, ◌≤◌, ◌<◌, ◌≡◌, refl, sym, ap, ◌∙◌, inl, inr, true, false, List,
  [], ◌∷◌, ◌++◌, append_assoc, append-nil, some, arith, length, length-append, length-take, take,
  concat, min, ltb, Bool-cases, ltb→lt,
}
use libsdi.Protocol.{ok, err_timeout}
use libsdi.Master.Bus.{Master, recv_response}
use libsdi.Master.Transact.{IsMaster}
use libsdi.Master.Lines.{heard, add_line_lem}
use libsdi.Master.Extended.{
  multiline_gap_ms, Received, add_line, line_received, line_round, line_loop,
}

-- The lines that a receiver delivers from a world on, and the world after them, to a caller who has
-- kept some of `size` bytes: until nothing arrives within the gap, or there is no room.
pub data Gathers {W : Type 0} (recv : ℕ → ℕ → W → List ℕ × W) (size : ℕ)
    : ℕ → W → List (List ℕ) → W → Type 0 where
  full : {kept : ℕ} {w : W} → size ≤ kept → Gathers recv size kept w [] w
  quiet :
      {kept : ℕ} {w : W}
      → kept < size
      → (recv 85 multiline_gap_ms w).0 ≡ []
      → Gathers recv size kept w [] (recv 85 multiline_gap_ms w).1
  arrives :
      {kept : ℕ} {w w' : W} {lines : List (List ℕ)}
      → kept < size
      → 1 ≤ length (recv 85 multiline_gap_ms w).0
      → Gathers recv size
          (min size (kept + length (recv 85 multiline_gap_ms w).0))
          (recv 85 multiline_gap_ms w).1
          lines
          w'
      → Gathers recv size kept w ((recv 85 multiline_gap_ms w).0 ∷ lines) w'

-- A text cut in between.
take_twice : (n : ℕ) (xs ys : List ℕ) → take n (take n xs ++ ys) ≡ take n (xs ++ ys)
take_twice zero xs ys = refl
take_twice (suc n) [] ys = refl
take_twice (suc n) (x ∷ xs) ys = ap (◌∷◌ x) (take_twice n xs ys)

-- The array, the count of bytes and the count of lines once a text has been collected.
abbrev pub collected : ℕ → List ℕ → List ℕ → ℕ → Received
collected size text old k = record {
  out = take size text ++ old;
  total = length (take size text);
  lines = k % 2 ^ 8;
}

-- Without a line nothing changes.
collected_nil :
    (size : ℕ) (text old : List ℕ) (k : ℕ)
    → collected size (text ++ []) old (k + 0) ≡ collected size text old k
collected_nil size text old k =
    let same : k + 0 ≡ k = omega arith in rw (append-nil text, same) refl

length-collected :
    (size : ℕ) (text bytes : List ℕ)
    → length (take size (text ++ bytes)) ≡ min size (length (take size text) + length bytes)
length-collected size text bytes =
    omega (arith, length-take size (text ++ bytes), length-take size text, length-append text bytes)

module _ {W : Type 0} where
  abbrev Collects : ℕ → ℕ → List ℕ → List ℕ → ℕ → Master W → Type 0
  Collects fuel size text old k m =
      (lines : List (List ℕ)) × (old' : List ℕ) × (m' : Master W) × Gathers m.recv size
        (length (take size text)) m.world lines m'.world
      × (line_loop fuel size (collected size text old k) m
          ≡ some (collected size (text ++ concat lines) old' (k + length lines), m'))
      × (length (take size (text ++ concat lines) ++ old') ≡ length (take size text ++ old))
      × IsMaster m'

  ends_full :
      (fuel size : ℕ) (text old : List ℕ) (k : ℕ) (m : Master W)
      → IsMaster m
      → ltb (length (take size text)) size ≡ false
      → Collects (suc fuel) size text old k m
  unfolding line_loop line_round
  ends_full fuel size text old k m v e = (
    [],
    old,
    m,
    full (ground arith),
    rw (collected_nil size text old k, e) refl,
    rw (append-nil text) refl,
    v,
  )

  ends_quiet :
      (fuel size : ℕ) (text old : List ℕ) (k : ℕ) (m : Master W) (buf : List ℕ)
      → IsMaster m
      → ltb (length (take size text)) size ≡ true
      → (m.recv 85 multiline_gap_ms m.world).0 ≡ []
      → length buf ≡ 86
      → recv_response multiline_gap_ms m
        ≡ some (
          err_timeout,
          record m { resp_buf = buf; resp_len = 0; world = (m.recv 85 multiline_gap_ms m.world).1 },
        )
      → Collects (suc fuel) size text old k m
  unfolding line_loop line_round line_received
  ends_quiet fuel size text old k m buf v e silent size₁ received = (
    [],
    old,
    record m { resp_buf = buf; resp_len = 0; world = (m.recv 85 multiline_gap_ms m.world).1 },
    quiet (ground arith) silent,
    rw (collected_nil size text old k, e, received) refl,
    rw (append-nil text) refl,
    record { commands = v.commands; responses = size₁; within = v.within },
  )

  -- A line behind the text that has been collected.
  pub collected_line :
      (size : ℕ) (text old bytes rest : List ℕ) (k : ℕ) (m : Master W)
      → size ≤ length (take size text ++ old)
      → m.resp_buf ≡ bytes ++ rest
      → m.resp_len ≡ length bytes
      → (old' : List ℕ) × (length (take size (text ++ bytes) ++ old')
          ≡ length (take size text ++ old))
        × (add_line size (collected size text old k) m
            ≡ some (collected size (text ++ bytes) old' (k + 1)))
  collected_line size text old bytes rest k m room e n =
      let fits : length (take size text) ≤ size = omega (arith, length-take size text) in
      rw (← take_twice size text bytes)
        (add_line_lem size (take size text) old bytes rest k m fits room e n)

  -- A line that arrives, and what is collected behind it.
  goes_on :
      (fuel size : ℕ) (text old old₁ rest : List ℕ) (k : ℕ) (m : Master W)
      → let got = m.recv 85 multiline_gap_ms m.world in
        let m₁ = record m { resp_buf = got.0 ++ rest; resp_len = length got.0; world = got.1 } in
        ltb (length (take size text)) size ≡ true
        → 1 ≤ length got.0
        → recv_response multiline_gap_ms m ≡ some (ok, m₁)
        → add_line size (collected size text old k) m₁
          ≡ some (collected size (text ++ got.0) old₁ (k + 1))
        → length (take size (text ++ got.0) ++ old₁) ≡ length (take size text ++ old)
        → Collects fuel size (text ++ got.0) old₁ (k + 1) m₁
        → Collects (suc fuel) size text old k m
  unfolding line_loop line_round line_received
  goes_on fuel size text old old₁ rest k m e some_bytes received added length₁
        (lines, old', m', gathers, done, same, v) =
      let got = m.recv 85 multiline_gap_ms m.world in
      let step = rw (length-collected size text got.0) at gathers in
      let joined = append_assoc text got.0 (concat lines) in
      let count : k + suc (length lines) ≡ k + 1 + length lines = omega arith in
      (
        got.0 ∷ lines,
        old',
        m',
        arrives (ltb→lt _ _ e) some_bytes step,
        rw (e, received, added, done, joined, count) refl,
        ap (λ (t : List ℕ). length (take size t ++ old')) (sym joined) ∙ same ∙ length₁,
        v,
      )

  pub line_loop_lem :
      (fuel size : ℕ) (text old : List ℕ) (k : ℕ) (m : Master W)
      → IsMaster m
      → size ≤ length (take size text ++ old)
      → size - length (take size text) < fuel
      → Collects fuel size text old k m
  line_loop_lem zero size text old k m v room enough = absurd (omega arith)
  line_loop_lem (suc fuel) size text old k m v room enough =
      let got = m.recv 85 multiline_gap_ms m.world in
      elim (Bool-cases (ltb (length (take size text)) size)) [
        | inr e ↦ ends_full fuel size text old k m v e
        | inl e ↦ elim (heard multiline_gap_ms m v) [
          | inl (silent, (buf, size₁, received)) ↦
              ends_quiet fuel size text old k m buf v e silent size₁ received
          | inr (some_bytes, (rest, size₁, received)) ↦
              let m₁ = record m {
                resp_buf = got.0 ++ rest;
                resp_len = length got.0;
                world = got.1;
              } in
              let v₁ : IsMaster m₁ = record {
                commands = v.commands;
                responses = size₁;
                within = v.within;
              } in
              let (old₁, length₁, added) =
                collected_line size text old got.0 rest k m₁ room refl refl in
              let below = ltb→lt _ _ e in
              let less : size - length (take size (text ++ got.0)) < fuel =
                omega (arith, below, enough, some_bytes, length-collected size text got.0) in
              goes_on fuel size text old old₁ rest k m e some_bytes received added length₁ (
                line_loop_lem fuel size (text ++ got.0) old₁ (k + 1) m₁ v₁
                  (omega (arith, room, length₁)) less)
        ]
      ]
