-- ===== src/Master/Stream.antt =====
-- sdi12_master.c: recv_exact over a bus that delivers bytes in portions of any size.
use libsdi.Base.{
  ℕ, zero, suc, ◌+◌, ◌-◌, ◌≤◌, ◌≡◌, refl, sym, ap, ◌∙◌, true, false, List, [], ◌∷◌, ◌++◌,
  append_assoc, some, arith, length, length-append, length-drop, drop, drop_past, ltb, ◌==◌,
}
use libsdi.Base.Buffer.{splice, overwrite, store_fits}
use libsdi.Protocol.{ok}
use libsdi.Master.Bus.{Master, response_timeout_ms}
use libsdi.Master.Binary.{recv_exact}

-- A receiver over the bytes that are to come in each world: it hands them out in their order, no
-- more than there is room for, and at least one if there is room and one is to come.
pub record IsStream {W : Type 0} (recv : ℕ → ℕ → W → List ℕ × W) (pending : W → List ℕ)
    : Type 0 where
  pub in_order :
      (room timeout : ℕ) (w : W)
      → (recv room timeout w).0 ++ pending (recv room timeout w).1 ≡ pending w
  pub within : (room timeout : ℕ) (w : W) → length (recv room timeout w).0 ≤ room
  pub delivers :
      (room timeout : ℕ) (w : W)
      → 1 ≤ room
      → 1 ≤ length (pending w)
      → 1 ≤ length (recv room timeout w).0

-- Two ways to cut a list: the shorter front is a part of the longer.
cut_front :
    (xs ys zs ws : List ℕ)
    → xs ++ ys ≡ zs ++ ws
    → length xs ≤ length zs
    → (mid : List ℕ) × (zs ≡ xs ++ mid) × (ys ≡ mid ++ ws)
cut_front [] ys zs ws e h = (zs, refl, e)
cut_front (x ∷ xs) ys [] ws e h = absurd (omega arith)
cut_front (x ∷ xs) ys (z ∷ zs) ws e h =
    let head : x ≡ z = cc in
    let tail : xs ++ ys ≡ zs ++ ws = cc in
    let (mid, same, rest) = cut_front xs ys zs ws tail (omega arith) in
    (mid, rw (head, same) refl, rest)

drop_nil : (k : ℕ) → drop {A = ℕ} k [] ≡ []
drop_nil zero = refl
drop_nil (suc k) = refl

drop-drop : (n k : ℕ) (xs : List ℕ) → drop k (drop n xs) ≡ drop (n + k) xs
drop-drop zero k xs = ap (λ (i : ℕ). drop i xs) (omega arith)
drop-drop (suc n) k [] = rw (drop_nil k, drop_nil (suc n + k)) refl
drop-drop (suc n) k (x ∷ xs) =
    let one_more : suc (n + k) ≡ suc n + k = omega arith in
    drop-drop n k xs ∙ ap (λ (i : ℕ). drop i (x ∷ xs)) one_more

-- The array when a portion has been written, and when the other portions have.
portion_written :
    (front bytes old : List ℕ)
    → overwrite (front ++ old) (length front) bytes ≡ (front ++ bytes) ++ drop (length bytes) old
portion_written front bytes old =
    splice front old bytes (front ++ old) (length front) refl refl
    ∙ ap (λ (t : List ℕ). front ++ (bytes ++ t))
        (drop_past (length front + length bytes) front old (length bytes) refl)
    ∙ sym (append_assoc front bytes (drop (length bytes) old))

portions_joined :
    (front bytes mid need old : List ℕ)
    → need ≡ bytes ++ mid
    → (front ++ bytes) ++ (mid ++ drop (length mid) (drop (length bytes) old))
      ≡ front ++ (need ++ drop (length need) old)
portions_joined front bytes mid need old e =
    rw (e, length-append bytes mid, drop-drop (length bytes) (length mid) old)
      (append_assoc front bytes _
        ∙ ap (λ (t : List ℕ). front ++ t) (sym (append_assoc bytes mid _)))

module _ {W : Type 0} (pending : W → List ℕ) where
  -- When at least as many bytes are to come as are asked for, recv_exact ends with SDI12_OK: it has
  -- put exactly those bytes into the array, in their order, however they are portioned, and leaves
  -- the bytes behind them to come.
  pub recv_exact_lem :
      (fuel : ℕ) (front old need more : List ℕ) (count : ℕ) (m : Master W)
      → IsStream m.recv pending
      → pending m.world ≡ need ++ more
      → length front + length need ≡ count
      → length need ≤ length old
      → length need ≤ fuel
      → (w : W) × (pending w ≡ more)
        × (recv_exact fuel (front ++ old) count (length front) m
            ≡ some (ok, (front ++ (need ++ drop (length need) old), record m { world = w })))
  unfolding recv_exact
  recv_exact_lem zero front old [] more count m s e c h f =
      let done : ltb (length front) count ≡ false = ground arith in (m.world, e, rw done refl)
  recv_exact_lem zero front old (b ∷ need) more count m s e c h f = absurd (omega arith)
  recv_exact_lem (suc fuel) front old [] more count m s e c h f =
      let done : ltb (length front) count ≡ false = ground arith in (m.world, e, rw done refl)
  recv_exact_lem (suc fuel) front old (b ∷ need) more count m s e c h f =
      let room = count - length front in
      let asked : room ≡ suc (length need) = omega (arith, c) in
      let called = m.recv room response_timeout_ms m.world in
      let few : length called.0 ≤ suc (length need) =
        omega (arith, s.within room response_timeout_ms m.world, asked) in
      let (mid, shape, rest) =
        cut_front called.0 (pending called.1) (b ∷ need) more
          (s.in_order room response_timeout_ms m.world ∙ e) few in
      let one : 1 ≤ length called.0 =
        s.delivers room response_timeout_ms m.world (omega (arith, asked)) (rw e (omega arith)) in
      let size : suc (length need) ≡ length called.0 + length mid =
        ap length shape ∙ length-append called.0 mid in
      let old' = drop (length called.0) old in
      let (w, left, done) =
        recv_exact_lem fuel (front ++ called.0) old' mid more count (record m { world = called.1 })
          s rest (omega (arith, c, size, length-append front called.0))
          (omega (arith, h, size, length-drop (length called.0) old))
          (omega (arith, f, size, one)) in
      let going : ltb (length front) count ≡ true = ground (arith, c) in
      let got : (length called.0 == 0) ≡ false = ground (arith, one) in
      let put =
        store_fits (front ++ old) (length front) called.0
          (omega (arith, length-append front old, h, few)) in
      (
        w,
        left,
        rw
            (
              going,
              got,
              put,
              portion_written front called.0 old,
              ← length-append front called.0,
              done,
              portions_joined front called.0 mid (b ∷ need) old shape,
            )
            refl,
      )
