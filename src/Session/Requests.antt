-- ===== src/Session/Requests.antt =====
-- Requests of pages: the numbers that sdi12_master.c prints are those that sdi12_sensor.c reads.
use native.Mathlib.Decide.{dec_lt}
use libsdi.Base.{
  ℕ, ◌+◌, ◌/◌, ◌%◌, ◌<◌, ◌≡◌, refl, true, List, [], ◌∷◌, ◌++◌, arith, length, ◌==◌, ltb,
  if◌then◌else◌, false,
}
use libsdi.Base.Text.{is_digit, decimal, decimal_one, decimal_two, decimal_three}
use libsdi.Sensor.Types.{Floats, Sensor, Run}
use libsdi.Sensor.Data.{handle_send_data, handle_send_binary_data}
use libsdi.Sensor.Process.{
  page_number, dispatch_data, dispatch, strip_bang, process_command, process,
}
use libsdi.Master.Dispatch.{prepared}

page_number_one : (n : ℕ) → n < 10 → page_number 0 ((b'0' + n) ∷ []) ≡ n
unfolding page_number is_digit
page_number_one n h = ground arith

page_number_two : (n : ℕ) → n < 100 → page_number 0 ((b'0' + n / 10) ∷ (b'0' + n % 10) ∷ []) ≡ n
unfolding page_number is_digit
page_number_two n h = ground arith

page_number_three :
    (n : ℕ)
    → n < 1000
    → page_number 0 ((b'0' + n / 100) ∷ (b'0' + n / 10 % 10) ∷ (b'0' + n % 10) ∷ []) ≡ n
unfolding page_number is_digit
page_number_three n h = ground arith

module _ {F V : Type 0} (fl : Floats F) where
  -- A request of binary data, with the digits of its page, that runs like this.
  abbrev Requests : Sensor F V → List ℕ → List ℕ → Run F V → Type 0
  Requests s digits rest run =
      process fl (s.address ∷ b'D' ∷ b'B' ∷ (digits ++ b'!' ∷ rest)) (4 + length digits) s ≡ run

  -- The same for values.
  abbrev Asks : Sensor F V → List ℕ → List ℕ → Run F V → Type 0
  Asks s digits rest run =
      process fl (s.address ∷ b'D' ∷ (digits ++ b'!' ∷ rest)) (3 + length digits) s ≡ run

  digits_reach :
      (n : ℕ) (s : Sensor F V) (rest : List ℕ)
      → let binary = handle_send_binary_data n (prepared fl s) in
        let values = handle_send_data fl (if ltb 255 n then 255 else n) (prepared fl s) in
        (n < 10 → Requests s ((b'0' + n) ∷ []) rest binary × Asks s ((b'0' + n) ∷ []) rest values)
        × (n < 100
            → Requests s ((b'0' + n / 10) ∷ (b'0' + n % 10) ∷ []) rest binary
              × Asks s ((b'0' + n / 10) ∷ (b'0' + n % 10) ∷ []) rest values)
        × (n < 1000
            → let digits = (b'0' + n / 100) ∷ (b'0' + n / 10 % 10) ∷ (b'0' + n % 10) ∷ [] in
              Requests s digits rest binary × Asks s digits rest values)
  unfolding process process_command dispatch dispatch_data strip_bang
  digits_reach n s rest =
      let same : (s.address == s.address) ≡ true = ground arith in
      (
        λ h.
            let no_b : (b'0' + n == b'B') ≡ false = ground arith in
            (rw (same, page_number_one n h) refl, rw (same, no_b, page_number_one n h) refl),
        λ h.
            let no_b : (b'0' + n / 10 == b'B') ≡ false = ground arith in
            (rw (same, page_number_two n h) refl, rw (same, no_b, page_number_two n h) refl),
        λ h.
            let no_b : (b'0' + n / 100 == b'B') ≡ false = ground arith in
            (rw (same, page_number_three n h) refl, rw (same, no_b, page_number_three n h) refl),
      )

  -- The request of a page below 1000, of values or of binary data, as the data recorder prints it,
  -- reaches its handler with that page; a page of values above 255 is 255.
  pub request_reaches :
      (n : ℕ) (s : Sensor F V) (rest : List ℕ)
      → n < 1000
      → Requests s (decimal n) rest (handle_send_binary_data n (prepared fl s))
        × Asks s
            (decimal n)
            rest
            (handle_send_data fl (if ltb 255 n then 255 else n) (prepared fl s))
  request_reaches n s rest h =
      let (one, two, three) = digits_reach n s rest in
      elim (dec_lt n 10) [
        | yes p ↦ rw (decimal_one n p) (one p)
        | no p ↦ elim (dec_lt n 100) [
          | yes q ↦ rw (decimal_two n (omega arith) q) (two q)
          | no q ↦ rw (decimal_three n (omega arith) h) (three h)
        ]
      ]
