-- ===== src/Master/RoundTrip.antt =====
-- sdi12_master.c reads what sdi12_sensor.c announces after a measurement command.
use libsdi.Base.{
  ℕ, suc, ◌+◌, ◌*◌, ◌/◌, ◌%◌, ◌^◌, ◌≤◌, ◌<◌, ◌≡◌, ◌≢◌, refl, ap, ◌∙◌, List, [], ◌∷◌, ◌++◌, some,
  arith, length, ltb, ◌==◌, min, if◌then◌else◌, true, false,
}
use libsdi.Base.Text.{is_digit, decimal, zero_pad, decimal_one, zero_pad_two, zero_pad_three}
use libsdi.Crc.{crlf}
use libsdi.Protocol.{
  ok, MeasType, standard, concurrent, highvol_ascii, highvol_binary, verification, continuous,
  max_params,
}
use libsdi.Sensor.Measure.{count_text}
use libsdi.Master.Parse.{
  digits_loop, parse_digits, count_width, parse_meas_response, read_announcement,
}
use libsdi.Master.Trim.{trim_crlf_line}

parse_three :
    (x y z : ℕ) (rest : List ℕ)
    → x < 10
    → y < 10
    → z < 10
    → parse_digits 3 ((b'0' + x) ∷ (b'0' + y) ∷ (b'0' + z) ∷ rest) ≡ (3, x * 100 + y * 10 + z)
unfolding parse_digits digits_loop is_digit
parse_three x y z rest hx hy hz = ground arith

parse_two :
    (x y : ℕ) (rest : List ℕ)
    → x < 10
    → y < 10
    → parse_digits 2 ((b'0' + x) ∷ (b'0' + y) ∷ rest) ≡ (2, x * 10 + y)
unfolding parse_digits digits_loop is_digit
parse_two x y rest hx hy = ground arith

parse_one : (x : ℕ) (rest : List ℕ) → x < 10 → parse_digits 1 ((b'0' + x) ∷ rest) ≡ (1, x)
unfolding parse_digits digits_loop is_digit
parse_one x rest hx = ground arith

-- The count that the announcement of `n` values carries: one digit holds at most 9.
abbrev pub announced : MeasType → ℕ → ℕ
announced standard n = min n 9
announced verification n = min n 9
announced type n = n

parse_stage :
    (a x y z : ℕ) (tail : List ℕ) (len m : ℕ) (type : MeasType)
    → x < 10
    → y < 10
    → z < 10
    → 5 ≤ len
    → m < 1000
    → parse_digits (count_width type) tail ≡ (count_width type, m)
    → parse_meas_response (a ∷ (b'0' + x) ∷ (b'0' + y) ∷ (b'0' + z) ∷ tail) len type ≡ (
      ok,
      record { address = a; wait_seconds = x * 100 + y * 10 + z; value_count = m; type = standard },
    )
unfolding parse_meas_response
parse_stage a x y z tail len m type hx hy hz long small count =
    let head = parse_three x y z tail hx hy hz in
    let enough : ltb len 5 ≡ false = ground arith in
    let itself : (count_width type == count_width type) ≡ true = ground arith in
    let time : (x * 100 + y * 10 + z) % 2 ^ 16 ≡ x * 100 + y * 10 + z = omega arith in
    let number : m % 2 ^ 16 ≡ m = omega arith in rw (head, count, enough, itself, time, number) refl

-- A line with its time, and with digits of the count that parse.
read_shown :
    (a t m : ℕ) (type : MeasType) (front : List ℕ) (last : ℕ) (rest : List ℕ)
    → t < 1000
    → m < 1000
    → last ≢ 0x0D
    → last ≢ 0x0A
    → parse_digits (count_width type) (front ++ last ∷ 0 ∷ 0 ∷ rest) ≡ (count_width type, m)
    → read_announcement
        (a ∷ (zero_pad 3 t ++ (front ++ last ∷ 0x0D ∷ 0x0A ∷ rest)))
        (suc (suc (suc (suc (suc (suc (suc (length front))))))))
        type
      ≡ some (ok, record { address = a; wait_seconds = t; value_count = m; type = standard })
unfolding read_announcement
read_shown a t m type front last rest ht hm cr lf count =
    let x = t / 100 in
    let y = t / 10 % 10 in
    let z = t % 10 in
    let whole : x * 100 + y * 10 + z ≡ t = omega arith in
    let trimmed =
      trim_crlf_line (a ∷ (b'0' + x) ∷ (b'0' + y) ∷ (b'0' + z) ∷ front) rest last
        (suc (suc (suc (suc (length front))))) refl cr lf in
    let parsed =
      parse_stage a x y z (front ++ last ∷ 0 ∷ 0 ∷ rest)
        (suc (suc (suc (suc (suc (length front)))))) m type (omega arith) (omega arith)
        (omega arith) (omega arith) hm count in
    rw (zero_pad_three t ht, trimmed, parsed, whole) refl

read_one :
    (a t m : ℕ) (type : MeasType) (rest : List ℕ)
    → t < 1000
    → m < 10
    → count_width type ≡ 1
    → let line = a ∷ (zero_pad 3 t ++ (decimal m ++ crlf)) in
      read_announcement (line ++ 0 ∷ rest) (length line) type
      ≡ some (ok, record { address = a; wait_seconds = t; value_count = m; type = standard })
read_one a t m type rest ht hm width =
    rw (decimal_one m hm, zero_pad_three t ht)
      (rw (zero_pad_three t ht) at (
        read_shown a t m type [] (b'0' + m) (0 ∷ rest) ht (omega arith) (omega arith) (omega arith)
          (rw width (parse_one m (0 ∷ 0 ∷ 0 ∷ rest) hm))))

read_two :
    (a t m : ℕ) (type : MeasType) (rest : List ℕ)
    → t < 1000
    → m < 100
    → count_width type ≡ 2
    → let line = a ∷ (zero_pad 3 t ++ (zero_pad 2 m ++ crlf)) in
      read_announcement (line ++ 0 ∷ rest) (length line) type
      ≡ some (ok, record { address = a; wait_seconds = t; value_count = m; type = standard })
read_two a t m type rest ht hm width =
    let whole : m / 10 * 10 + m % 10 ≡ m = omega arith in
    let first : m / 10 < 10 = omega arith in
    let last : m % 10 < 10 = omega arith in
    let count : parse_digits 2 ((b'0' + m / 10) ∷ (b'0' + m % 10) ∷ 0 ∷ 0 ∷ 0 ∷ rest) ≡ (2, m) =
      parse_two (m / 10) (m % 10) (0 ∷ 0 ∷ 0 ∷ rest) first last ∙ ap (λ (k : ℕ). (2, k)) whole in
    rw (zero_pad_two m hm, zero_pad_three t ht)
      (rw (zero_pad_three t ht) at (
        read_shown a t m type ((b'0' + m / 10) ∷ []) (b'0' + m % 10) (0 ∷ rest) ht (omega arith)
          (omega arith) (omega arith) (rw width count)))

read_three :
    (a t m : ℕ) (type : MeasType) (rest : List ℕ)
    → t < 1000
    → m < 1000
    → count_width type ≡ 3
    → let line = a ∷ (zero_pad 3 t ++ (zero_pad 3 m ++ crlf)) in
      read_announcement (line ++ 0 ∷ rest) (length line) type
      ≡ some (ok, record { address = a; wait_seconds = t; value_count = m; type = standard })
read_three a t m type rest ht hm width =
    let whole : m / 100 * 100 + m / 10 % 10 * 10 + m % 10 ≡ m = omega arith in
    let first : m / 100 < 10 = omega arith in
    let middle : m / 10 % 10 < 10 = omega arith in
    let last : m % 10 < 10 = omega arith in
    let count : parse_digits 3
          ((b'0' + m / 100) ∷ (b'0' + m / 10 % 10) ∷ (b'0' + m % 10) ∷ 0 ∷ 0 ∷ 0 ∷ rest)
        ≡ (3, m) =
      parse_three (m / 100) (m / 10 % 10) (m % 10) (0 ∷ 0 ∷ 0 ∷ rest) first middle last
      ∙ ap (λ (k : ℕ). (3, k)) whole in
    rw (zero_pad_three m hm, zero_pad_three t ht)
      (rw (zero_pad_three t ht) at (
        read_shown a t m type ((b'0' + m / 100) ∷ (b'0' + m / 10 % 10) ∷ []) (b'0' + m % 10)
          (0 ∷ rest) ht hm (omega arith) (omega arith) (rw width count)))

cut_nine : (n : ℕ) → (if ltb 9 n then 9 else n) ≡ min n 9
cut_nine n = ground arith

-- The data recorder reads back what the sensor announces: an answer with the address, a time of at
-- most 999 seconds and a count of at most 20 values, in the form of any measurement command, is
-- trimmed and parsed without an error to that address, that time and that count (for a standard
-- measurement or a verification at most 9).
pub read_announcement_lem :
    (a t n : ℕ) (type : MeasType) (rest : List ℕ)
    → t < 1000
    → n ≤ max_params
    → type ≢ continuous
    → let line = a ∷ (zero_pad 3 t ++ (count_text type n ++ crlf)) in
      read_announcement (line ++ 0 ∷ rest) (length line) type
      ≡ some (
        ok,
        record { address = a; wait_seconds = t; value_count = announced type n; type = standard },
      )
unfolding count_text count_width
read_announcement_lem a t n standard rest ht hn h =
    rw (cut_nine n) (read_one a t (min n 9) standard rest ht (omega arith) refl)
read_announcement_lem a t n verification rest ht hn h =
    rw (cut_nine n) (read_one a t (min n 9) verification rest ht (omega arith) refl)
read_announcement_lem a t n concurrent rest ht hn h =
    let same : (if ltb 99 n then 99 else n) ≡ n = ground arith in
    rw same (read_two a t n concurrent rest ht (omega arith) refl)
read_announcement_lem a t n highvol_ascii rest ht hn h =
    read_three a t n highvol_ascii rest ht (omega arith) refl
read_announcement_lem a t n highvol_binary rest ht hn h =
    read_three a t n highvol_binary rest ht (omega arith) refl
read_announcement_lem a t n continuous rest ht hn h = absurd (h refl)
