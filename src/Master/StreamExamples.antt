-- ===== src/Master/StreamExamples.antt =====
-- sdi12_master.c on a bus that delivers the bytes that are to come, at most three at a time.
use libsdi.Base.{
  ℕ, ◌+◌, ◌≡◌, refl, true, List, [], ◌∷◌, ◌++◌, some, min, arith, length, length-take, take, drop,
  take-drop, concat, replicate, codes, ◌==◌,
}
use libsdi.Crc.{crc16}
use libsdi.Protocol.{ok, err_crc_mismatch, valid_address}
use libsdi.Sensor.Data.{le16}
use libsdi.Sensor.Packets.{frame, packet}
use libsdi.Master.Bus.{Master}
use libsdi.Master.Transact.{IsMaster}
use libsdi.Master.Extended.{extended_multiline}
use libsdi.Master.Gather.{Gathers, collected}
use libsdi.Master.Multiline.{extended_multiline_lem}
use libsdi.Master.Binary.{BinaryOut, word_of, recv_exact, get_hv_binary_data}
use libsdi.Master.Stream.{IsStream, recv_exact_lem}
use libsdi.Master.Packets.{verdict, get_hv_binary_data_lem}
use libsdi.Master.PacketRoundTrip.{get_hv_binary_data-packet, get_hv_binary_data-damaged}

abbrev three_at_a_time : ℕ → ℕ → List ℕ → List ℕ × List ℕ
three_at_a_time room timeout w = (take (min room 3) w, drop (min room 3) w)

abbrev streaming : List ℕ → Master (List ℕ)
streaming bytes = record {
  send = λ cmd w. w;
  recv = three_at_a_time;
  cmd_buf = replicate 24 0;
  resp_buf = replicate 86 0;
  resp_len = 0;
  world = bytes;
  trace = [];
}

streaming-IsMaster : (bytes : List ℕ) → IsMaster (streaming bytes)
streaming-IsMaster bytes = record {
  commands = refl;
  responses = refl;
  within = λ room timeout w. omega (arith, length-take (min room 3) w);
}

streaming-IsStream : IsStream three_at_a_time (λ w. w)
streaming-IsStream = record {
  in_order = λ room timeout w. take-drop (min room 3) w;
  within = λ room timeout w. omega (arith, length-take (min room 3) w);
  delivers = λ room timeout w h k. omega (arith, h, k, length-take (min room 3) w);
}

zero_valid : valid_address b'0' ≡ true
unfolding valid_address
zero_valid = refl

recv_exact_lem_example :
    (w : List ℕ) × (w ≡ codes "f")
    × (recv_exact 5 (replicate 6 0) 5 0 (streaming (codes "abcdef"))
        ≡ some (ok, (codes "abcde" ++ 0 ∷ [], record (streaming (codes "abcdef")) { world = w })))
recv_exact_lem_example =
    recv_exact_lem (λ w. w) 5 [] (replicate 6 0) (codes "abcde") (codes "f") 5
      (streaming (codes "abcdef")) streaming-IsStream refl refl (omega arith) (omega arith)

abbrev out : BinaryOut
out = record { out_type = 0; out_payload = replicate 4 0; out_len = 4 }

abbrev sent_packet : List ℕ
sent_packet = packet b'0' 2 (7 ∷ 9 ∷ []) ++ []

two : word_of 2 0 ≡ 2
unfolding word_of
two = refl

get_hv_binary_data_lem_example :
    let right = crc16 (b'0' ∷ 2 ∷ 0 ∷ 2 ∷ 7 ∷ 9 ∷ []) 6 == word_of 1 1 in
    (m' : Master (List ℕ)) × (m'.world ≡ codes "x")
    × (get_hv_binary_data b'0' 3 out (streaming (b'0' ∷ 2 ∷ 0 ∷ 2 ∷ 7 ∷ 9 ∷ 1 ∷ 1 ∷ codes "x"))
        ≡ some (verdict right 2 (7 ∷ 9 ∷ []) out, m'))
get_hv_binary_data_lem_example =
    get_hv_binary_data_lem (λ w. w) b'0' 3 2 0 2 1 1 (7 ∷ 9 ∷ []) (codes "x") out
      (streaming (b'0' ∷ 2 ∷ 0 ∷ 2 ∷ 7 ∷ 9 ∷ 1 ∷ 1 ∷ codes "x")) zero_valid (omega arith)
      (streaming-IsMaster (b'0' ∷ 2 ∷ 0 ∷ 2 ∷ 7 ∷ 9 ∷ 1 ∷ 1 ∷ codes "x")) streaming-IsStream refl
      two (omega arith) (omega arith) (omega arith)

get_hv_binary_data-packet_example :
    (m' : Master (List ℕ)) × (m'.world ≡ [])
    × (get_hv_binary_data b'0' 3 out (streaming sent_packet)
        ≡ some ((ok, record { out_type = 2; out_payload = 7 ∷ 9 ∷ 0 ∷ 0 ∷ []; out_len = 2 }), m'))
get_hv_binary_data-packet_example =
    get_hv_binary_data-packet (λ w. w) b'0' 3 2 (7 ∷ 9 ∷ []) [] out (streaming sent_packet)
      zero_valid (omega arith) (omega arith) (omega arith) (streaming-IsMaster sent_packet)
      streaming-IsStream refl (omega arith) (omega arith) (omega arith)

abbrev damaged_packet : List ℕ
damaged_packet = frame b'0' 2 (7 ∷ 8 ∷ []) ++ (le16 (crc16 (frame b'0' 2 (7 ∷ 9 ∷ [])) 6) ++ [])

get_hv_binary_data-damaged_example :
    (m' : Master (List ℕ)) × (m'.world ≡ [])
    × (get_hv_binary_data b'0' 3 out (streaming damaged_packet)
        ≡ some ((err_crc_mismatch, record out { out_type = 2 }), m'))
get_hv_binary_data-damaged_example =
    get_hv_binary_data-damaged (λ w. w) b'0' 3 2 9 8 (7 ∷ []) [] [] out (streaming damaged_packet)
      zero_valid (omega arith) (omega arith) (omega arith) tt (omega arith) (omega arith)
      (λ e. absurd (omega arith)) (streaming-IsMaster damaged_packet) streaming-IsStream refl
      (omega arith) (omega arith) (omega arith)

extended_multiline_lem_example :
    (lines : List (List ℕ)) × (old : List ℕ) × (m' : Master (List ℕ)) × Gathers three_at_a_time 8 3
      (codes "defgh")
      lines
      m'.world
    × (extended_multiline b'0' (codes "T") (replicate 9 0) 8 15 (streaming (codes "abcdefgh"))
        ≡ some ((ok, some (collected 8 (codes "abc" ++ concat lines) old (1 + length lines))), m'))
    × (length (take 8 (codes "abc" ++ concat lines) ++ old) ≡ 9)
    × IsMaster m'
extended_multiline_lem_example =
    extended_multiline_lem b'0' (codes "T") (replicate 9 0) 8 15 (streaming (codes "abcdefgh"))
      zero_valid (omega arith) (omega arith) (streaming-IsMaster (codes "abcdefgh")) (omega arith)
