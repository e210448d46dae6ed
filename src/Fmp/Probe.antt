-- ===== src/Fmp/Probe.antt =====
-- The echo and throughput probes of crates/fips-fmp/src/lib.rs.
use microfips.Base.{
  ℕ, ◌+◌, ◌^◌, ◌≤◌, ◌<◌, List, [], ◌++◌, length, ltb, ◌||◌, if◌then◌else◌, ◌≡◌, refl, arith, le→ltb,
}
use microfips.Bytes.{le_bytes}
use microfips.Exec.{Exec, ok, err, Absent, absent, index, read_le, slice_from, copy_into, ◌>>=◌}
use microfips.Exec.Laws.{read_le-append, slice_from-append}
use microfips.Exec.Write.{after, next}

abbrev pub echo_request_min_size : ℕ
echo_request_min_size = 12

abbrev pub echo_response_min_size : ℕ
echo_response_min_size = 20

abbrev pub echo_max_payload : ℕ
echo_max_payload = 256

abbrev pub throughput_request_size : ℕ
throughput_request_size = 12

abbrev pub throughput_stream_min_size : ℕ
throughput_stream_min_size = 8

abbrev pub throughput_report_size : ℕ
throughput_report_size = 36

unfoldable pub parse_echo_request : List ℕ → Exec Absent (ℕ × ℕ × List ℕ)
parse_echo_request body = if ltb (length body) echo_request_min_size then err absent else (do
  ts ← read_le body 0 8
  seq ← read_le body 8 12
  payload ← slice_from body 12
  ok (ts, seq, payload))

unfoldable pub build_echo_response :
    (send_timestamp_us recv_timestamp_us sequence : ℕ) (payload out : List ℕ)
    → Exec Absent (ℕ × List ℕ)
build_echo_response send_timestamp_us recv_timestamp_us sequence payload out =
    let needed = echo_response_min_size + length payload in
    if ltb (length out) needed || ltb echo_max_payload (length payload) then err absent else (do
      with_send ← copy_into out 0 8 (le_bytes 8 send_timestamp_us)
      with_recv ← copy_into with_send 8 16 (le_bytes 8 recv_timestamp_us)
      with_seq ← copy_into with_recv 16 20 (le_bytes 4 sequence)
      whole ← copy_into with_seq 20 needed payload
      ok (needed, whole))

unfoldable pub parse_throughput_request : List ℕ → Exec Absent (ℕ × ℕ × ℕ × ℕ × ℕ)
parse_throughput_request body =
    if ltb (length body) throughput_request_size then err absent else (do
      test_id ← read_le body 0 4
      direction ← index body 4
      duration_secs ← index body 5
      frame_size ← read_le body 6 8
      rate_bps ← read_le body 8 12
      ok (test_id, direction, duration_secs, frame_size, rate_bps))

unfoldable pub parse_throughput_stream : List ℕ → Exec Absent (ℕ × ℕ)
parse_throughput_stream body =
    if ltb (length body) throughput_stream_min_size
    then err absent
    else (do test_id ← read_le body 0 4; sequence ← read_le body 4 8; ok (test_id, sequence))

unfoldable pub build_throughput_report :
    (test_id frames_sent frames_recv bytes_recv duration_us achieved_bps : ℕ) (out : List ℕ)
    → Exec Absent (ℕ × List ℕ)
build_throughput_report test_id frames_sent frames_recv bytes_recv duration_us achieved_bps out =
    if ltb (length out) throughput_report_size then err absent else (do
      b1 ← copy_into out 0 4 (le_bytes 4 test_id)
      b2 ← copy_into b1 4 8 (le_bytes 4 frames_sent)
      b3 ← copy_into b2 8 12 (le_bytes 4 frames_recv)
      b4 ← copy_into b3 12 20 (le_bytes 8 bytes_recv)
      b5 ← copy_into b4 20 28 (le_bytes 8 duration_us)
      b6 ← copy_into b5 28 36 (le_bytes 8 achieved_bps)
      ok (throughput_report_size, b6))

-- A request with a `u64` timestamp and a `u32` sequence number is parsed to its fields, and a response
-- to it with a payload of at most 256 bytes is written whole, with both timestamps, the number and
-- the payload, at the front of a buffer that holds it, with the rest left as it was.
pub echo_answers :
    (ts recv seq : ℕ) (payload out : List ℕ)
    → ts < 2 ^ 64
    → seq < 2 ^ 32
    → length payload ≤ 256
    → 20 + length payload ≤ length out
    → (parse_echo_request (le_bytes 8 ts ++ (le_bytes 4 seq ++ payload)) ≡ ok (ts, seq, payload))
      × (build_echo_response ts recv seq payload out
          ≡ ok (
            20 + length payload,
            after (le_bytes 8 ts ++ (le_bytes 8 recv ++ (le_bytes 4 seq ++ payload))) out,
          ))
unfolding parse_echo_request build_echo_response
echo_answers ts recv seq payload out fits_ts fits_seq short room =
    let time = le_bytes 8 ts in
    let number = le_bytes 4 seq in
    (
      rw (
        le→ltb (length (time ++ (number ++ payload))) 12 (omega arith),
        read_le-append {E = Absent} [] (number ++ payload) 8 ts 0 8 refl refl fits_ts,
        read_le-append {E = Absent} time payload 4 seq 8 12 refl refl fits_seq,
        slice_from-append {E = Absent} (time ++ number) payload 12 refl,
      ),
      rw (
        le→ltb (length out) (20 + length payload) room,
        le→ltb 256 (length payload) short,
        next {E = Absent} [] time out 0 8 refl refl (omega arith),
        next {E = Absent} time (le_bytes 8 recv) out 8 16 refl refl (omega arith),
        next {E = Absent} (time ++ le_bytes 8 recv) number out 16 20 refl refl (omega arith),
        next {E = Absent} (time ++ le_bytes 8 recv ++ number) payload out 20 (20 + length payload)
            refl refl room,
      ),
    )

-- A report is written whole at the front of a buffer of 36 bytes or more, with the rest left as it
-- was, and a throughput stream is parsed to its `u32` fields.
pub throughput_fields :
    (id sent got bytes us bps : ℕ) (rest out : List ℕ)
    → id < 2 ^ 32
    → sent < 2 ^ 32
    → 36 ≤ length out
    → (build_throughput_report id sent got bytes us bps out
        ≡ ok (
          36,
          after
              (le_bytes 4 id
                ++ (le_bytes 4 sent
                    ++ (le_bytes 4 got ++ (le_bytes 8 bytes ++ (le_bytes 8 us ++ le_bytes 8 bps)))))
              out,
        ))
      × (parse_throughput_stream (le_bytes 4 id ++ (le_bytes 4 sent ++ rest)) ≡ ok (id, sent))
unfolding build_throughput_report parse_throughput_stream
throughput_fields id sent got bytes us bps rest out fits_id fits_sent room =
    let b1 = le_bytes 4 id in
    let b2 = b1 ++ le_bytes 4 sent in
    let b3 = b2 ++ le_bytes 4 got in
    let b4 = b3 ++ le_bytes 8 bytes in
    let b5 = b4 ++ le_bytes 8 us in
    (
      rw (
        le→ltb (length out) 36 room,
        next {E = Absent} [] b1 out 0 4 refl refl (omega arith),
        next {E = Absent} b1 (le_bytes 4 sent) out 4 8 refl refl (omega arith),
        next {E = Absent} b2 (le_bytes 4 got) out 8 12 refl refl (omega arith),
        next {E = Absent} b3 (le_bytes 8 bytes) out 12 20 refl refl (omega arith),
        next {E = Absent} b4 (le_bytes 8 us) out 20 28 refl refl (omega arith),
        next {E = Absent} b5 (le_bytes 8 bps) out 28 36 refl refl (omega arith),
      ),
      rw (
        le→ltb (length (b1 ++ (le_bytes 4 sent ++ rest))) 8 (omega arith),
        read_le-append {E = Absent} [] (le_bytes 4 sent ++ rest) 4 id 0 4 refl refl fits_id,
        read_le-append {E = Absent} b1 rest 4 sent 4 8 refl refl fits_sent,
      ),
    )
