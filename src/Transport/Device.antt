-- ===== src/Transport/Device.antt =====
-- The streams and the clock that transport.py calls, and its reader and writer loops.
use strongwiz.Base.{
  ℕ, zero, suc, ◌+◌, ◌-◌, Bool, true, false, ◌&&◌, Option, none, some, [], ◌++◌, ◌==◌, nat_eq, ltb,
  leb, length, drop, if◌then◌else◌,
}
use strongwiz.Base.Result.{ok, err}
use strongwiz.Base.Exec.{Exec, pure, raise, ◌>>=◌, ◌>>◌, raise_if, lift}
use strongwiz.Canonical.Json.{Json}
use strongwiz.Transport.Bytes.{Bytes}
use strongwiz.Transport.Frame.{
  TransportError, end_of_stream, truncated, timed_out, trailing_data, not_bytes, oversized_chunk,
  not_a_count, no_progress, oversized_count, bad_timeout, Wire, FrameReceipt, DecodedFrame,
  header_size, receipt_of, parse_header, decode_payload, encode_payload,
}

-- What `reader.read` answers: bytes, `None`, a `TimeoutError`, or an object that is no bytes.
pub data ReadAnswer : Type 0 where
  chunk : Bytes → ReadAnswer
  no_chunk read_timeout other_object : ReadAnswer

-- What `writer.write` answers: a count (one below 0 is 0 here), `None`, a `TimeoutError`, or an
-- object that is no count.
pub data WriteAnswer : Type 0 where
  wrote : ℕ → WriteAnswer
  no_count write_timeout other_count : WriteAnswer

-- A stream with the clock beside it, over the states `S` of the two.
pub record Device (S : Type 0) : Type 0 where
  pub read : ℕ → S → ReadAnswer × S
  pub write : Bytes → S → WriteAnswer × S
  pub monotonic : S → ℕ × S

module _ {S : Type 0} (d : Device S) where
  open d use {read, write, monotonic}

  -- `_deadline`; times are counted in the clock's ticks
  unfoldable pub deadline_of : Option ℕ → Exec S TransportError (Option ℕ)
  deadline_of none s = (ok none, s)
  deadline_of (some zero) s = (err bad_timeout, s)
  deadline_of (some (suc ticks)) s = let (now, t) = monotonic s in (ok (some (now + suc ticks)), t)

  unfoldable pub ensure_time : Option ℕ → Exec S TransportError (Unit {0})
  ensure_time none s = (ok tt, s)
  ensure_time (some deadline) s =
      let (now, t) = monotonic s in (if leb deadline now then err timed_out else ok tt, t)

  abbrev pub ask : ℕ → Exec S TransportError ReadAnswer
  ask n s = let (answer, t) = read n s in (ok answer, t)

  abbrev pub offer : Bytes → Exec S TransportError WriteAnswer
  offer bytes s = let (answer, t) = write bytes s in (ok answer, t)

  unfoldable pub received : Option ℕ → ReadAnswer → Exec S TransportError Bytes
  received deadline read_timeout = raise timed_out
  received deadline no_chunk = ensure_time deadline >> raise timed_out
  received deadline other_object = ensure_time deadline >> raise not_bytes
  received deadline (chunk bytes) = ensure_time deadline >> pure bytes

  -- one call of `read` between two looks at the clock
  unfoldable pub read_chunk : Option ℕ → ℕ → Exec S TransportError Bytes
  read_chunk deadline n = ensure_time deadline >> (ask n >>= received deadline)

  -- the tests of a chunk in `_read_exact`
  unfoldable pub check_chunk : ℕ → Bool → Bytes → Bytes → Exec S TransportError (Unit {0})
  check_chunk remaining clean_eof_allowed output bytes =
      raise_if (ltb remaining (length bytes)) oversized_chunk
      >> (raise_if (length bytes == 0 && (clean_eof_allowed && length output == 0)) end_of_stream
          >> raise_if (length bytes == 0) truncated)

  -- the loop of `_read_exact`, on as much fuel as there are bytes to read
  unfoldable pub read_loop : Option ℕ → Bool → ℕ → ℕ → Bytes → Exec S TransportError Bytes
  read_loop deadline clean_eof_allowed count zero output = pure output
  read_loop deadline clean_eof_allowed count (suc fuel) output = elim (ltb (length output) count) [
    | false ↦ pure output
    | true ↦
        (read_chunk deadline (count - length output) >>= λ bytes.
        check_chunk (count - length output) clean_eof_allowed output bytes
        >> read_loop deadline clean_eof_allowed count fuel (output ++ bytes))
  ]

  unfoldable pub read_exact : ℕ → Option ℕ → Bool → Exec S TransportError Bytes
  read_exact count deadline clean_eof_allowed = read_loop deadline clean_eof_allowed count count []

  unfoldable pub accepted : Option ℕ → WriteAnswer → Exec S TransportError ℕ
  accepted deadline write_timeout = raise timed_out
  accepted deadline no_count = ensure_time deadline >> raise timed_out
  accepted deadline other_count = ensure_time deadline >> raise not_a_count
  accepted deadline (wrote n) = ensure_time deadline >> pure n

  -- one call of `write` between two looks at the clock
  unfoldable pub write_chunk : Option ℕ → Bytes → Exec S TransportError ℕ
  write_chunk deadline rest = ensure_time deadline >> (offer rest >>= accepted deadline)

  -- the loop of `write_frame`, on as much fuel as there are bytes to write
  unfoldable pub write_loop : Option ℕ → ℕ → Bytes → Exec S TransportError (Unit {0})
  write_loop deadline zero rest = pure tt
  write_loop deadline (suc fuel) rest = elim (ltb 0 (length rest)) [
    | false ↦ pure tt
    | true ↦
        (write_chunk deadline rest >>= λ written.
        raise_if (written == 0) no_progress
        >> (raise_if (ltb (length rest) written) oversized_count
            >> write_loop deadline fuel (drop written rest)))
  ]

  module _ (w : Wire) where
    -- what follows the header in `_read_frame_record_until`, in two parts
    unfoldable pub decode_read : Option ℕ → ℕ → Bytes → Bytes → Exec S TransportError DecodedFrame
    decode_read deadline payload_size expected_digest payload =
        lift (decode_payload w payload expected_digest) >>= λ value.
        ensure_time deadline
        >> pure (record { value = value; receipt = receipt_of payload_size expected_digest })

    unfoldable pub read_body : Option ℕ → ℕ × Bytes → Exec S TransportError DecodedFrame
    read_body deadline (payload_size, expected_digest) =
        read_exact payload_size deadline false >>= decode_read deadline payload_size expected_digest

    unfoldable pub read_frame_record_until : ℕ → Option ℕ → Exec S TransportError DecodedFrame
    read_frame_record_until max_payload_bytes deadline =
        read_exact header_size deadline true >>= λ header.
        lift (parse_header header max_payload_bytes) >>= read_body deadline

    unfoldable pub read_frame_record : ℕ → Option ℕ → Exec S TransportError DecodedFrame
    read_frame_record max_payload_bytes timeout =
        deadline_of timeout >>= λ deadline. read_frame_record_until max_payload_bytes deadline

    unfoldable pub read_frame : ℕ → Option ℕ → Exec S TransportError Json
    read_frame max_payload_bytes timeout =
        read_frame_record max_payload_bytes timeout >>= λ frame. pure frame.value

    unfoldable pub read_single_frame_record : ℕ → Option ℕ → Exec S TransportError DecodedFrame
    read_single_frame_record max_payload_bytes timeout = deadline_of timeout >>= λ deadline.
        read_frame_record_until max_payload_bytes deadline >>= λ frame.
        read_chunk deadline 1 >>= λ trailing.
        raise_if (ltb 0 (length trailing)) trailing_data >> pure frame

    unfoldable pub write_frame : Json → ℕ → Option ℕ → Exec S TransportError FrameReceipt
    write_frame value max_payload_bytes timeout =
        lift (encode_payload w value max_payload_bytes) >>= λ (frame, receipt).
        deadline_of timeout >>= λ deadline. write_loop deadline (length frame) frame >> pure receipt
