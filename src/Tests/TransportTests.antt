-- ===== src/Tests/TransportTests.antt =====
-- Transport on a small input: a value's frame, a stream in short chunks, and a guard.
use strongwiz.Base.{
  ℕ, zero, suc, ◌+◌, ◌-◌, ◌<◌, ◌≤◌, ◌≡◌, ◌↔◌, ◌⊎◌, inl, inr, refl, sym, ◌∙◌, ap, arith, String,
  Bool, true, false, Option, none, some, List, [], ◌∷◌, ◌++◌, ◌==◌, string_eq, nat_eq, list_eq, ltb,
  length, take, drop, take-++-drop, length-take, length-take_le, if◌then◌else◌,
}
use strongwiz.Base.Result.{ok}
use strongwiz.Canonical.Json.{Json, null, bool, int, list, str, dict}
use strongwiz.Transport.Bytes.{Bytes, pack_number, unpack_number, length-pack_number, weight}
use strongwiz.Transport.Frame.{
  Wire, IsWire, FrameReceipt, DecodedFrame, encode_payload, decode_frame_record, receipt_of,
  decode_body, parse_header, validate_limit, decode_payload, check_canonical, pack_header,
}
use strongwiz.Transport.RoundTrip.{
  frame_of, decode_frame_record-encode_payload, encode_payload-decode_frame_record,
  encode_payload_ok,
}
use strongwiz.Transport.Device.{
  Device, chunk, wrote, read_frame_record, read_single_frame_record, write_frame,
  read_frame_record_until, write_loop, read_body, write_chunk, decode_read, accepted, read_loop,
  ensure_time, read_exact, deadline_of, read_chunk, received, check_chunk,
}
use strongwiz.Transport.Reading.{IsReader}
use strongwiz.Transport.Prompt.{IsPrompt}
use strongwiz.Transport.Writing.{
  IsWriter, IsPromptWriter, write_frame-encode_payload, write_frame_returns,
}
use strongwiz.Transport.Received.{read_frame_record-decode_frame_record, Gives}
use strongwiz.Base.Map.{empty}
use strongwiz.Transport.Replay.{ReplayGuard, read_identified_frame}
use strongwiz.Transport.Identified.{Outcome, read_identified_frame-Outcome}
use strongwiz.Transport.Single.{read_single_frame_record-decode_frame_record}

canonical : Json → Option Bytes
canonical (bool true) = some (116 ∷ [])
canonical (bool false) = some (102 ∷ [])
canonical _ = none

unfoldable utf8 : Bytes → Option String
utf8 b = if b == 116 ∷ [] then some "true" else if b == 102 ∷ [] then some "false" else none

unfoldable parsed : String → Option Json
parsed t =
    if t == "true" then some (bool true) else if t == "false" then some (bool false) else none

-- a codec of two values, with a digest that holds its whole input
abbrev wire : Wire
wire = record {
  canonical_bytes = canonical;
  decode_utf8 = utf8;
  parse = parsed;
  sha256 = λ b. pack_number 32 (unpack_number b);
}

canonical_cases : (v : Json) (b : Bytes) → canonical v ≡ some b → (b ≡ 116 ∷ []) ⊎ (b ≡ 102 ∷ [])
unfolding canonical
canonical_cases (bool true) b h = inl (ground (arith, h))
canonical_cases (bool false) b h = inr (ground (arith, h))
canonical_cases null b h = cc
canonical_cases (int sign n) b h = cc
canonical_cases (str s) b h = cc
canonical_cases (list items) b h = cc
canonical_cases (dict fields) b h = cc

wire-IsWire : IsWire wire
unfolding canonical utf8 parsed strongwiz.Base.List_discrete strongwiz.Base.ℕ_discrete
    strongwiz.Base.String_discrete
wire-IsWire = record {
  digest_size = λ b. length-pack_number 32 (unpack_number b);
  payload_size = sized;
  reads = reads;
}
  where
    sized : (v : Json) (b : Bytes) → canonical v ≡ some b → 0 < length b
    sized v b h = elim (canonical_cases v b h) [
      | inl e ↦ omega (arith, ap (λ (xs : Bytes). length xs) e)
      | inr e ↦ omega (arith, ap (λ (xs : Bytes). length xs) e)
    ]

    reads :
        (v : Json) (b : Bytes)
        → canonical v ≡ some b
        → (t : String) × (u : Json) × (utf8 b ≡ some t)
          × (parsed t ≡ some u)
          × (canonical u ≡ some b)
    reads v b h = elim (canonical_cases v b h) [
      | inl e ↦ rw (e) ("true", bool true, refl, refl, refl)
      | inr e ↦ rw (e) ("false", bool false, refl, refl, refl)
    ]

-- a pipe that gives and takes at most seven bytes a call
record Pipe : Type 0 where
  incoming : Bytes
  outgoing : Bytes
  ticks : ℕ

abbrev up_to : ℕ → ℕ
up_to n = if ltb n 7 then n else 7

abbrev pipe : Device Pipe
pipe = record {
  read =
      λ n s. (chunk (take (up_to n) s.incoming), record s { incoming = drop (up_to n) s.incoming });
  write = λ b s.
      (wrote (up_to (length b)), record s { outgoing = s.outgoing ++ take (up_to (length b)) b });
  monotonic = λ s. (s.ticks, record s { ticks = suc s.ticks });
}

some_taken : (n : ℕ) (xs : Bytes) → 0 < n → (xs ≡ []) ⊎ (0 < length (take n xs))
unfolding take
some_taken zero xs h = absurd (omega arith)
some_taken (suc n) [] h = inl refl
some_taken (suc n) (x ∷ xs) h = inr (omega arith)

pipe-IsReader : IsReader pipe (λ s. s.incoming)
pipe-IsReader = record {
  reading = λ n s t bytes h. sym (take-++-drop (up_to n) s.incoming) ∙ ground (arith, h);
  ticking = λ s. refl;
}

pipe-IsPrompt : IsPrompt pipe (λ s. s.incoming)
pipe-IsPrompt = record {
  is_reader = pipe-IsReader;
  prompt = λ n s positive. (
    take (up_to n) s.incoming,
    record s { incoming = drop (up_to n) s.incoming },
    refl,
    ground (arith, length-take_le (up_to n) s.incoming),
    some_taken (up_to n) s.incoming (ground (arith, positive)),
  );
}

pipe-IsWriter : IsWriter pipe (λ s. s.outgoing)
pipe-IsWriter = record { writing = λ bytes s t n h fits. ground (arith, h); ticking = λ s. refl }

pipe-IsPromptWriter : IsPromptWriter pipe (λ s. s.outgoing)
pipe-IsPromptWriter = record {
  is_writer = pipe-IsWriter;
  prompt = λ bytes s h. (
    up_to (length bytes),
    record s { outgoing = s.outgoing ++ take (up_to (length bytes)) bytes },
    refl,
    ground (arith, h),
    ground arith,
  );
}

abbrev payload : Bytes
payload = 116 ∷ []

abbrev digest : Bytes
digest = pack_number 32 116

abbrev frame : Bytes
frame = frame_of wire payload

abbrev receipt : FrameReceipt
receipt = receipt_of 1 digest

abbrev decoded_frame : DecodedFrame
decoded_frame = record { value = bool true; receipt = receipt }

true_encoded : encode_payload wire (bool true) 10 ≡ ok (frame, receipt)
unfolding canonical weight unpack_number
true_encoded =
    encode_payload_ok wire (bool true) 10 payload refl (omega arith) (omega arith) (omega arith)

frame_decoded : decode_frame_record wire frame 10 ≡ ok decoded_frame
unfolding decode_frame_record decode_body parse_header validate_limit decode_payload check_canonical
    canonical utf8 parsed take drop unpack_number pack_number weight strongwiz.Base.List_discrete
    strongwiz.Base.ℕ_discrete strongwiz.Base.String_discrete
frame_decoded = refl

decode_frame_record-encode_payload_example :
    (read : Json) × (decode_frame_record wire frame 10
      ≡ ok (record { value = read; receipt = receipt }))
    × (canonical read ≡ canonical (bool true))
decode_frame_record-encode_payload_example =
    decode_frame_record-encode_payload wire wire-IsWire (bool true) 10 frame receipt true_encoded

encode_payload-decode_frame_record_example :
    encode_payload wire (bool true) 10 ≡ ok (frame, receipt)
unfolding pack_number weight unpack_number
encode_payload-decode_frame_record_example =
    encode_payload-decode_frame_record wire frame 10 decoded_frame refl (omega arith) frame_decoded

abbrev start : Pipe
start = record { incoming = frame ++ 1 ∷ 2 ∷ []; outgoing = []; ticks = 5 }

abbrev behind : Pipe
behind = record { incoming = 1 ∷ 2 ∷ []; outgoing = []; ticks = 23 }

-- seven chunks for the header, and a look at the clock before and after each
frame_read : read_frame_record pipe wire 10 (some 100) start ≡ (ok decoded_frame, behind)
unfolding read_frame_record read_frame_record_until read_body decode_read read_loop read_exact
    read_chunk received check_chunk ensure_time deadline_of decode_payload check_canonical
    parse_header validate_limit canonical utf8 parsed take drop unpack_number pack_number weight
    strongwiz.Base.List_discrete strongwiz.Base.ℕ_discrete strongwiz.Base.String_discrete
frame_read = refl

read_frame_record-decode_frame_record_example :
    Gives pipe (λ s. s.incoming) pipe-IsReader wire 10 decoded_frame start behind
read_frame_record-decode_frame_record_example =
    read_frame_record-decode_frame_record pipe (λ s. s.incoming) pipe-IsReader wire 10 (some 100)
      decoded_frame start behind frame_read

abbrev alone : Pipe
alone = record { incoming = frame; outgoing = []; ticks = 5 }

read_single_frame_record-decode_frame_record_example :
    ((t : Pipe) × (read_single_frame_record pipe wire 10 none alone ≡ (ok decoded_frame, t)))
    ↔ (decode_frame_record wire frame 10 ≡ ok decoded_frame)
read_single_frame_record-decode_frame_record_example =
    read_single_frame_record-decode_frame_record pipe (λ s. s.incoming) pipe-IsPrompt wire 10
      decoded_frame alone

abbrev blank : Pipe
blank = record { incoming = []; outgoing = 9 ∷ []; ticks = 5 }

abbrev written : Pipe
written = record { incoming = []; outgoing = 9 ∷ frame; ticks = 20 }

frame_written : write_frame pipe wire (bool true) 10 (some 100) blank ≡ (ok receipt, written)
unfolding write_frame write_loop write_chunk accepted ensure_time deadline_of encode_payload
    pack_header decode_payload check_canonical parse_header validate_limit canonical utf8 parsed
    take drop unpack_number pack_number weight strongwiz.Base.List_discrete
    strongwiz.Base.ℕ_discrete strongwiz.Base.String_discrete
frame_written = refl

write_frame-encode_payload_example :
    (sent : Bytes) × (encode_payload wire (bool true) 10 ≡ ok (sent, receipt))
    × (9 ∷ frame ≡ 9 ∷ [] ++ sent)
write_frame-encode_payload_example =
    write_frame-encode_payload pipe (λ s. s.outgoing) pipe-IsWriter wire (bool true) 10 (some 100)
      receipt blank written frame_written

write_frame_returns_example :
    (t : Pipe) × (write_frame pipe wire (bool true) 10 none blank ≡ (ok receipt, t))
    × (t.outgoing ≡ 9 ∷ [] ++ frame)
write_frame_returns_example =
    write_frame_returns pipe (λ s. s.outgoing) pipe-IsPromptWriter wire (bool true) 10 frame receipt
      blank true_encoded

abbrev guard : ReplayGuard
guard = record { capacity = 2; by_identity = []; by_digest = empty }

read_identified_frame-Outcome_example :
    Outcome pipe wire "message_id" guard
      (read_identified_frame pipe wire "message_id" 10 none (start, guard))
read_identified_frame-Outcome_example =
    read_identified_frame-Outcome pipe wire "message_id" 10 none start guard
