-- ===== src/Examples/Wire.antt =====
-- Messages with a string beyond ASCII: des-tonic.
use des_cartes.Prelude.{ℕ, ◌<◌, ◌^◌, ◌≡◌, refl, Bool, true, false, some, [], ◌∷◌, ◌==◌, arith}
use des_cartes.Tonic.Wire.{Bytes, ok, utf8_from, utf8_step, utf8_start, between}
use des_cartes.Tonic.Wire.Fields.{IsText}
use des_cartes.Tonic.Wire.Messages.{CodeTable, UnaryRequestWire, UnaryResponseWire}
use des_cartes.Tonic.Wire.Frames.{
  StreamFrameWire, open_frame, client_to_server, encode_stream_frame, decode_stream_frame,
}
use des_cartes.Tonic.Wire.Frames.RoundTrip.{decode_stream_frame-encode_stream_frame}

-- The bytes of "/é".
abbrev path : Bytes
path = 0x2F ∷ 0xC3 ∷ 0xA9 ∷ []

path-IsText : IsText path
unfolding utf8_from utf8_step utf8_start between
path-IsText = (omega arith, refl)

-- Two of tonic's codes: `Ok` is 0 and `Internal` is 13.
abbrev internal_number : Bool → ℕ
internal_number true = 13
internal_number false = 0

internal_number_bound : (b : Bool) → internal_number b < 2 ^ 31
internal_number_bound true = omega arith
internal_number_bound false = omega arith

internal_number_back : (b : Bool) → (internal_number b == 13) ≡ b
internal_number_back true = refl
internal_number_back false = refl

abbrev two_codes : CodeTable Bool
two_codes = record {
  to_u32 = internal_number;
  from_u32 = λ n. n == 13;
  code_ok = false;
  to_u32_bound = internal_number_bound;
  from-to = internal_number_back;
}

abbrev request : UnaryRequestWire
request = record { method = path; metadata = (path, path) ∷ []; payload = 1 ∷ 2 ∷ [] }

abbrev response : UnaryResponseWire Bool
response = record { is_ok = false; code = true; message = path; metadata = []; payload = 7 ∷ [] }

abbrev opening : StreamFrameWire Bool
opening = record {
  stream_id = path;
  direction = client_to_server;
  seq = 3;
  kind = open_frame;
  method = some path;
  metadata = [];
  payload = 9 ∷ [];
  status_ok = true;
  status_code = false;
  status_message = [];
}

decode_stream_frame-encode_stream_frame_example :
    decode_stream_frame two_codes (encode_stream_frame two_codes opening) ≡ ok opening
unfolding utf8_from
decode_stream_frame-encode_stream_frame_example =
    decode_stream_frame-encode_stream_frame two_codes opening (record {
      stream_id = path-IsText;
      seq = omega arith;
      method = path-IsText;
      metadata = (omega arith, tt);
      payload = omega arith;
      status_message = (omega arith, refl);
    })
