-- ===== src/Tonic/Wire/Frames.antt =====
-- des-tonic/src/wire.rs: the frames of a stream.
pub mod RoundTrip
use des_cartes.Prelude.{
  ℕ, ◌+◌, ◌*◌, ◌/◌, ◌^◌, ◌<◌, ◌≡◌, refl, sym, ap, ◌∙◌, subst, Bool, true, false, not, Option, none,
  some, List, [], ◌∷◌, ◌++◌, ◌==◌, if◌then◌else◌, append_assoc, append-nil, arith,
}
use des_cartes.Tonic.Wire.{
  Bytes, Result, ok, err, Read, invalid_kind, invalid_direction, invalid_method_flag,
  open_frame_missing_method, method_only_for_open, ◌>>=◌, put_u8, get_u8, put_u32, get_u32, put_u64,
  get_u64, put_bytes, get_bytes, put_string, get_string, put_kv, get_kv,
}
use des_cartes.Tonic.Wire.Fields.{
  Fits, IsShort, IsText, IsMetadata, bind-ok, get_le-le_bytes, get_bytes-put_bytes,
  get_string-put_string, get_kv-put_kv,
}
use des_cartes.Tonic.Wire.Messages.{
  CodeTable, bool_byte, bool_byte-read, bool_byte-flag, get_u32-code,
}

pub data StreamFrameKind : Type 0 where
  open_frame data_frame close_frame cancel_frame : StreamFrameKind

pub data StreamDirection : Type 0 where
  client_to_server server_to_client : StreamDirection

pub record StreamFrameWire (C : Type 0) : Type 0 where
  pub stream_id : Bytes
  pub direction : StreamDirection
  pub seq : ℕ
  pub kind : StreamFrameKind
  pub method : Option Bytes
  pub metadata : List (Bytes × Bytes)
  pub payload : Bytes
  pub status_ok : Bool
  pub status_code : C
  pub status_message : Bytes

abbrev pub kind_to_u8 : StreamFrameKind → ℕ
kind_to_u8 open_frame = 0
kind_to_u8 data_frame = 1
kind_to_u8 close_frame = 2
kind_to_u8 cancel_frame = 3

unfoldable pub kind_from_u8 : ℕ → Result StreamFrameKind
kind_from_u8 v =
    if v == 0
    then ok open_frame
    else if v == 1
    then ok data_frame
    else if v == 2
    then ok close_frame
    else if v == 3
    then ok cancel_frame
    else err invalid_kind

abbrev pub direction_to_u8 : StreamDirection → ℕ
direction_to_u8 client_to_server = 0
direction_to_u8 server_to_client = 1

unfoldable pub direction_from_u8 : ℕ → Result StreamDirection
direction_from_u8 v =
    if v == 0
    then ok client_to_server
    else if v == 1
    then ok server_to_client
    else err invalid_direction

abbrev pub has_status : StreamFrameKind → Bool
has_status open_frame = false
has_status data_frame = false
has_status close_frame = true
has_status cancel_frame = true

unfoldable pub put_method : StreamFrameKind → Option Bytes → Bytes
unfolding put_bytes
put_method open_frame (some method) = put_u8 1 ++ put_string method
put_method open_frame none = put_u8 0
put_method _ method = put_u8 0

unfoldable pub method_after : ℕ → Bytes → Read (Option Bytes)
unfolding get_string
method_after flag buf =
    if flag == 0
    then ok (none, buf)
    else if flag == 1
    then (get_string buf >>= λ m. ok (some m.0, m.1))
    else err invalid_method_flag

unfoldable pub get_method : Bytes → Read (Option Bytes)
unfolding method_after
get_method buf = get_u8 buf >>= λ flag. method_after flag.0 flag.1

unfoldable pub check_method : StreamFrameKind → Option Bytes → Result (Unit {0})
check_method open_frame none = err open_frame_missing_method
check_method open_frame (some method) = ok tt
check_method _ none = ok tt
check_method _ (some method) = err method_only_for_open

module _ {C : Type 0} (codes : CodeTable C) where
  abbrev pub Status : Type 0
  Status = Bool × C × Bytes

  unfoldable pub put_status : StreamFrameKind → Status → Bytes
  unfolding put_bytes
  put_status kind (flag, code, message) =
      if has_status kind
      then put_u8 (bool_byte flag) ++ (put_u32 (codes.to_u32 code) ++ put_string message)
      else []

  abbrev read_status : Bytes → Result Status
  read_status buf = do
    flag ← get_u8 buf
    code ← get_u32 flag.1
    message ← get_string code.1
    ok (not (flag.0 == 0), codes.from_u32 code.0, message.0)

  unfoldable pub get_status : StreamFrameKind → Bytes → Result Status
  unfolding get_string
  get_status kind buf = if has_status kind then read_status buf else ok (true, codes.code_ok, [])

  unfoldable pub encode_stream_frame : StreamFrameWire C → Bytes
  unfolding put_bytes put_kv put_method put_status
  encode_stream_frame frame =
      put_string frame.stream_id
      ++ (put_u8 (direction_to_u8 frame.direction)
          ++ (put_u64 frame.seq
              ++ (put_u8 (kind_to_u8 frame.kind)
                  ++ (put_method frame.kind frame.method
                      ++ (put_kv frame.metadata
                          ++ (put_bytes frame.payload
                              ++ put_status frame.kind
                                  (frame.status_ok, frame.status_code, frame.status_message)))))))

  unfoldable pub decode_stream_frame : Bytes → Result (StreamFrameWire C)
  unfolding get_string direction_from_u8 kind_from_u8 get_method check_method get_kv get_bytes
      get_status
  decode_stream_frame bytes = do
    stream_id ← get_string bytes
    direction_u8 ← get_u8 stream_id.1
    direction ← direction_from_u8 direction_u8.0
    seq ← get_u64 direction_u8.1
    kind_u8 ← get_u8 seq.1
    kind ← kind_from_u8 kind_u8.0
    method ← get_method kind_u8.1
    checked ← check_method kind method.0
    metadata ← get_kv method.1
    payload ← get_bytes metadata.1
    status ← get_status kind payload.1
    ok (record {
      stream_id = stream_id.0;
      direction = direction;
      seq = seq.0;
      kind = kind;
      method = method.0;
      metadata = metadata.0;
      payload = payload.0;
      status_ok = status.0;
      status_code = status.1;
      status_message = status.2;
    })
