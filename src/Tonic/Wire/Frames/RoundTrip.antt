-- ===== src/Tonic/Wire/Frames/RoundTrip.antt =====
-- What arrives of an encoded stream frame: des-tonic/src/wire.rs.
use des_cartes.Prelude.{
  ◌^◌, ◌<◌, ◌≡◌, refl, sym, ◌∙◌, subst, Bool, true, Option, none, some, [], ◌++◌, if◌then◌else◌,
  append_assoc, append-nil, arith,
}
use des_cartes.Tonic.Wire.{
  Bytes, Result, ok, err, open_frame_missing_method, ◌>>=◌, put_u8, get_u8, put_u32, put_u64,
  put_bytes, put_string, get_string, put_kv,
}
use des_cartes.Tonic.Wire.Fields.{
  IsShort, IsText, IsMetadata, bind-ok, get_le-le_bytes, get_bytes-put_bytes, get_string-put_string,
  get_kv-put_kv,
}
use des_cartes.Tonic.Wire.Messages.{CodeTable, bool_byte-read, bool_byte-flag, get_u32-code}
use des_cartes.Tonic.Wire.Frames.{
  StreamFrameKind, open_frame, data_frame, close_frame, cancel_frame, StreamDirection,
  client_to_server, server_to_client, StreamFrameWire, kind_to_u8, kind_from_u8, direction_to_u8,
  direction_from_u8, has_status, put_method, method_after, get_method, check_method, put_status,
  get_status, encode_stream_frame, decode_stream_frame,
}

bind-cong {ℓ κ} :
    {A : Type ℓ} {B : Type κ} (r : Result A) {f g : A → Result B}
    → ((a : A) → f a ≡ g a)
    → (r >>= f) ≡ (r >>= g)
bind-cong (ok a) h = h a
bind-cong (err e) h = refl

-- The method arrives with an open frame, which must have one, and is dropped from any other frame.
abbrev pub carried_method : StreamFrameKind → Option Bytes → Result (Option Bytes)
carried_method open_frame none = err open_frame_missing_method
carried_method open_frame (some method) = ok (some method)
carried_method _ method = ok none

-- An open frame's method is a text that can be sent.
abbrev pub MethodIsText : StreamFrameKind → Option Bytes → Type 0
MethodIsText open_frame (some method) = IsText method
MethodIsText _ _ = Unit

kind_from-to : (k : StreamFrameKind) → kind_from_u8 (kind_to_u8 k) ≡ ok k
unfolding kind_from_u8
kind_from-to open_frame = refl
kind_from-to data_frame = refl
kind_from-to close_frame = refl
kind_from-to cancel_frame = refl

direction_from-to : (d : StreamDirection) → direction_from_u8 (direction_to_u8 d) ≡ ok d
unfolding direction_from_u8
direction_from-to client_to_server = refl
direction_from-to server_to_client = refl

get_u8-kind :
    (k : StreamFrameKind) (rest : Bytes)
    → get_u8 (put_u8 (kind_to_u8 k) ++ rest) ≡ ok (kind_to_u8 k, rest)
get_u8-kind open_frame rest = get_le-le_bytes 1 0 rest (omega arith)
get_u8-kind data_frame rest = get_le-le_bytes 1 1 rest (omega arith)
get_u8-kind close_frame rest = get_le-le_bytes 1 2 rest (omega arith)
get_u8-kind cancel_frame rest = get_le-le_bytes 1 3 rest (omega arith)

get_u8-direction :
    (d : StreamDirection) (rest : Bytes)
    → get_u8 (put_u8 (direction_to_u8 d) ++ rest) ≡ ok (direction_to_u8 d, rest)
get_u8-direction client_to_server rest = get_le-le_bytes 1 0 rest (omega arith)
get_u8-direction server_to_client rest = get_le-le_bytes 1 1 rest (omega arith)

module _ {ℓ} {A : Type ℓ} (rest : Bytes) (f : Option Bytes × Bytes → Result A) where
  absent_method :
      (k : StreamFrameKind)
      → (get_method (put_u8 0 ++ rest) >>= λ m. check_method k m.0 >>= λ _. f m)
        ≡ (check_method k none >>= λ _. f (none, rest))
  unfolding get_method method_after
  absent_method k =
      bind-ok (λ m. check_method k m.0 >>= λ _. f m)
        (bind-ok (λ flag. method_after flag.0 flag.1) (get_le-le_bytes 1 0 rest (omega arith)))

  -- Reading the method and checking it against the kind gives what is carried.
  method_step :
      (k : StreamFrameKind) (method : Option Bytes)
      → MethodIsText k method
      → (get_method (put_method k method ++ rest) >>= λ m. check_method k m.0 >>= λ _. f m)
        ≡ (carried_method k method >>= λ m. f (m, rest))
  unfolding get_method method_after put_method check_method
  method_step open_frame (some method) h =
      let buf = put_string method ++ rest in
      subst
        (λ b.
          (get_method b >>= λ m. check_method open_frame m.0 >>= λ _. f m) ≡ f (some method, rest))
        (sym (append_assoc (put_u8 1) (put_string method) rest))
        (bind-ok (λ m. check_method open_frame m.0 >>= λ _. f m)
          (bind-ok (λ flag. method_after flag.0 flag.1) (get_le-le_bytes 1 1 buf (omega arith))
            ∙ bind-ok _ (get_string-put_string method rest h)))
  method_step open_frame none h = absent_method open_frame
  method_step data_frame method h = absent_method data_frame
  method_step close_frame method h = absent_method close_frame
  method_step cancel_frame method h = absent_method cancel_frame

module _ {C : Type 0} (codes : CodeTable C) where
  -- The status arrives with a frame that ends the stream, and is the default one on any other frame.
  abbrev pub carried_status : StreamFrameKind → Bool × C × Bytes → Bool × C × Bytes
  carried_status kind status = if has_status kind then status else (true, codes.code_ok, [])

  read_back :
      (flag : Bool) (code : C) (message : Bytes)
      → IsText message
      → get_status codes close_frame (put_status codes close_frame (flag, code, message))
        ≡ ok (flag, code, message)
  unfolding get_status put_status
  read_back flag code message h =
      let last =
        subst (λ b. get_string b ≡ ok (message, [])) (append-nil (put_string message))
          (get_string-put_string message [] h) in
      bind-ok _ (bool_byte-read flag (put_u32 (codes.to_u32 code) ++ put_string message))
      ∙ bind-ok _ (get_u32-code codes code (put_string message))
      ∙ bind-ok _ last
      ∙ rw (bool_byte-flag flag, codes.from-to code) refl

  get_status-put_status :
      (kind : StreamFrameKind) (flag : Bool) (code : C) (message : Bytes)
      → IsText message
      → get_status codes kind (put_status codes kind (flag, code, message))
        ≡ ok (carried_status kind (flag, code, message))
  unfolding get_status put_status
  get_status-put_status open_frame flag code message h = refl
  get_status-put_status data_frame flag code message h = refl
  get_status-put_status close_frame flag code message h = read_back flag code message h
  get_status-put_status cancel_frame flag code message h = read_back flag code message h

  -- A frame whose strings are UTF-8, whose lengths fit in their prefixes and whose number is a u64.
  pub record IsFrame (frame : StreamFrameWire C) : Type 0 where
    pub stream_id : IsText frame.stream_id
    pub seq : frame.seq < 2 ^ 64
    pub method : MethodIsText frame.kind frame.method
    pub metadata : IsMetadata frame.metadata
    pub payload : IsShort frame.payload
    pub status_message : IsText frame.status_message

  abbrev pub with_status : Bool × C × Bytes → StreamFrameWire C → StreamFrameWire C
  with_status (flag, code, message) frame = record frame {
    status_ok = flag;
    status_code = code;
    status_message = message;
  }

  -- The frame as the other side sees it.
  abbrev pub carried : StreamFrameWire C → Result (StreamFrameWire C)
  carried frame = carried_method frame.kind frame.method >>= λ method. ok (
      with_status
        (carried_status frame.kind (frame.status_ok, frame.status_code, frame.status_message))
        (record frame { method = method }))

  -- A frame whose strings are UTF-8, whose lengths fit in their prefixes and whose number is a u64
  -- is decoded from its encoding as itself, less a method on a frame that is not open and a status
  -- on one that does not end the stream; an open frame without a method is refused as such.
  pub decode_stream_frame-encode_stream_frame :
      (frame : StreamFrameWire C)
      → IsFrame frame
      → decode_stream_frame codes (encode_stream_frame codes frame) ≡ carried frame
  unfolding decode_stream_frame encode_stream_frame
  decode_stream_frame-encode_stream_frame frame h =
      let status =
        put_status codes frame.kind (frame.status_ok, frame.status_code, frame.status_message) in
      let after_metadata = put_bytes frame.payload ++ status in
      let after_method = put_kv frame.metadata ++ after_metadata in
      let after_kind = put_method frame.kind frame.method ++ after_method in
      let after_seq = put_u8 (kind_to_u8 frame.kind) ++ after_kind in
      let after_direction = put_u64 frame.seq ++ after_seq in
      bind-ok _ (
        get_string-put_string frame.stream_id
          (put_u8 (direction_to_u8 frame.direction) ++ after_direction) h.stream_id)
      ∙ bind-ok _ (get_u8-direction frame.direction after_direction)
      ∙ bind-ok _ (direction_from-to frame.direction)
      ∙ bind-ok _ (get_le-le_bytes 8 frame.seq after_seq (omega (arith, h.seq)))
      ∙ bind-ok _ (get_u8-kind frame.kind after_kind)
      ∙ bind-ok _ (kind_from-to frame.kind)
      ∙ method_step after_method _ frame.kind frame.method h.method
      ∙ bind-cong (carried_method frame.kind frame.method) (λ method.
        bind-ok _ (get_kv-put_kv frame.metadata after_metadata h.metadata)
        ∙ bind-ok _ (get_bytes-put_bytes frame.payload status h.payload)
        ∙ bind-ok _ (
            get_status-put_status frame.kind frame.status_ok frame.status_code frame.status_message
              h.status_message))
