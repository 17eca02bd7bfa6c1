-- ===== src/Tonic/Wire/Messages.antt =====
-- des-tonic/src/wire.rs: unary requests and responses.
use des_cartes.Prelude.{
  ℕ, ◌^◌, ◌<◌, ◌≡◌, refl, ◌∙◌, subst, Bool, true, false, not, List, [], ◌++◌, ◌==◌, if◌then◌else◌,
  append-nil, arith,
}
use des_cartes.Tonic.Wire.{
  Bytes, Result, ok, ◌>>=◌, put_u8, get_u8, put_u32, get_u32, put_bytes, get_bytes, put_string,
  get_string, put_kv, get_kv,
}
use des_cartes.Tonic.Wire.Fields.{
  IsShort, IsText, IsMetadata, bind-ok, get_le-le_bytes, get_bytes-put_bytes, get_string-put_string,
  get_kv-put_kv,
}

-- tonic's `Code`: `as u32` and `Code::from_i32`, which gives back the code of a code's number.
pub record CodeTable (C : Type 0) : Type 0 where
  pub to_u32 : C → ℕ
  pub from_u32 : ℕ → C
  pub code_ok : C
  pub to_u32_bound : (c : C) → to_u32 c < 2 ^ 31
  pub from-to : (c : C) → from_u32 (to_u32 c) ≡ c

pub record UnaryRequestWire : Type 0 where
  pub method : Bytes
  pub metadata : List (Bytes × Bytes)
  pub payload : Bytes

pub record UnaryResponseWire (C : Type 0) : Type 0 where
  pub is_ok : Bool
  pub code : C
  pub message : Bytes
  pub metadata : List (Bytes × Bytes)
  pub payload : Bytes

unfoldable pub encode_unary_request : UnaryRequestWire → Bytes
unfolding put_bytes put_kv
encode_unary_request msg = put_string msg.method ++ (put_kv msg.metadata ++ put_bytes msg.payload)

unfoldable pub decode_unary_request : Bytes → Result UnaryRequestWire
unfolding get_string get_kv get_bytes
decode_unary_request bytes = do
  method ← get_string bytes
  metadata ← get_kv method.1
  payload ← get_bytes metadata.1
  ok (record { method = method.0; metadata = metadata.0; payload = payload.0 })

abbrev pub bool_byte : Bool → ℕ
bool_byte b = if b then 1 else 0

-- A request whose strings and lengths can be sent.
pub record IsRequest (msg : UnaryRequestWire) : Type 0 where
  pub method : IsText msg.method
  pub metadata : IsMetadata msg.metadata
  pub payload : IsShort msg.payload

get_bytes-last : (xs : Bytes) → IsShort xs → get_bytes (put_bytes xs) ≡ ok (xs, [])
get_bytes-last xs h =
    subst (λ buf. get_bytes buf ≡ ok (xs, [])) (append-nil (put_bytes xs))
      (get_bytes-put_bytes xs [] h)

-- A unary request whose strings are UTF-8 and whose lengths fit in their prefixes is decoded from
-- its own encoding.
pub decode_unary_request-encode_unary_request :
    (msg : UnaryRequestWire)
    → IsRequest msg
    → decode_unary_request (encode_unary_request msg) ≡ ok msg
unfolding decode_unary_request encode_unary_request
decode_unary_request-encode_unary_request msg h =
    bind-ok _
      (get_string-put_string msg.method (put_kv msg.metadata ++ put_bytes msg.payload) h.method)
    ∙ bind-ok _ (get_kv-put_kv msg.metadata (put_bytes msg.payload) h.metadata)
    ∙ bind-ok _ (get_bytes-last msg.payload h.payload)

pub bool_byte-read :
    (b : Bool) (rest : Bytes) → get_u8 (put_u8 (bool_byte b) ++ rest) ≡ ok (bool_byte b, rest)
bool_byte-read true rest = get_le-le_bytes 1 1 rest (omega arith)
bool_byte-read false rest = get_le-le_bytes 1 0 rest (omega arith)

pub bool_byte-flag : (b : Bool) → not (bool_byte b == 0) ≡ b
bool_byte-flag true = refl
bool_byte-flag false = refl

module _ {C : Type 0} (codes : CodeTable C) where
  unfoldable pub encode_unary_response : UnaryResponseWire C → Bytes
  unfolding put_bytes put_kv
  encode_unary_response msg =
      put_u8 (bool_byte msg.is_ok)
      ++ (put_u32 (codes.to_u32 msg.code)
          ++ (put_string msg.message ++ (put_kv msg.metadata ++ put_bytes msg.payload)))

  unfoldable pub decode_unary_response : Bytes → Result (UnaryResponseWire C)
  unfolding get_string get_kv get_bytes
  decode_unary_response bytes = do
    is_ok ← get_u8 bytes
    code ← get_u32 is_ok.1
    message ← get_string code.1
    metadata ← get_kv message.1
    payload ← get_bytes metadata.1
    ok (record {
      is_ok = not (is_ok.0 == 0);
      code = codes.from_u32 code.0;
      message = message.0;
      metadata = metadata.0;
      payload = payload.0;
    })

  pub record IsResponse (msg : UnaryResponseWire C) : Type 0 where
    pub message : IsText msg.message
    pub metadata : IsMetadata msg.metadata
    pub payload : IsShort msg.payload

  pub get_u32-code :
      (c : C) (rest : Bytes)
      → get_u32 (put_u32 (codes.to_u32 c) ++ rest) ≡ ok (codes.to_u32 c, rest)
  get_u32-code c rest =
      get_le-le_bytes 4 (codes.to_u32 c) rest (omega (arith, codes.to_u32_bound c))

  -- A unary response whose strings are UTF-8 and whose lengths fit in their prefixes is decoded
  -- from its own encoding.
  pub decode_unary_response-encode_unary_response :
      (msg : UnaryResponseWire C)
      → IsResponse msg
      → decode_unary_response (encode_unary_response msg) ≡ ok msg
  unfolding decode_unary_response encode_unary_response
  decode_unary_response-encode_unary_response msg h =
      let after_metadata = put_bytes msg.payload in
      let after_message = put_kv msg.metadata ++ after_metadata in
      let after_code = put_string msg.message ++ after_message in
      bind-ok _ (bool_byte-read msg.is_ok (put_u32 (codes.to_u32 msg.code) ++ after_code))
      ∙ bind-ok _ (get_u32-code msg.code after_code)
      ∙ bind-ok _ (get_string-put_string msg.message after_message h.message)
      ∙ bind-ok _ (get_kv-put_kv msg.metadata after_metadata h.metadata)
      ∙ bind-ok _ (get_bytes-last msg.payload h.payload)
      ∙ rw (bool_byte-flag msg.is_ok, codes.from-to msg.code) refl
