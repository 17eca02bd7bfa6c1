-- ===== src/Tonic/Wire.antt =====
-- des-tonic/src/wire.rs: requests, responses and stream frames as bytes. A `String` is its UTF-8
-- bytes, a buffer the bytes that are left. tonic's `Code` with its conversions is a parameter.
pub mod Fields
pub mod Messages
pub mod Frames
use des_cartes.Prelude.{
  ℕ, zero, suc, ◌+◌, ◌*◌, ◌/◌, ◌%◌, ◌^◌, ◌≤◌, ◌<◌, ◌≡◌, Bool, true, false, ◌&&◌, Option, none, some,
  List, [], ◌∷◌, ◌++◌, leb, ltb, ◌==◌, if◌then◌else◌, length, take, drop,
}

pub data WireError : Type 0 where
  truncated invalid_utf8 invalid_kind invalid_direction : WireError
  invalid_method_flag open_frame_missing_method method_only_for_open : WireError

pub data Result {ℓ} (A : Type ℓ) : Type ℓ where
  ok : A → Result A
  err : WireError → Result A

infixl 5 ◌>>=◌
abbrev pub ◌>>=◌ {ℓ κ} : {A : Type ℓ} {B : Type κ} → Result A → (A → Result B) → Result B
ok a >>= f = f a
err e >>= f = err e

abbrev pub Bytes : Type 0
Bytes = List ℕ

-- What is read, and the bytes that are left.
abbrev pub Read {ℓ} : Type ℓ → Type ℓ
Read A = Result (A × Bytes)

-- `std::str::from_utf8`: how many bytes of a character are missing and the range of the next one.
abbrev pub Utf8State : Type 0
Utf8State = ℕ × ℕ × ℕ

unfoldable pub between : ℕ → ℕ → ℕ → Bool
between lo hi b = leb lo b && leb b hi

unfoldable pub utf8_start : ℕ → Option Utf8State
unfolding between
utf8_start b =
    if leb b 0x7F
    then some (0, 0, 0)
    else if between 0xC2 0xDF b
    then some (1, 0x80, 0xBF)
    else if b == 0xE0
    then some (2, 0xA0, 0xBF)
    else if b == 0xED
    then some (2, 0x80, 0x9F)
    else if between 0xE1 0xEF b
    then some (2, 0x80, 0xBF)
    else if b == 0xF0
    then some (3, 0x90, 0xBF)
    else if between 0xF1 0xF3 b
    then some (3, 0x80, 0xBF)
    else if b == 0xF4
    then some (3, 0x80, 0x8F)
    else none

unfoldable pub utf8_step : Utf8State → ℕ → Option Utf8State
unfolding utf8_start between
utf8_step (zero, lo, hi) b = utf8_start b
utf8_step (suc n, lo, hi) b = if between lo hi b then some (n, 0x80, 0xBF) else none

unfoldable pub utf8_from : Utf8State → Bytes → Bool
unfolding utf8_step
utf8_from s [] = s.0 == 0
utf8_from s (b ∷ bs) = elim (utf8_step s b) [ none ↦ false | some s' ↦ utf8_from s' bs ]

abbrev pub is_utf8 : Bytes → Bool
is_utf8 bs = utf8_from (0, 0, 0) bs

-- Little-endian numbers of `n` bytes.
unfoldable pub le_bytes : ℕ → ℕ → Bytes
le_bytes zero v = []
le_bytes (suc n) v = v % 256 ∷ le_bytes n (v / 256)

unfoldable pub from_le : Bytes → ℕ
from_le [] = 0
from_le (b ∷ bs) = b + 256 * from_le bs

unfoldable pub get_le : ℕ → Bytes → Read ℕ
unfolding from_le
get_le n buf = if ltb (length buf) n then err truncated else ok (from_le (take n buf), drop n buf)

abbrev pub put_u32 : ℕ → Bytes
put_u32 v = le_bytes 4 v

abbrev pub get_u32 : Bytes → Read ℕ
get_u32 = get_le 4

abbrev pub put_u64 : ℕ → Bytes
put_u64 v = le_bytes 8 v

abbrev pub get_u64 : Bytes → Read ℕ
get_u64 = get_le 8

abbrev pub put_u8 : ℕ → Bytes
put_u8 v = le_bytes 1 v

abbrev pub get_u8 : Bytes → Read ℕ
get_u8 = get_le 1

unfoldable pub put_bytes : Bytes → Bytes
unfolding le_bytes
put_bytes bytes = put_u32 (length bytes % 2 ^ 32) ++ bytes

-- `split_to` after the check of its bound.
unfoldable pub split_to : ℕ → Bytes → Read Bytes
split_to len buf = if ltb (length buf) len then err truncated else ok (take len buf, drop len buf)

unfoldable pub get_bytes : Bytes → Read Bytes
unfolding get_le split_to
get_bytes buf = do len ← get_u32 buf; split_to len.0 len.1

abbrev pub put_string : Bytes → Bytes
put_string s = put_bytes s

unfoldable pub check_utf8 : Bytes × Bytes → Read Bytes
unfolding utf8_from
check_utf8 b = if is_utf8 b.0 then ok b else err invalid_utf8

unfoldable pub get_string : Bytes → Read Bytes
unfolding get_bytes check_utf8
get_string buf = get_bytes buf >>= check_utf8

-- The entries of a metadata map, without their number.
unfoldable pub put_entries : List (Bytes × Bytes) → Bytes
unfolding put_bytes
put_entries [] = []
put_entries ((k, v) ∷ entries) = put_string k ++ (put_string v ++ put_entries entries)

unfoldable pub put_kv : List (Bytes × Bytes) → Bytes
unfolding put_entries le_bytes
put_kv entries = put_u32 (length entries % 2 ^ 32) ++ put_entries entries

unfoldable pub get_entries : ℕ → Bytes → Read (List (Bytes × Bytes))
unfolding get_string
get_entries zero buf = ok ([], buf)
get_entries (suc n) buf = do
  k ← get_string buf
  v ← get_string k.1
  rest ← get_entries n v.1
  ok ((k.0, v.0) ∷ rest.0, rest.1)

unfoldable pub get_kv : Bytes → Read (List (Bytes × Bytes))
unfolding get_entries get_le
get_kv buf = do n ← get_u32 buf; get_entries n.0 n.1
