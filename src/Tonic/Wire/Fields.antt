-- ===== src/Tonic/Wire/Fields.antt =====
-- Each field that des-tonic/src/wire.rs writes is read back, whatever follows it.
use des_cartes.Prelude.{
  ℕ, zero, suc, ◌/◌, ◌%◌, ◌^◌, ◌<◌, ◌≡◌, refl, sym, ap, ◌∙◌, subst, true, false, List, [], ◌∷◌,
  ◌++◌, ltb, length, take, drop, length-append, append_assoc, All, arith,
}
use des_cartes.Tonic.Wire.{
  Bytes, Result, ok, ◌>>=◌, le_bytes, from_le, get_le, put_u32, get_u32, put_bytes, split_to,
  get_bytes, put_string, check_utf8, get_string, is_utf8, put_entries, put_kv, get_entries, get_kv,
}

-- The number fits in `n` bytes.
abbrev pub Fits : ℕ → ℕ → Type 0
Fits zero v = v ≡ 0
Fits (suc n) v = Fits n (v / 256)

-- A length that the prefix of four bytes can hold.
abbrev pub IsShort {ℓ} : {A : Type ℓ} → List A → Type 0
IsShort xs = length xs < 2 ^ 32

pub bind-ok {ℓ κ} :
    {A : Type ℓ} {B : Type κ} {r : Result A} {a : A} (f : A → Result B) → r ≡ ok a → (r >>= f) ≡ f a
bind-ok f e = rw e refl

length-le_bytes : (n v : ℕ) → length (le_bytes n v) ≡ n
unfolding le_bytes
length-le_bytes zero v = refl
length-le_bytes (suc n) v = ap suc (length-le_bytes n (v / 256))

from_le-le_bytes : (n v : ℕ) → Fits n v → from_le (le_bytes n v) ≡ v
unfolding from_le le_bytes
from_le-le_bytes zero v h = sym h
from_le-le_bytes (suc n) v h = omega (arith, from_le-le_bytes n (v / 256) h)

take_append : (xs rest : Bytes) → take (length xs) (xs ++ rest) ≡ xs
take_append [] rest = refl
take_append (x ∷ xs) rest = ap (λ ys. x ∷ ys) (take_append xs rest)

drop_append : (xs rest : Bytes) → drop (length xs) (xs ++ rest) ≡ rest
drop_append [] rest = refl
drop_append (x ∷ xs) rest = drop_append xs rest

long_enough : (xs rest : Bytes) → ltb (length (xs ++ rest)) (length xs) ≡ false
long_enough xs rest = ground (arith, length-append xs rest)

pub get_le-le_bytes :
    (n v : ℕ) (rest : Bytes) → Fits n v → get_le n (le_bytes n v ++ rest) ≡ ok (v, rest)
unfolding get_le
get_le-le_bytes n v rest h =
    subst (λ m. get_le m (le_bytes n v ++ rest) ≡ ok (v, rest)) (length-le_bytes n v)
      (rw
        (
          long_enough (le_bytes n v) rest,
          take_append (le_bytes n v) rest,
          drop_append (le_bytes n v) rest,
          from_le-le_bytes n v h,
        )
        refl)

split_to-append : (xs rest : Bytes) → split_to (length xs) (xs ++ rest) ≡ ok (xs, rest)
unfolding split_to
split_to-append xs rest = rw (long_enough xs rest, take_append xs rest, drop_append xs rest) refl

-- A count that fits is read back.
get_u32-count {ℓ} :
    {A : Type ℓ} (xs : List A) (rest : Bytes)
    → IsShort xs
    → get_u32 (put_u32 (length xs % 2 ^ 32) ++ rest) ≡ ok (length xs, rest)
get_u32-count xs rest h =
    let small : length xs % 2 ^ 32 ≡ length xs = omega (arith, h) in
    subst (λ n. get_u32 (put_u32 n ++ rest) ≡ ok (length xs, rest)) (sym small)
      (get_le-le_bytes 4 (length xs) rest (omega (arith, h)))

pub get_bytes-put_bytes :
    (xs rest : Bytes) → IsShort xs → get_bytes (put_bytes xs ++ rest) ≡ ok (xs, rest)
unfolding get_bytes put_bytes
get_bytes-put_bytes xs rest h =
    subst (λ buf. (get_u32 buf >>= λ len. split_to len.0 len.1) ≡ ok (xs, rest))
      (sym (append_assoc (put_u32 (length xs % 2 ^ 32)) xs rest))
      (bind-ok (λ len. split_to len.0 len.1) (get_u32-count xs (xs ++ rest) h)
        ∙ split_to-append xs rest)

-- A string that can be sent: valid UTF-8 of a length that its prefix holds.
abbrev pub IsText : Bytes → Type 0
IsText s = IsShort s × (is_utf8 s ≡ true)

check_utf8-valid : (s rest : Bytes) → is_utf8 s ≡ true → check_utf8 (s, rest) ≡ ok (s, rest)
unfolding check_utf8
check_utf8-valid s rest h = rw h refl

pub get_string-put_string :
    (s rest : Bytes) → IsText s → get_string (put_string s ++ rest) ≡ ok (s, rest)
unfolding get_string
get_string-put_string s rest h =
    bind-ok check_utf8 (get_bytes-put_bytes s rest h.0) ∙ check_utf8-valid s rest h.1

abbrev pub IsEntry : Bytes × Bytes → Type 0
IsEntry (k, v) = IsText k × IsText v

get_entries-put_entries :
    (entries : List (Bytes × Bytes)) (rest : Bytes)
    → All IsEntry entries
    → get_entries (length entries) (put_entries entries ++ rest) ≡ ok (entries, rest)
unfolding get_entries put_entries
get_entries-put_entries [] rest h = refl
get_entries-put_entries ((k, v) ∷ entries) rest h =
    let tail = put_entries entries ++ rest in
    let joined : put_entries ((k, v) ∷ entries) ++ rest ≡ put_string k ++ (put_string v ++ tail) =
      append_assoc (put_string k) (put_string v ++ put_entries entries) rest
      ∙ ap (λ b. put_string k ++ b) (append_assoc (put_string v) (put_entries entries) rest) in
    subst (λ buf. get_entries (suc (length entries)) buf ≡ ok ((k, v) ∷ entries, rest)) (sym joined)
      (bind-ok _ (get_string-put_string k (put_string v ++ tail) h.0.0)
        ∙ bind-ok _ (get_string-put_string v tail h.0.1)
        ∙ bind-ok _ (get_entries-put_entries entries rest h.1))

-- A metadata map that can be sent.
abbrev pub IsMetadata : List (Bytes × Bytes) → Type 0
IsMetadata entries = IsShort entries × All IsEntry entries

pub get_kv-put_kv :
    (entries : List (Bytes × Bytes)) (rest : Bytes)
    → IsMetadata entries
    → get_kv (put_kv entries ++ rest) ≡ ok (entries, rest)
unfolding get_kv put_kv
get_kv-put_kv entries rest h =
    rw (append_assoc (put_u32 (length entries % 2 ^ 32)) (put_entries entries) rest) (
      bind-ok _ (get_u32-count entries (put_entries entries ++ rest) h.0)
      ∙ get_entries-put_entries entries rest h.1)
