-- ===== src/Core/Ids.antt =====
-- des-core/src/ids.rs: identifiers derived from a seed, a domain and a counter. A `Uuid` is its 128
-- bits as a number.
use Prim.Native.Nat.{bit_xor}
use des_cartes.Prelude.{ℕ, ◌+◌, ◌*◌, ◌/◌, ◌^◌, add_u64, mul_u64}

abbrev pub Uuid : Type 0
Uuid = ℕ

unfoldable pub splitmix64 : ℕ → ℕ
splitmix64 x0 =
    let x = add_u64 x0 0x9E37_79B9_7F4A_7C15 in
    let y = mul_u64 (bit_xor x (x / 2 ^ 30)) 0xBF58_476D_1CE4_E5B9 in
    let z = mul_u64 (bit_xor y (y / 2 ^ 27)) 0x94D0_49BB_1331_11EB in bit_xor z (z / 2 ^ 31)

unfoldable pub deterministic_uuid : ℕ → ℕ → ℕ → Uuid
unfolding splitmix64
deterministic_uuid seed domain counter =
    let x0 = bit_xor (bit_xor seed domain) counter in
    splitmix64 (add_u64 x0 0xD1B5_4A32_D192_ED03) * 2 ^ 64 + splitmix64 x0

abbrev pub uuid_domain_component : ℕ
uuid_domain_component = 0x434F_4D50_4F4E_454E

abbrev pub uuid_domain_task : ℕ
uuid_domain_task = 0x5441_534B_5F49_445F
