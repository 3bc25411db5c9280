-- ===== src/NativeHyperliquid/Sign.antt =====
-- What is hashed and signed for an action.
use Prim.Native.String.{String}
use hl_maker_lighter_arb_cpp.Common.{
  ℕ, ◌-◌, ◌*◌, ◌/◌, ◌%◌, ◌^◌, Option, none, some, List, [], ◌∷◌, ◌++◌, length, set, ◌==◌,
  if◌then◌else◌,
}
use hl_maker_lighter_arb_cpp.Scan.{◌>>=◌}
use hl_maker_lighter_arb_cpp.Msgpack.Bytes.{ByteBuffer, big_endian}
use hl_maker_lighter_arb_cpp.Crypto.Permutation.{for_below}
use hl_maker_lighter_arb_cpp.Crypto.Hash.{keccak256, repeated}
use hl_maker_lighter_arb_cpp.Crypto.Hex.{hex_to_bytes}
use hl_maker_lighter_arb_cpp.NativeHyperliquid.Client.{HyperliquidConfig, World}
use hl_maker_lighter_arb_cpp.NativeHyperliquid.Action.{codes, signature_json}

-- The flag of the vault, and its address.
unfoldable pub vault_bytes : HyperliquidConfig → Option (List ℕ)
vault_bytes config = elim config.vault_address [
  | none ↦ some (0x00 ∷ [])
  | some address ↦ hex_to_bytes address >>= (λ bytes. some (0x01 ∷ bytes))
]

unfoldable pub append_vault_and_nonce : HyperliquidConfig → ByteBuffer → ℕ → Option ByteBuffer
append_vault_and_nonce config out nonce =
    vault_bytes config >>= (λ vault. some (out ++ (big_endian 8 nonce ++ vault)))

-- `order_action_hash` and `cancel_action_hash`, of what they pack.
unfoldable pub action_hash : HyperliquidConfig → ByteBuffer → ℕ → Option (List ℕ)
action_hash config action nonce =
    append_vault_and_nonce config action nonce >>= (λ out. some (keccak256 out))

unfoldable pub uint256_word : ℕ → List ℕ
uint256_word value =
    for_below 8 0 (λ i out. set out (31 - i) (value / 2 ^ (8 * i) % 256)) (repeated 32 0)

-- The digest that is signed: the domain and the message, each hashed, behind 0x19 and 0x01.
unfoldable pub domain_separator : List ℕ
domain_separator = keccak256 (
    keccak256
      (codes "EIP712Domain(string name,string version,uint256 chainId,address verifyingContract)")
    ++ (keccak256 (codes "Exchange")
        ++ (keccak256 (codes "1") ++ (uint256_word 1337 ++ repeated 32 0))))

unfoldable pub message_hash : List ℕ → List ℕ
message_hash hash = keccak256 (
    keccak256 (codes "Agent(string source,bytes32 connectionId)")
    ++ (keccak256 (codes "a") ++ hash))

unfoldable pub digest : List ℕ → List ℕ
digest hash = keccak256 (0x19 ∷ 0x01 ∷ (domain_separator ++ message_hash hash))

unfoldable pub sign_l1_action : HyperliquidConfig → World → List ℕ → Option String
sign_l1_action config w hash = hex_to_bytes config.private_key >>= (λ priv.
    if length priv == 32
    then w.sign (digest hash) priv >>= (λ signed. some (signature_json signed.0 signed.1))
    else none)
