-- ===== src/Bitcoin.antt =====
-- src/blockchain/bitcoin.rs, `get_address` of src/storage/vault_bitcoin.rs and `validate` of
-- src/sign/bitcoin.rs.
pub mod Versions
pub mod Amounts
pub mod Text
pub mod Addresses
use emerald_rs.Prelude.{
  ℕ, ◌+◌, ◌-◌, ◌%◌, ◌^◌, ◌≡◌, ◌==◌, ltb, if◌then◌else◌, not, Bool, true, false, Option, none, some,
  List, [], ◌∷◌, Result, ok, err, ok_or, map_ok, map_err, ◌>>=◌, ◌>>◌,
}
use emerald_rs.Chains.{Blockchain, Network, bitcoin, testnet, regtest, as_bitcoin_network}
use emerald_rs.Structs.{
  VaultError, conversion_error, ConversionError, unsupported_value, invalid_private_key,
  private_key_unavailable, XPub, ExtendedPubKey, AddressType, p2pkh, p2sh, p2wpkh_in_p2sh,
  p2wsh_in_p2sh, p2wpkh, p2wsh, Purpose, pubkey, script_hash, witness, custom, StandardHdPath,
  AccountHdPath,
}

-- Key derivation by the `bitcoin` and `hdpath` crates.
pub record KeyLib : Type 0 where
  -- `generate_key` and `EthereumPrivateKey::try_from`
  pub ethereum_key : StandardHdPath → List ℕ → Result VaultError (List ℕ)
  -- `StandardHDPath::try_from(hd_path.to_string())`
  pub reparse : StandardHdPath → Option StandardHdPath
  -- `ExtendedPrivKey::new_master`
  pub master : Network → List ℕ → Option (List ℕ)
  -- `PathValue::is_ok`
  pub is_path_value : ℕ → Bool
  -- `master.derive_priv` and `ExtendedPubKey::from_private`, on a master key of a network
  pub derive_pub : Network → List ℕ → AccountHdPath → Option ExtendedPubKey
  pub derive_pub_network :
      (network : Network) (master : List ℕ) (path : AccountHdPath) (key : ExtendedPubKey)
      → derive_pub network master path ≡ some key
      → key.network ≡ network

abbrev pub is_bitcoin : Network → Bool
is_bitcoin Network.bitcoin = true
is_bitcoin _ = false

unfoldable pub network_value {ℓ} : {T : Type ℓ} → Network → T → T → T
network_value network mainnet testnet_value = if is_bitcoin network then mainnet else testnet_value

unfoldable pub xpub_version : AddressType → Network → ℕ
unfolding network_value
xpub_version p2pkh network = network_value network 0x0488b21e 0x043587cf
xpub_version p2sh network = network_value network 0x0488b21e 0x043587cf
xpub_version p2wpkh_in_p2sh network = network_value network 0x049d7cb2 0x044a5262
xpub_version p2wsh_in_p2sh network = network_value network 0x0295b43f 0x024289ef
xpub_version p2wpkh network = network_value network 0x04b24746 0x045f1cf6
xpub_version p2wsh network = network_value network 0x02aa7ed3 0x02575483

unfoldable pub xprv_version : AddressType → Network → ℕ
unfolding network_value
xprv_version p2pkh network = network_value network 0x0488ade4 0x04358394
xprv_version p2sh network = network_value network 0x0488ade4 0x04358394
xprv_version p2wpkh_in_p2sh network = network_value network 0x049d7878 0x044a4e28
xprv_version p2wsh_in_p2sh network = network_value network 0x0295b005 0x024285b5
xprv_version p2wpkh network = network_value network 0x04b2430c 0x045f18bc
xprv_version p2wsh network = network_value network 0x02aa7a99 0x02575048

coin_type_of : Network → ℕ
coin_type_of Network.bitcoin = 0
coin_type_of Network.testnet = 1
coin_type_of Network.regtest = 1

unfoldable pub get_hd_path : AddressType → ℕ → Network → AccountHdPath
unfolding coin_type_of
get_hd_path p2pkh account network = record {
  purpose = pubkey;
  coin_type = coin_type_of network;
  account = account;
}
get_hd_path p2sh account network = record {
  purpose = pubkey;
  coin_type = coin_type_of network;
  account = account;
}
get_hd_path p2wpkh_in_p2sh account network = record {
  purpose = script_hash;
  coin_type = coin_type_of network;
  account = account;
}
get_hd_path p2wsh_in_p2sh account network = record {
  purpose = script_hash;
  coin_type = coin_type_of network;
  account = account;
}
get_hd_path p2wpkh account network = record {
  purpose = witness;
  coin_type = coin_type_of network;
  account = account;
}
get_hd_path p2wsh account network = record {
  purpose = witness;
  coin_type = coin_type_of network;
  account = account;
}

-- `AddressType::try_from(purpose)`. The number of a purpose in the message is left out.
unfoldable pub type_of_purpose : Purpose → Result VaultError AddressType
type_of_purpose witness = ok p2wpkh
type_of_purpose script_hash = ok p2wpkh_in_p2sh
type_of_purpose pubkey = ok p2pkh
type_of_purpose (custom n) = err (conversion_error (unsupported_value "purpose"))

-- `AddressTypeNetwork::try_from(version)`
unfoldable pub type_of_version : ℕ → Result ConversionError (Network × AddressType)
type_of_version value =
    if value == 0x0488b21e
    then ok (Network.bitcoin, p2pkh)
    else if value == 0x049d7cb2
    then ok (Network.bitcoin, p2wpkh_in_p2sh)
    else if value == 0x0295b43f
    then ok (Network.bitcoin, p2wsh_in_p2sh)
    else if value == 0x04b24746
    then ok (Network.bitcoin, p2wpkh)
    else if value == 0x02aa7ed3
    then ok (Network.bitcoin, p2wsh)
    else if value == 0x043587cf
    then ok (Network.testnet, p2pkh)
    else if value == 0x044a5262
    then ok (Network.testnet, p2wpkh_in_p2sh)
    else if value == 0x024289ef
    then ok (Network.testnet, p2wsh_in_p2sh)
    else if value == 0x045f1cf6
    then ok (Network.testnet, p2wpkh)
    else if value == 0x02575483
    then ok (Network.testnet, p2wsh)
    else err (unsupported_value "version")

-- `get_address` of vault_bitcoin.rs
unfoldable pub account_xpub :
    KeyLib → Blockchain → AddressType → ℕ → List ℕ → Result VaultError XPub
account_xpub lib blockchain address_type account seed = do
  let network = as_bitcoin_network blockchain
  master ← ok_or invalid_private_key (lib.master network seed)
  if not (lib.is_path_value account) then err private_key_unavailable else do
    value ←
        ok_or private_key_unavailable
          (lib.derive_pub network master (get_hd_path address_type account network))
    ok (record { value = value; address_type = address_type })

-- What `validate` reads of a `BitcoinTransferProposal`: the values of its inputs and outputs, and
-- its fee.
pub record Transfer : Type 0 where
  pub inputs : List ℕ
  pub outputs : List ℕ
  pub expected_fee : ℕ

pub data BitcoinTxError : Type 0 where
  insufficient_funds : ℕ → ℕ → BitcoinTxError
  large_fee incorrect_fee no_outputs no_inputs : BitcoinTxError

abbrev pub fee_max : ℕ
fee_max = 5000000

-- `iter().sum()` over `u64`, which wraps around in a release build.
unfoldable pub sum_u64 : ℕ → List ℕ → ℕ
sum_u64 acc [] = acc
sum_u64 acc (x ∷ xs) = sum_u64 ((acc + x) % 2 ^ 64) xs

unfoldable pub validate : Transfer → Result BitcoinTxError (Unit {0})
validate p =
    let send = sum_u64 0 p.inputs in
    let receive = sum_u64 0 p.outputs in
    if send == 0
    then err no_inputs
    else if receive == 0
    then err no_outputs
    else if ltb send receive
    then err (insufficient_funds send receive)
    else if not (p.expected_fee == send - receive)
    then err incorrect_fee
    else if ltb fee_max p.expected_fee
    then err large_fee
    else ok tt
