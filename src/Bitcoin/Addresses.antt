-- ===== src/Bitcoin/Addresses.antt =====
-- The addresses of extended keys and wallet entries: src/blockchain/addresses.rs, `find_path` of
-- src/blockchain/bitcoin.rs and `get_addresses` of src/structs/wallet.rs.
pub mod Search
pub mod Entries
use mathlib.Core.Option
use emerald_rs.Prelude.{
  ℕ, zero, suc, ◌+◌, ◌-◌, ◌%◌, ◌^◌, ◌<◌, ◌≡◌, ◌==◌, if◌then◌else◌, not, min, Bool, true, false,
  Option, none, some, List, [], ◌∷◌, Result, ok, err, ok_or, ◌>>=◌, ◌>>◌, Eq,
}
use emerald_rs.Chains.{Network}
use emerald_rs.Structs.{
  VaultError, public_key_unavailable, XPub, ExtendedPubKey, AddressType, p2wpkh, AddressRef,
  ethereum_address, bitcoin_address, extended_pub, EthereumAddress, Purpose, StandardHdPath,
  AccountHdPath, WalletEntry, account_hd,
}
use emerald_rs.Structs.Roles.{AddressRole, receive, change, default}
use emerald_rs.Bitcoin.{is_bitcoin}

-- What the crates `bitcoin` and `hdpath` do.
pub record HdLib : Type 0 where
  -- `ckd_pub` at `ChildNumber::from_normal_idx(n)`; `none` if one of them fails
  pub child_pub : ExtendedPubKey → ℕ → Option ExtendedPubKey
  -- `account.address_at(change, index).unwrap()` and `StandardHDPath::new`, at valid values
  pub address_at : AccountHdPath → ℕ → ℕ → StandardHdPath
  pub new_path : Purpose → ℕ → ℕ → ℕ → ℕ → StandardHdPath
  pub child_pub_index :
      (key child : ExtendedPubKey) (n : ℕ) → child_pub key n ≡ some child → n < 2 ^ 31
  pub address_at_lem :
      (account : AccountHdPath) (c i : ℕ)
      → c < 2 ^ 31
      → i < 2 ^ 31
      → address_at account c i ≡ record {
        purpose = account.purpose;
        coin_type = account.coin_type;
        account = account.account;
        change = c;
        index = i;
      }
  pub new_path_lem :
      (p : StandardHdPath) → new_path p.purpose p.coin_type p.account p.change p.index ≡ p

-- The traits `AddressFromPub` and `AddressCast`.
pub record Addresses (T : Type 0) : Type 0 where
  pub create : List ℕ → AddressType → Bool → Option T
  pub from_ethereum_address : EthereumAddress → Option T
  pub from_bitcoin_address : List ℕ → Option T

abbrev pub network_of : Bool → Network
network_of true = Network.bitcoin
network_of false = Network.testnet

abbrev create_bitcoin :
    (List ℕ → Network → Option (List ℕ)) → List ℕ → AddressType → Bool → Option (List ℕ)
create_bitcoin make_p2wpkh key p2wpkh mainnet = make_p2wpkh key (network_of mainnet)
create_bitcoin make_p2wpkh key _ mainnet = none

-- The traits for a Bitcoin address, with `Address::p2wpkh` as a parameter, and for an Ethereum address,
-- with that of a public key.
abbrev pub bitcoin_addresses : (List ℕ → Network → Option (List ℕ)) → Addresses (List ℕ)
bitcoin_addresses make_p2wpkh = record {
  create = create_bitcoin make_p2wpkh;
  from_ethereum_address = λ x. none;
  from_bitcoin_address = λ x. some x;
}

abbrev pub ethereum_addresses : (List ℕ → EthereumAddress) → Addresses EthereumAddress
ethereum_addresses address_of = record {
  create = λ key type mainnet. some (address_of key);
  from_ethereum_address = λ x. some x;
  from_bitcoin_address = λ x. none;
}

unfoldable pub is_account : XPub → Bool
is_account x = x.value.depth == 3

pub record EntryAddress (T : Type 0) : Type 0 where
  pub address : T
  pub hd_path : Option StandardHdPath
  pub role : AddressRole

module _ (lib : HdLib) where
  unfoldable pub for_type : XPub → ℕ → Result VaultError XPub
  for_type x n = do
    value ← ok_or public_key_unavailable (lib.child_pub x.value n)
    ok (record { value = value; address_type = x.address_type })

  abbrev pub for_receiving : XPub → Result VaultError XPub
  for_receiving x = for_type x 0

  abbrev pub for_change : XPub → Result VaultError XPub
  for_change x = for_type x 1

  module _ {T : Type 0} (addresses : Addresses T) where
    unfoldable pub get_address : XPub → ℕ → Result VaultError T
    get_address x index = do
      pk ← ok_or public_key_unavailable (lib.child_pub x.value index)
      ok_or public_key_unavailable
          (addresses.create pk.public_key x.address_type (is_bitcoin x.value.network))

    module _ ⦃e : Eq T⦄ where
      abbrev is_at : Result VaultError T → T → Bool
      is_at (ok act) address = e.beq act address
      is_at (err _) address = false

      -- The loop of `find_path` from the index `i`, with `left` rounds to go.
      unfoldable pub find_loop : XPub → XPub → AccountHdPath → T → ℕ → ℕ → Option StandardHdPath
      find_loop receiving changing account address i zero = none
      find_loop receiving changing account address i (suc left) =
          if is_at (get_address receiving i) address
          then some (lib.address_at account 0 i)
          else if is_at (get_address changing i) address
          then some (lib.address_at account 1 i)
          else find_loop receiving changing account address (i + 1) left

      abbrev find_in :
          Result VaultError XPub
          → Result VaultError XPub
          → AccountHdPath
          → T
          → ℕ
          → Option (Option StandardHdPath)
      find_in (ok receiving) (ok changing) account address left =
          some (find_loop receiving changing account address 0 left)
      find_in _ _ account address left = none

      -- `find_path`, where the outer `none` is the panic of `expect`.
      unfoldable pub find_path : XPub → AccountHdPath → T → ℕ → Option (Option StandardHdPath)
      unfolding find_loop is_account
      find_path x account address limit =
          if not (is_account x)
          then some none
          else find_in (for_receiving x) (for_change x) account address (min limit (0x80000000 - 1))

    -- `range(start, start + limit)`, whose end wraps around in a release build.
    unfoldable pub range : ℕ → ℕ → List ℕ
    range start zero = []
    range start (suc n) = start ∷ range (start + 1) n

    abbrev pub one_address :
        Option StandardHdPath
        → AddressRole
        → ℕ
        → Result VaultError T
        → List (EntryAddress T)
        → List (EntryAddress T)
    one_address base role n (err _) rest = rest
    one_address base role n (ok a) rest =
        record {
          address = a;
          hd_path = Option.map (λ p. lib.new_path p.purpose p.coin_type p.account p.change n) base;
          role = role;
        }
        ∷ rest

    -- The map and the filter of `get_addresses`.
    unfoldable pub addresses_of :
        XPub → Option StandardHdPath → AddressRole → List ℕ → List (EntryAddress T)
    addresses_of x base role [] = []
    addresses_of x base role (n ∷ ns) =
        one_address base role n (get_address x n) (addresses_of x base role ns)

    abbrev plain : Option T → List (EntryAddress T)
    plain none = []
    plain (some address) =
        record { address = address; hd_path = none; role = AddressRole.default } ∷ []

    -- The path of the first address, and the key of the role.
    abbrev pub account_role :
        WalletEntry → XPub → AddressRole → Result VaultError (Option StandardHdPath × XPub)
    account_role entry x AddressRole.receive = do
      key ← for_receiving x
      ok (Option.map (λ a. lib.address_at a 0 0) (account_hd entry), key)
    account_role entry x AddressRole.change = do
      key ← for_change x
      ok (Option.map (λ a. lib.address_at a 1 0) (account_hd entry), key)
    account_role entry x AddressRole.default = err public_key_unavailable

    abbrev index_role : XPub → AddressRole → Result VaultError (Option StandardHdPath × XPub)
    index_role x AddressRole.default = ok (none, x)
    index_role x _ = err public_key_unavailable

    abbrev pub extended :
        WalletEntry → AddressRole → ℕ → ℕ → XPub → Result VaultError (List (EntryAddress T))
    extended entry role start limit x = do
      (base, key) ← (if is_account x then account_role entry x role else index_role x role)
      ok (addresses_of key base role (range start ((start + limit) % 2 ^ 32 - start)))

    abbrev pub of_reference :
        WalletEntry
        → AddressRole
        → ℕ
        → ℕ
        → Option AddressRef
        → Result VaultError (List (EntryAddress T))
    of_reference entry role start limit none = ok []
    of_reference entry role start limit (some (ethereum_address value)) =
        ok (plain (addresses.from_ethereum_address value))
    of_reference entry role start limit (some (bitcoin_address value)) =
        ok (plain (addresses.from_bitcoin_address value))
    of_reference entry role start limit (some (extended_pub x)) = extended entry role start limit x

    -- `WalletEntry::get_addresses`
    unfoldable pub get_addresses :
        WalletEntry → AddressRole → ℕ → ℕ → Result VaultError (List (EntryAddress T))
    unfolding is_account range addresses_of
    get_addresses entry role start limit =
        if limit == 0 then ok [] else of_reference entry role start limit entry.address
