-- ===== src/Tests/Messages.antt =====
-- The libraries of the conversions and the formats of the messages at concrete functions. A text is written
-- when it is empty or "main".
use emerald_rs.Prelude.{
  ℕ, ◌*◌, ◌^◌, ◌<◌, ◌≡◌, refl, sym, ap, ◌==◌, ==_iff, arith, String, str_eq, eq_iff, Bool,
  if◌then◌else◌, Option, none, some, List, [], ◌∷◌, length, ok,
}
use emerald_rs.Prelude.Bytes.{be_value, be_bytes, be_value-be_bytes, length-be_bytes}
use emerald_rs.Structs.{Uuid, Purpose, pubkey, script_hash, witness, custom}
use emerald_rs.Ethereum.Address.{Hex}
use emerald_rs.Convert.Messages.{
  FileType, file_unknown, file_wallet, file_pk, file_seed, file_book, ProtoAddress,
  ProtoAddressRefType, plain_address, xpub, ProtoReserved, ProtoWalletEntryPkType, hd_path, pk_id,
  ProtoWalletEntry, ProtoWallet, ProtoBookItem, ProtoSeed, ProtoSeedType, ProtoHdFingerprint,
  ProtoPrivateKey, ProtoPkType, ethereum, other, ProtoEthereumPrivateKey, ProtoEthereumPk3,
  ProtoEncrypted, ProtoMac, ProtoMacType, mac_web3, mac_unknown, ProtoCipherType, cipher_aes128_ctr,
  cipher_unknown, ProtoKdfType, kdf_scrypt, kdf_pbkdf, ProtoScryptKdf,
}
use emerald_rs.Convert.Crates.{ConvertLib, Wire, IsPurpose}
use emerald_rs.Tests.Codecs.{Codec, number, via, iso, pair, option, list, wire}

abbrev pub hex : Hex
hex = record { encode = λ bs. bs; decode = λ bs. some bs; decode-encode = λ bs h. refl }

abbrev pub uuid_of : List ℕ → Option Uuid
uuid_of bs = if length bs == 16 then some (be_value bs) else none

abbrev pub uuid_bytes : Uuid → List ℕ
uuid_bytes id = be_bytes 16 id

pub uuid_law : (id : Uuid) → id < 2 ^ 128 → uuid_of (uuid_bytes id) ≡ some id
uuid_law id h = rw ((==_iff _ 16).1 (length-be_bytes 16 id), be_value-be_bytes 16 id h) refl

abbrev pub number_of_purpose : Purpose → ℕ
number_of_purpose pubkey = 44
number_of_purpose script_hash = 49
number_of_purpose witness = 84
number_of_purpose (custom n) = n

abbrev pub purpose_of_number : ℕ → Option Purpose
purpose_of_number n =
    if n == 44
    then some pubkey
    else if n == 49
    then some script_hash
    else if n == 84
    then some witness
    else some (custom n)

pub purpose_law : (p : Purpose) → IsPurpose p → purpose_of_number (number_of_purpose p) ≡ some p
purpose_law pubkey h = refl
purpose_law script_hash h = refl
purpose_law witness h = refl
purpose_law (custom n) h = ground (arith, h)

abbrev pub convert_lib : ConvertLib
convert_lib = record {
  as_bytes = uuid_bytes;
  from_slice = uuid_of;
  timestamp_millis_opt = λ t. some (t * 1_000_000);
  time_limit = 2 ^ 62;
  purpose_number = number_of_purpose;
  purpose_of = purpose_of_number;
  try_new =
      λ p c a ch i. ok (record { purpose = p; coin_type = c; account = a; change = ch; index = i });
  hex = hex;
  public_key_from_slice = λ bs. some bs;
  from_slice-as_bytes = uuid_law;
  time_limit_bound = omega arith;
  timestamp_millis_opt_lem = λ t h. refl;
  purpose_of-purpose_number = purpose_law;
  try_new_lem = λ p h. refl;
}

abbrev pub text_number : String → Option ℕ
text_number s = if str_eq s "" then some 0 else if str_eq s "main" then some 1 else none

abbrev pub number_text : ℕ → String
number_text n = if n == 0 then "" else "main"

pub text_law : (s : String) (n : ℕ) → text_number s ≡ some n → number_text n ≡ s
text_law s n h = ground (arith, (eq_iff s "").0, (eq_iff s "main").0, h)

abbrev text : Codec String
text = via number number_text text_number text_law

abbrev pub type_of_number : ℕ → FileType
type_of_number n =
    if n == 1
    then file_wallet
    else if n == 2
    then file_pk
    else if n == 3
    then file_seed
    else if n == 4
    then file_book
    else file_unknown

abbrev pub number_of_type : FileType → ℕ
number_of_type file_unknown = 0
number_of_type file_wallet = 1
number_of_type file_pk = 2
number_of_type file_seed = 3
number_of_type file_book = 4

pub type_law : (t : FileType) (n : ℕ) → some (number_of_type t) ≡ some n → type_of_number n ≡ t
type_law t n h = ground arith

abbrev file_type : Codec FileType
file_type = via number type_of_number (λ t. some (number_of_type t)) type_law

pub bool_law : (b : Bool) (n : ℕ) → some (if b then 1 else 0) ≡ some n → (n == 1) ≡ b
bool_law b n h = ground arith

abbrev boolean : Codec Bool
boolean = via number (λ n. n == 1) (λ b. some (if b then 1 else 0)) bool_law

-- Bytes are written with their number.
abbrev octets : Codec (List ℕ)
octets = list number

abbrev pub plain : ProtoAddress → Option (Option (List ℕ))
plain a = elim a.address_type [
  | none ↦ some none
  | some r ↦ elim r [ xpub _ ↦ none | plain_address bs ↦ some (some bs) ]
]

abbrev pub of_plain : Option (List ℕ) → ProtoAddress
of_plain none = record { address_type = none }
of_plain (some bs) = record { address_type = some (plain_address bs) }

pub plain_law : (a : ProtoAddress) (o : Option (List ℕ)) → plain a ≡ some o → of_plain o ≡ a
plain_law a o h = go a.address_type refl h
  where
    go :
        (t : Option ProtoAddressRefType)
        → a.address_type ≡ t
        → plain (record { address_type = t }) ≡ some o
        → of_plain o ≡ a
    go none is h =
        let e : none ≡ o = cc in rw (← e) (ap (λ t. record { address_type = t }) (sym is))
    go (some (xpub x)) is h = cc
    go (some (plain_address bs)) is h =
        let e : some bs ≡ o = cc in rw (← e) (ap (λ t. record { address_type = t }) (sym is))

abbrev address : Codec ProtoAddress
address = via (option octets) of_plain plain plain_law

abbrev reserved : Codec ProtoReserved
reserved =
    iso (pair octets number) (λ p. record { seed_id = p.0; account_id = p.1 })
      (λ r. (r.seed_id, r.account_id)) (λ r. refl)

abbrev pub private_key_of : ProtoWalletEntryPkType → Option (List ℕ)
private_key_of (hd_path _) = none
private_key_of (pk_id bs) = some bs

pub pk_law : (t : ProtoWalletEntryPkType) (bs : List ℕ) → private_key_of t ≡ some bs → pk_id bs ≡ t
pk_law t bs h = ground arith

abbrev pk_type : Codec ProtoWalletEntryPkType
pk_type = via octets pk_id private_key_of pk_law

abbrev entry : Codec ProtoWalletEntry
entry =
    iso
      (pair (pair (pair number number) (pair boolean (option address)))
        (pair text (pair number (option pk_type))))
      (λ p. record {
        id = p.0.0.0;
        blockchain_id = p.0.0.1;
        receive_disabled = p.0.1.0;
        address = p.0.1.1;
        label = p.1.0;
        created_at = p.1.1.0;
        pk_type = p.1.1.1;
      })
      (λ e. (
        ((e.id, e.blockchain_id), (e.receive_disabled, e.address)),
        (e.label, (e.created_at, e.pk_type)),
      ))
      (λ e. refl)

abbrev pub wallet_wire : Wire ProtoWallet
wallet_wire = wire (
    iso
      (pair (pair (pair file_type octets) (pair text (list reserved)))
        (pair (list entry) (pair number number)))
      (λ p. record {
        file_type = p.0.0.0;
        id = p.0.0.1;
        label = p.0.1.0;
        hd_accounts = p.0.1.1;
        entries = p.1.0;
        entry_seq = p.1.1.0;
        created_at = p.1.1.1;
      })
      (λ w.
        (((w.file_type, w.id), (w.label, w.hd_accounts)), (w.entries, (w.entry_seq, w.created_at))))
      (λ w. refl))

abbrev pub book_wire : Wire ProtoBookItem
book_wire = wire (
    iso (pair (pair file_type (pair text text)) (pair number (pair (option address) number)))
      (λ p. record {
        file_type = p.0.0;
        label = p.0.1.0;
        description = p.0.1.1;
        blockchain = p.1.0;
        address = p.1.1.0;
        created_at = p.1.1.1;
      })
      (λ b. ((b.file_type, (b.label, b.description)), (b.blockchain, (b.address, b.created_at))))
      (λ b. refl))

abbrev pub ledger_of : ProtoSeedType → Option (Unit {0})
ledger_of (ProtoSeedType.bytes _) = none
ledger_of (ProtoSeedType.ledger l) = elim l.fingerprints [ [] ↦ some tt | _ ∷ _ ↦ none ]

abbrev pub new_ledger : ProtoSeedType
new_ledger = ProtoSeedType.ledger (record { fingerprints = [] })

pub ledger_law : (t : ProtoSeedType) (u : Unit {0}) → ledger_of t ≡ some u → new_ledger ≡ t
ledger_law (ProtoSeedType.bytes _) u h = cc
ledger_law (ProtoSeedType.ledger l) u h = go l.fingerprints refl h
  where
    go :
        (fs : List ProtoHdFingerprint)
        → l.fingerprints ≡ fs
        → ledger_of (ProtoSeedType.ledger (record { fingerprints = fs })) ≡ some u
        → new_ledger ≡ ProtoSeedType.ledger l
    go [] is h = ap (λ fs. ProtoSeedType.ledger (record { fingerprints = fs })) (sym is)
    go (f ∷ fs) is h = cc

pub unit_law : (u : Unit {0}) (n : ℕ) → some 0 ≡ some n → tt ≡ u
unit_law u n h = refl

abbrev seed_type : Codec ProtoSeedType
seed_type =
    via {A = Unit {0}} (via number (λ _. tt) (λ _. some 0) unit_law) (λ _. new_ledger) ledger_of
      ledger_law

abbrev pub seed_wire : Wire ProtoSeed
seed_wire = wire (
    iso (pair (pair file_type octets) (pair text (pair number (option seed_type))))
      (λ p. record {
        file_type = p.0.0;
        id = p.0.1;
        label = p.1.0;
        created_at = p.1.1.0;
        seed_source = p.1.1.1;
      })
      (λ s. ((s.file_type, s.id), (s.label, (s.created_at, s.seed_source)))) (λ s. refl))

abbrev pub scrypt_of : ProtoKdfType → Option ProtoScryptKdf
scrypt_of (kdf_scrypt k) = some k
scrypt_of (kdf_pbkdf _) = none

pub scrypt_law : (t : ProtoKdfType) (k : ProtoScryptKdf) → scrypt_of t ≡ some k → kdf_scrypt k ≡ t
scrypt_law t k h = ground arith

abbrev kdf : Codec ProtoKdfType
kdf =
    via
      (iso (pair (pair number octets) (pair number (pair number number)))
        (λ p. record { dklen = p.0.0; salt = p.0.1; n = p.1.0; r = p.1.1.0; p = p.1.1.1 })
        (λ k. ((k.dklen, k.salt), (k.n, (k.r, k.p)))) (λ k. refl))
      kdf_scrypt scrypt_of scrypt_law

abbrev pub mac_number : ProtoMacType → ℕ
mac_number mac_unknown = 0
mac_number mac_web3 = 1

pub mac_law : (t : ProtoMacType) → (if mac_number t == 0 then mac_unknown else mac_web3) ≡ t
mac_law t = ground arith

abbrev mac : Codec ProtoMac
mac =
    iso
      (pair (iso number (λ n. if n == 0 then mac_unknown else mac_web3) mac_number mac_law) octets)
      (λ p. record { field_type = p.0; value = p.1 }) (λ m. (m.field_type, m.value)) (λ m. refl)

abbrev pub cipher_number : ProtoCipherType → ℕ
cipher_number cipher_unknown = 0
cipher_number cipher_aes128_ctr = 1

pub cipher_law :
    (t : ProtoCipherType) → (if cipher_number t == 0 then cipher_unknown else cipher_aes128_ctr) ≡ t
cipher_law t = ground arith

abbrev encrypted : Codec ProtoEncrypted
encrypted =
    iso
      (pair
        (pair
          (iso number (λ n. if n == 0 then cipher_unknown else cipher_aes128_ctr) cipher_number
            cipher_law)
          octets)
        (pair octets (pair (option mac) (option kdf))))
      (λ p. record {
        field_type = p.0.0;
        secret = p.0.1;
        iv = p.1.0;
        mac = p.1.1.0;
        kdf_type = p.1.1.1;
      })
      (λ e. ((e.field_type, e.secret), (e.iv, (e.mac, e.kdf_type)))) (λ e. refl)

abbrev pk3 : Codec ProtoEthereumPk3
pk3 =
    iso (pair octets (option encrypted)) (λ p. record { address = p.0; value = p.1 })
      (λ k. (k.address, k.value)) (λ k. refl)

abbrev pub ethereum_of : ProtoPkType → Option ProtoEthereumPrivateKey
ethereum_of (ethereum e) = some e
ethereum_of other = none

pub ethereum_law :
    (t : ProtoPkType) (e : ProtoEthereumPrivateKey) → ethereum_of t ≡ some e → ethereum e ≡ t
ethereum_law t e h = ground arith

abbrev key_kind : Codec ProtoPkType
key_kind =
    via (iso (option pk3) (λ o. record { pk = o }) (λ e. e.pk) (λ e. refl)) ethereum ethereum_of
      ethereum_law

abbrev pub key_wire : Wire ProtoPrivateKey
key_wire = wire (
    iso (pair (pair file_type octets) (pair number (option key_kind)))
      (λ p. record { file_type = p.0.0; id = p.0.1; created_at = p.1.0; pk = p.1.1 })
      (λ k. ((k.file_type, k.id), (k.created_at, k.pk))) (λ k. refl))
