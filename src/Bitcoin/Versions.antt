-- ===== src/Bitcoin/Versions.antt =====
-- The version bytes of an extended key tell its network and address type.
use emerald_rs.Prelude.{ℕ, ◌≡◌, ◌≢◌, arith, ok}
use emerald_rs.Chains.{Network}
use emerald_rs.Structs.{AddressType, p2pkh, p2sh, Purpose}
use emerald_rs.Bitcoin.{xpub_version, xprv_version, type_of_version, get_hd_path, type_of_purpose}

-- The type that is read back: P2SH shares its version with P2PKH.
abbrev pub read_type : AddressType → AddressType
read_type p2sh = p2pkh
read_type t = t

-- A version of either network is read as that network and the type that it was written for, but
-- that P2SH is read as P2PKH.
pub type_of_version-xpub_version :
    (t : AddressType)
    → (type_of_version (xpub_version t Network.bitcoin) ≡ ok (Network.bitcoin, read_type t))
      × (type_of_version (xpub_version t Network.testnet) ≡ ok (Network.testnet, read_type t))
unfolding type_of_version xpub_version
type_of_version-xpub_version t = ground arith

-- A number is read as a network and a type only if it is the version of that type on that network.
pub type_of_version_sound :
    (v : ℕ) (n : Network) (t : AddressType) → type_of_version v ≡ ok (n, t) → xpub_version t n ≡ v
unfolding type_of_version xpub_version
type_of_version_sound v n t h = ground arith

-- No extended public key has the version of a private one.
pub xpub_version-ne-xprv_version :
    (t u : AddressType) (n m : Network) → xpub_version t n ≢ xprv_version u m
unfolding xpub_version xprv_version
xpub_version-ne-xprv_version t u n m = ground arith

-- A purpose is read as a type whose paths have that purpose.
pub purpose-get_hd_path :
    (p : Purpose) (t : AddressType) (account : ℕ) (n : Network)
    → type_of_purpose p ≡ ok t
    → (get_hd_path t account n).purpose ≡ p
unfolding type_of_purpose get_hd_path
purpose-get_hd_path p t account n h = ground arith
