-- ===== src/Structs/Secrets.antt =====
-- The parts of an `Encrypted` (src/structs/crypto.rs), and the passwords and seeds that a Bitcoin
-- transfer carries (src/blockchain/bitcoin.rs).
use emerald_rs.Prelude.{
  ℕ, ◌==◌, if◌then◌else◌, String, Option, none, some, List, [], ◌∷◌, Result, ok_or,
}
use emerald_rs.Structs.{Uuid, Encrypted, aes128_ctr, web3, Seed, VaultError, password_required}

unfoldable pub get_mac : Encrypted → List ℕ
get_mac e = elim e.cipher [ aes128_ctr v ↦ elim v.mac [ web3 x ↦ x ] ]

unfoldable pub get_iv : Encrypted → List ℕ
get_iv e = elim e.cipher [ aes128_ctr v ↦ v.iv ]

unfoldable pub get_message : Encrypted → List ℕ
get_message e = elim e.cipher [ aes128_ctr v ↦ v.encrypted ]

-- The `HashMap` is a list of pairs.
abbrev pub KeyMapping : Type 0
KeyMapping = List (Uuid × String)

-- `HashMap::get`
password_of : Uuid → KeyMapping → Option String
password_of id [] = none
password_of id ((key, password) ∷ rest) = if key == id then some password else password_of id rest

unfoldable pub get_password : KeyMapping → Uuid → Result VaultError String
unfolding password_of
get_password keys id = ok_or password_required (password_of id keys)

abbrev pub single_key : Uuid → String → KeyMapping
single_key id password = (id, password) ∷ []

-- `BitcoinTransferProposal::get_seed`, on its list of seeds
unfoldable pub get_seed : List Seed → Uuid → Option Seed
get_seed [] id = none
get_seed (s ∷ seeds) id = if s.id == id then some s else get_seed seeds id
