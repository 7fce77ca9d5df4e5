-- ===== src/Convert/Json/Exports.antt =====
-- A private key that src/convert/json/keyfile.rs exports is imported with the password of the export.
use emerald_rs.Prelude.{
  ℕ, ◌≡◌, refl, sym, ap, ap₂, ◌∙◌, String, Option, some, List, take, drop, ok, All, All-append,
  All-drop, bind-eq_ok,
}
use emerald_rs.Prelude.Bytes.{IsByte}
use emerald_rs.Structs.{Uuid, Instant, PrivateKeyHolder, ethereum_pk, EthereumPk3}
use emerald_rs.Crypto.{
  CryptoLib, derive_scrypt, create_with_salt, encrypt, decrypt_holder, get_ethereum_address,
}
use emerald_rs.Crypto.RoundTrip.{sealed, encrypt_inv, decrypt-encrypt}
use emerald_rs.Ethereum.Address.{Hex}
use emerald_rs.Convert.Json.{EthereumJsonV3File, holder_from_file, from_pk}
use emerald_rs.Convert.Json.RoundTrip.{
  IsExportable, core_from_encrypted_eq, file_of, holder_from_file_eq,
}

-- The algorithms return byte strings.
pub record IsByteLib (lib : CryptoLib) : Type 0 where
  pub scrypt_bytes :
      (salt : List ℕ) (password : String) (key : List ℕ)
      → derive_scrypt lib (create_with_salt salt) password ≡ ok key
      → All IsByte key
  pub keystream_bytes : (key iv xs : List ℕ) → All IsByte xs → All IsByte (lib.keystream key iv xs)
  pub keccak256_bytes : (xs : List ℕ) → All IsByte xs → All IsByte (lib.keccak256 xs)

module _ (lib : CryptoLib) (bytes : IsByteLib lib) (hex : Hex) where
  sealed-IsExportable :
      (msg salt iv derived : List ℕ)
      → All IsByte msg
      → All IsByte salt
      → All IsByte iv
      → All IsByte derived
      → IsExportable (sealed lib msg salt iv derived)
  sealed-IsExportable msg salt iv derived m s i d =
      let text = bytes.keystream_bytes (take 16 derived) iv msg m in
      record {
        encrypted_bytes = text;
        iv_bytes = i;
        mac_bytes =
            bytes.keccak256_bytes _
              (All-append IsByte (drop 16 derived) _ (All-drop IsByte 16 derived d) text);
        salt_bytes = unfold create_with_salt in s;
        dklen_is = unfold create_with_salt in refl;
      }

  some_injective : {a c : List ℕ} → ◌≡◌ {A = Option (List ℕ)} (some a) (some c) → a ≡ c
  some_injective h = cc

  -- The file of a private key that is exported with a password is read as a stored key under the
  -- identifier of the file, with the address of the key, and is decrypted with the password to the key.
  pub decrypt_holder-from_pk :
      (label : Option String) (pk : List ℕ) (password : String) (salt iv : List ℕ) (id : Uuid)
      (now : Instant) (file : EthereumJsonV3File)
      → All IsByte pk
      → All IsByte salt
      → All IsByte iv
      → from_pk hex lib label pk password (some salt) (some iv) id ≡ ok file
      → (h : PrivateKeyHolder) × (holder_from_file hex file now ≡ some (ok h))
        × (h.id ≡ id)
        × (get_ethereum_address h ≡ some (lib.address_of_key pk))
        × (decrypt_holder lib h password ≡ ok pk)
  unfolding from_pk decrypt_holder get_ethereum_address
  decrypt_holder-from_pk label pk password salt iv id now file b s i made =
      let (e, run, done) = bind-eq_ok (encrypt lib pk password (some salt) (some iv)) _ made in
      let (used, vector, derived, key, same, from, _, drawn) =
        encrypt_inv lib pk password (some salt) (some iv) e run in
      let key_of : derive_scrypt lib (create_with_salt salt) password ≡ ok derived =
        ap (λ t. derive_scrypt lib (create_with_salt t) password) (some_injective from) ∙ key in
      let parts : e ≡ sealed lib pk salt iv derived =
        same
        ∙ sym
            (ap₂ (λ s i. sealed lib pk s i derived) (some_injective from) (some_injective drawn)) in
      let exportable = rw (← parts) at (
        sealed-IsExportable pk salt iv derived b s i
          (bytes.scrypt_bytes salt password derived key_of)) in
      let h : PrivateKeyHolder = record {
        id = id;
        pk = ethereum_pk (record { address = some (lib.address_of_key pk); key = e });
        created_at = now;
      } in
      let pk3 : EthereumPk3 = record { address = some (lib.address_of_key pk); key = e } in
      let written : file_of hex h label pk3 ≡ file =
        cc (rw (core_from_encrypted_eq hex e) at done) in
      (
        h,
        rw (← written) (holder_from_file_eq hex h label pk3 now exportable),
        refl,
        refl,
        decrypt-encrypt lib pk password (some salt) (some iv) e run,
      )
