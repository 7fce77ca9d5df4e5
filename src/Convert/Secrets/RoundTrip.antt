-- ===== src/Convert/Secrets/RoundTrip.antt =====
-- Encrypted secrets read back from their messages.
use emerald_rs.Prelude.{◌≡◌, some, refl, ok, bind-eq_ok, List, ℕ, length, arith, ==_iff}
use emerald_rs.Structs.{Kdf, scrypt, pbkdf2, Encrypted}
use emerald_rs.Structs.Secrets.{get_iv, get_message}
use emerald_rs.Crypto.{verify_scrypt, create_with_salt}
use emerald_rs.Convert.Messages.{ProtoEncrypted, ProtoKdfType, kdf_scrypt, cipher_aes128_ctr}
use emerald_rs.Convert.Secrets.{
  encrypted_from_proto, encrypted_to_proto, kdf_from_proto, kdf_to_proto, cipher_from_proto,
  pbkdf2_to_proto, mac_from_proto, scrypt_to_proto, mac_of_cipher,
}

-- A Scrypt derivation passes its verification.
abbrev pub IsVerified : Kdf → Type 0
IsVerified (scrypt k) = verify_scrypt k ≡ ok k
IsVerified (pbkdf2 _) = Unit {0}

pub create_with_salt-IsVerified :
    (salt : List ℕ) → length salt ≡ 32 → IsVerified (scrypt (create_with_salt salt))
unfolding verify_scrypt create_with_salt
create_with_salt-IsVerified salt h = rw ((==_iff (length salt) 32).1 h) refl

kdf_round :
    (k : Kdf) (m : ProtoKdfType) → IsVerified k → kdf_to_proto k ≡ ok m → kdf_from_proto m ≡ ok k
unfolding kdf_from_proto pbkdf2_to_proto
kdf_round (scrypt k) m v h =
    let same : kdf_scrypt (scrypt_to_proto k) ≡ m = cc in rw (← same) (rw (kdf_from_proto, v) refl)
kdf_round (pbkdf2 k) m v h = ground arith

-- A secret whose derivation is verified is read back as it was from the message that is written of it.
pub encrypted_from_proto-encrypted_to_proto :
    (e : Encrypted) (m : ProtoEncrypted)
    → IsVerified e.kdf
    → encrypted_to_proto e ≡ ok m
    → encrypted_from_proto m ≡ ok e
unfolding encrypted_from_proto encrypted_to_proto get_message get_iv mac_from_proto
    cipher_from_proto
encrypted_from_proto-encrypted_to_proto e m v h =
    let (kdf, made, done) = bind-eq_ok (kdf_to_proto e.kdf) _ h in
    let same : ◌≡◌ {A = ProtoEncrypted}
        (record {
          field_type = cipher_aes128_ctr;
          secret = get_message e;
          iv = get_iv e;
          mac = some (mac_of_cipher e.cipher);
          kdf_type = some kdf;
        })
        m =
      cc in
    rw (← same) (ground (arith, kdf_round e.kdf kdf v made))
