-- ===== src/Crypto/RoundTrip.antt =====
-- Encryption, its inverse, and its authentication.
use emerald_rs.Prelude.{
  ℕ, ◌≡◌, ◌≢◌, refl, ap, sym, ◌∙◌, ◌==◌, str_eq, String, true, false, Option, none, some, List,
  ◌++◌, length, take, drop, arith, Result, ok, err, bind-eq_ok, List_beq, List_beq_iff, ==_iff,
  length-drop, ℕ_eq, Bool-cases, inl, inr,
}
use emerald_rs.Structs.{
  CryptoError, wrong_key, Encrypted, Aes128CtrCipher, Kdf, web3, scrypt, aes128_ctr, ethereum_pk,
  PrivateKeyHolder, Uuid, Instant,
}
use emerald_rs.Crypto.{
  CryptoLib, web3_key, create_with_salt, derive_scrypt, derive, encrypt, decrypt,
  create_ethereum_raw, decrypt_holder, get_ethereum_address,
}

module _ (lib : CryptoLib) where
  -- What `encrypt` builds from its random bytes and the derived key.
  abbrev pub sealed : List ℕ → List ℕ → List ℕ → List ℕ → Encrypted
  sealed msg salt iv derived = record {
    cipher = aes128_ctr (record {
      encrypted = lib.keystream (take 16 derived) iv msg;
      iv = iv;
      mac = web3 (lib.keccak256 (drop 16 derived ++ lib.keystream (take 16 derived) iv msg));
    });
    kdf = scrypt (create_with_salt salt);
  }

  mac_key-length :
      (derived : List ℕ) → length derived ≡ 32 → (length (drop 16 derived) == 16) ≡ true
  mac_key-length derived h = (==_iff _ 16).1 (omega (arith, length-drop {0} 16 derived))

  -- A password that is not empty, both random fills and a derived key give a sealed message.
  pub encrypt_total :
      (msg : List ℕ) (password : String) (salt iv derived : List ℕ)
      → str_eq password "" ≡ false
      → derive_scrypt lib (create_with_salt salt) password ≡ ok derived
      → (length iv == 16) ≡ true
      → encrypt lib msg password (some salt) (some iv) ≡ ok (sealed msg salt iv derived)
  unfolding encrypt web3_key
  encrypt_total msg password salt iv derived nonempty key fits =
      let len : length derived ≡ 32 =
        unfold derive_scrypt create_with_salt in
        lib.scrypt_length password salt (lib.log2_round 8192) 8 1 32 derived key in
      rw (nonempty, key, (==_iff (length derived) 32).1 len, fits, mac_key-length derived len)

  decrypt-sealed :
      (msg : List ℕ) (password : String) (salt iv derived : List ℕ)
      → derive_scrypt lib (create_with_salt salt) password ≡ ok derived
      → (length iv == 16) ≡ true
      → decrypt lib (sealed msg salt iv derived) password ≡ ok msg
  unfolding decrypt web3_key
  decrypt-sealed msg password salt iv derived key fits =
      let len : length derived ≡ 32 =
        unfold derive_scrypt create_with_salt in
        lib.scrypt_length password salt (lib.log2_round 8192) 8 1 32 derived key in
      rw (
        key,
        (==_iff (length derived) 32).1 len,
        fits,
        mac_key-length derived len,
        (List_beq_iff _ _).1 refl,
        lib.keystream_twice,
      )

  -- The parts of what `encrypt` returns.
  pub encrypt_inv :
      (msg : List ℕ) (password : String) (salt? iv? : Option (List ℕ)) (e : Encrypted)
      → encrypt lib msg password salt? iv? ≡ ok e
      → (salt iv derived : List ℕ) × (derive_scrypt lib (create_with_salt salt) password
          ≡ ok derived)
        × (e ≡ sealed msg salt iv derived)
        × (salt? ≡ some salt)
        × ((length iv == 16) ≡ true)
        × (iv? ≡ some iv)
  unfolding encrypt web3_key
  encrypt_inv msg password none iv? e h = absurd (ground arith)
  encrypt_inv msg password (some salt) iv? e h = elim (Bool-cases (str_eq password "")) [
    | inl empty ↦ absurd (refused empty)
    | inr filled ↦ go (derive_scrypt lib (create_with_salt salt) password) refl iv? h filled
  ]
    where
      refused : str_eq password "" ≡ true → ⊥
      refused empty = cc (rw empty at h)

      go :
          (r : Result CryptoError (List ℕ))
          → derive_scrypt lib (create_with_salt salt) password ≡ r
          → (iv? : Option (List ℕ)) → encrypt lib msg password (some salt) iv? ≡ ok e
          → str_eq password "" ≡ false
          → (used iv derived : List ℕ) × (derive_scrypt lib (create_with_salt used) password
              ≡ ok derived)
            × (e ≡ sealed msg used iv derived)
            × (◌≡◌ {A = Option (List ℕ)} (some salt) (some used))
            × ((length iv == 16) ≡ true)
            × (iv? ≡ some iv)
      go (err x) key iv? h filled = absurd (cc (rw (filled, key) at h))
      go (ok derived) key none h filled = absurd (cc (rw (filled, key) at h))
      go (ok derived) key (some iv) h filled = elim (Bool-cases (length iv == 16)) [
        | inl fits ↦
            let same : ◌≡◌ {A = Result CryptoError Encrypted} (ok (sealed msg salt iv derived))
                (ok e) =
              sym (encrypt_total msg password salt iv derived filled key fits) ∙ h in
            (salt, iv, derived, key, cc, refl, fits, refl)
        | inr short ↦
            let len : length derived ≡ 32 =
              unfold derive_scrypt create_with_salt in
              lib.scrypt_length password salt (lib.log2_round 8192) 8 1 32 derived key in
            absurd (cc (rw (filled, key, (==_iff (length derived) 32).1 len, short) at h))
      ]

  -- What was encrypted is decrypted with the same password.
  pub decrypt-encrypt :
      (msg : List ℕ) (password : String) (salt? iv? : Option (List ℕ)) (e : Encrypted)
      → encrypt lib msg password salt? iv? ≡ ok e
      → decrypt lib e password ≡ ok msg
  decrypt-encrypt msg password salt? iv? e h =
      let (salt, iv, derived, key, same, _, fits, _) = encrypt_inv msg password salt? iv? e h in
      rw same (decrypt-sealed msg password salt iv derived key fits)

  -- The parts of a stored private key.
  pub create_ethereum_raw_inv :
      (pk : List ℕ) (password : String) (salt? iv? : Option (List ℕ)) (id : Uuid) (now : Instant)
      (h : PrivateKeyHolder)
      → create_ethereum_raw lib pk password salt? iv? id now ≡ ok h
      → (salt : List ℕ) × (key : Encrypted) × (salt? ≡ some salt)
        × (key.kdf ≡ scrypt (create_with_salt salt))
        × (h ≡ record {
          id = id;
          pk = ethereum_pk (record { address = some (lib.address_of_key pk); key = key });
          created_at = now;
        })
  unfolding create_ethereum_raw
  create_ethereum_raw_inv pk password salt? iv? id now h made =
      elim (Bool-cases (length pk == 32)) [
        | inr wrong ↦ absurd (cc (rw wrong at made))
        | inl fits ↦
            let (key, sealed_key, done) =
              bind-eq_ok (encrypt lib pk password salt? iv?) _ (rw fits at made) in
            let (salt, iv, derived, _, same, drawn, _, _) =
              encrypt_inv pk password salt? iv? key sealed_key in
            (salt, key, drawn, ap (λ e. e.kdf) same, cc)
      ]

  -- A stored private key is given back by the password that it was stored with.
  pub decrypt_holder-create_ethereum_raw :
      (pk : List ℕ) (password : String) (salt? iv? : Option (List ℕ)) (id : Uuid) (now : Instant)
      (h : PrivateKeyHolder)
      → create_ethereum_raw lib pk password salt? iv? id now ≡ ok h
      → (decrypt_holder lib h password ≡ ok pk)
        × (get_ethereum_address h ≡ some (lib.address_of_key pk))
        × (length pk ≡ 32)
  unfolding create_ethereum_raw decrypt_holder get_ethereum_address
  decrypt_holder-create_ethereum_raw pk password salt? iv? id now h made =
      elim (Bool-cases (length pk == 32)) [
        | inr wrong ↦ absurd (cc (rw wrong at made))
        | inl fits ↦
            let (key, sealed_key, done) =
              bind-eq_ok (encrypt lib pk password salt? iv?) _ (rw fits at made) in
            let same : h ≡ record {
              id = id;
              pk = ethereum_pk (record { address = some (lib.address_of_key pk); key = key });
              created_at = now;
            } =
              cc in
            rw same (
              decrypt-encrypt pk password salt? iv? key sealed_key,
              refl,
              (==_iff (length pk) 32).0 fits,
            )
      ]

  -- With a derived key of 32 bytes and a vector of 16, a stored text with another MAC than that of the
  -- key and the text is not decrypted: the key is called wrong.
  pub decrypt-forged :
      (e : Aes128CtrCipher) (mac : List ℕ) (kdf : Kdf) (password : String) (derived : List ℕ)
      → e.mac ≡ web3 mac
      → derive lib kdf password ≡ ok derived
      → length derived ≡ 32
      → length e.iv ≡ 16
      → lib.keccak256 (drop 16 derived ++ e.encrypted) ≢ mac
      → decrypt lib (record { cipher = aes128_ctr e; kdf = kdf }) password ≡ err wrong_key
  unfolding decrypt web3_key
  decrypt-forged e mac kdf password derived em key len iv_len other =
      let tag : List ℕ = lib.keccak256 (drop 16 derived ++ e.encrypted) in
      elim (Bool-cases (List_beq tag mac)) [
        | inl same ↦ absurd (other ((List_beq_iff tag mac).0 same))
        | inr differs ↦ rw (
          key,
          (==_iff (length derived) 32).1 len,
          (==_iff (length e.iv) 16).1 iv_len,
          em,
          mac_key-length derived len,
          differs,
        )
      ]
