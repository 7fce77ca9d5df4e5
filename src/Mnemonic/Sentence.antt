-- ===== src/Mnemonic/Sentence.antt =====
-- src/mnemonic.rs and src/mnemonic/language.rs: a phrase as one text, the words of a text, the sizes
-- by name and the seed of a phrase. A text is a list of code points.
pub mod Words
pub mod RoundTrip
use emerald_rs.Prelude.{
  ℕ, zero, suc, ◌+◌, ◌-◌, Bool, true, false, not, ◌||◌, ◌&&◌, ltb, leb, ◌==◌, if◌then◌else◌, List,
  [], ◌∷◌, ◌++◌, Option, none, some, length, Result, ok, err, ◌>>=◌, ◌>>◌,
}
use emerald_rs.Mnemonic.{
  MnemonicError, empty_sentence, Mnemonic, MnemonicSize, Language, english, Crates, from_length,
  from_entropy, entropy_bytes_length,
}

-- `char::is_whitespace`: the code points with the property White_Space.
abbrev pub is_whitespace : ℕ → Bool
is_whitespace c =
    (leb 9 c && leb c 13)
    || (c == 0x20)
    || (c == 0x85)
    || (c == 0xa0)
    || (c == 0x1680)
    || (leb 0x2000 c && leb c 0x200a)
    || (c == 0x2028)
    || (c == 0x2029)
    || (c == 0x202f)
    || (c == 0x205f)
    || (c == 0x3000)

abbrev pub push_word : List ℕ → List (List ℕ) → List (List ℕ)
push_word [] ws = ws
push_word (c ∷ w) ws = (c ∷ w) ∷ ws

-- The letters in front of the first space, and the words behind it.
unfoldable pub split_first : List ℕ → List ℕ × List (List ℕ)
split_first [] = ([], [])
split_first (c ∷ cs) =
    let (w, ws) = split_first cs in if is_whitespace c then ([], push_word w ws) else (c ∷ w, ws)

-- `split_whitespace`
unfoldable pub split_whitespace : List ℕ → List (List ℕ)
unfolding split_first
split_whitespace cs = let (w, ws) = split_first cs in push_word w ws

-- `gen_wordlist`, which makes the list of a language from its text.
unfoldable pub gen_wordlist : List ℕ → List (List ℕ)
unfolding split_whitespace
gen_wordlist lang_words = split_whitespace lang_words

-- The loop of `sentence` at the index `i`, where `n` is the number of words.
unfoldable pub sentence_loop : ℕ → ℕ → List (List ℕ) → List ℕ → List ℕ
sentence_loop n i [] s = s
sentence_loop n i (w ∷ ws) s =
    sentence_loop n (i + 1) ws (if i == n - 1 then s ++ w else (s ++ w) ++ b' ' ∷ [])

unfoldable pub sentence : Mnemonic → List ℕ
unfolding sentence_loop
sentence m = sentence_loop (length m.words) 0 m.words []

-- `Mnemonic::try_from`
unfoldable pub try_from : Language → List ℕ → Result MnemonicError Mnemonic
unfolding split_whitespace
try_from lang src =
    let w = split_whitespace src in
    if length w == 0
    then err empty_sentence
    else (do size ← from_length (length w); ok (record { language = lang; words = w }))

-- `pbkdf2::<Hmac<Sha512>>` with the password, the salt, the rounds and the length, and
-- `as_bytes` of a text.
pub record SeedLib : Type 0 where
  pub pbkdf2_sha512 : List ℕ → List ℕ → ℕ → ℕ → List ℕ
  pub as_bytes : List ℕ → List ℕ

abbrev pub pbkdf2_rounds : ℕ
pbkdf2_rounds = 2048

-- "mnemonic", as code points
abbrev mnemonic_text : List ℕ
mnemonic_text = b'm' ∷ b'n' ∷ b'e' ∷ b'm' ∷ b'o' ∷ b'n' ∷ b'i' ∷ b'c' ∷ []

abbrev pub passphrase : Option (List ℕ) → List ℕ
passphrase (some p) = mnemonic_text ++ p
passphrase none = mnemonic_text

unfoldable pub seed : SeedLib → Mnemonic → Option (List ℕ) → List ℕ
unfolding sentence
seed lib m password =
    lib.pbkdf2_sha512 (lib.as_bytes (sentence m)) (lib.as_bytes (passphrase password)) pbkdf2_rounds
      64

-- `StandardMnemonic`
abbrev pub size12 : Result MnemonicError MnemonicSize
size12 = from_length 12

abbrev pub size15 : Result MnemonicError MnemonicSize
size15 = from_length 15

abbrev pub size18 : Result MnemonicError MnemonicSize
size18 = from_length 18

abbrev pub size21 : Result MnemonicError MnemonicSize
size21 = from_length 21

abbrev pub size24 : Result MnemonicError MnemonicSize
size24 = from_length 24

abbrev pub secure : Result MnemonicError MnemonicSize
secure = size24

abbrev pub simple : Result MnemonicError MnemonicSize
simple = size15

-- `Mnemonic::new`: what the random generator gives for a length is an argument, with its error.
unfoldable pub new :
    Crates
    → List (List ℕ)
    → (ℕ → Result MnemonicError (List ℕ))
    → Language
    → MnemonicSize
    → Result MnemonicError Mnemonic
new crates wordlist gen_entropy lang size = do
  entropy ← gen_entropy (entropy_bytes_length size)
  from_entropy crates wordlist lang entropy
