-- ===== src/Mnemonic/Phrase.antt =====
-- `Mnemonic::from_entropy`: which entropies have a phrase, and that the phrase determines them.
use emerald_rs.Prelude.{
  ℕ, zero, suc, ◌+◌, ◌-◌, ◌*◌, ◌/◌, ◌^◌, ◌<◌, ◌≡◌, ◌≢◌, refl, sym, ap, ap₂, ◌∙◌, List, [], ◌∷◌,
  arith, Option, none, some, length, get_elem?, All, Result, ok, err, bind-eq_ok, ◌>>=◌, ok_or,
}
use emerald_rs.Prelude.Bytes.{IsByte, be_value, be_value-lt, be_value_injective, digit_unique}
use emerald_rs.Mnemonic.{
  MnemonicError, invalid_entropy_size, panic, Mnemonic, MnemonicSize, Crates, Language, english,
  checksum, checksum_bits, size_of_entropy, with_checksum, push_words, from_entropy, words_count,
  full_bytes_length,
}
use emerald_rs.Mnemonic.Size.{
  IsStandard, IsStandard-lengths, size_of_entropy_lem, words12, words15, words18, words21, words24,
}
use emerald_rs.Mnemonic.Checksum.{checksum_bits_lem, with_checksum_lem}
use emerald_rs.Mnemonic.Indexes.{word_value, IsIndex, get_indexes_lem}

get_elem?_total :
    (wordlist : List (List ℕ)) (i : ℕ)
    → i < length wordlist
    → (w : List ℕ) × (get_elem? wordlist i ≡ some w)
get_elem?_total [] i h = absurd (omega arith)
get_elem?_total (w ∷ ws) zero h = (w, refl)
get_elem?_total (w ∷ ws) (suc i) h = get_elem?_total ws i (omega arith)

push_words_total :
    (wordlist : List (List ℕ)) (is : List ℕ)
    → length wordlist ≡ 2048
    → All IsIndex is
    → (ws : List (List ℕ)) × (push_words wordlist is ≡ ok ws) × (length ws ≡ length is)
unfolding push_words
push_words_total wordlist [] len h = ([], refl, refl)
push_words_total wordlist (i ∷ is) len (lt, h) =
    let (w, e) = get_elem?_total wordlist i (omega arith) in
    let (ws, run, n) = push_words_total wordlist is len h in (w ∷ ws, rw (e, run), ap suc n)

-- No word stands twice in the list.
abbrev pub IsDistinct : List (List ℕ) → Type 0
IsDistinct wordlist =
    (i j : ℕ) (w : List ℕ) → get_elem? wordlist i ≡ some w → get_elem? wordlist j ≡ some w → i ≡ j

pub ok_or-eq_ok :
    (e : MnemonicError) (o : Option (List ℕ)) (w : List ℕ) → ok_or e o ≡ ok w → o ≡ some w
ok_or-eq_ok e none w h = cc
ok_or-eq_ok e (some v) w h = cc

push_words_inv :
    (wordlist : List (List ℕ)) (i : ℕ) (is : List ℕ) (ws : List (List ℕ))
    → push_words wordlist (i ∷ is) ≡ ok ws
    → (v : List ℕ) × (vs : List (List ℕ)) × (ws ≡ v ∷ vs)
      × (get_elem? wordlist i ≡ some v)
      × (push_words wordlist is ≡ ok vs)
unfolding push_words
push_words_inv wordlist i is ws h =
    let (v, found, h') = bind-eq_ok (ok_or panic (get_elem? wordlist i)) _ h in
    let (vs, run, h'') = bind-eq_ok (push_words wordlist is) _ h' in
    (v, vs, cc, ok_or-eq_ok panic (get_elem? wordlist i) v found, run)

push_words_injective :
    (wordlist : List (List ℕ)) (is js : List ℕ) (ws : List (List ℕ))
    → IsDistinct wordlist
    → push_words wordlist is ≡ ok ws
    → push_words wordlist js ≡ ok ws
    → is ≡ js
push_words_injective wordlist [] [] ws d p q = refl
push_words_injective wordlist [] (j ∷ js) ws d p q =
    let (v, vs, e, _, _) = push_words_inv wordlist j js ws q in unfold push_words in cc
push_words_injective wordlist (i ∷ is) [] ws d p q =
    let (v, vs, e, _, _) = push_words_inv wordlist i is ws p in unfold push_words in cc
push_words_injective wordlist (i ∷ is) (j ∷ js) ws d p q =
    let (v, vs, e, a, p') = push_words_inv wordlist i is ws p in
    let (w, us, f, b, q') = push_words_inv wordlist j js ws q in
    let same : w ≡ v = cc in
    let rest : us ≡ vs = cc in
    ap₂ ◌∷◌ (d i j v a (b ∙ ap some same))
      (push_words_injective wordlist is js vs d p' (q' ∙ ap ok rest))

-- The first byte of the hash, cut to the checksum's bits.
checksum_total :
    (crates : Crates) {m : MnemonicSize} (entropy : List ℕ)
    → IsStandard m
    → (sum : ℕ) × (checksum crates entropy m ≡ ok sum) × (sum < 2 ^ m.checksum_length)
unfolding checksum
checksum_total crates {m} entropy std = go (crates.sha256 entropy) refl (crates.sha256_lem entropy)
  where
    small :
        {m : MnemonicSize} (v : ℕ)
        → IsStandard m
        → v < 256
        → v / 2 ^ (8 - m.checksum_length) < 2 ^ m.checksum_length
    small v words12 h = omega arith
    small v words15 h = omega arith
    small v words18 h = omega arith
    small v words21 h = omega arith
    small v words24 h = omega arith

    go :
        (hash : List ℕ)
        → crates.sha256 entropy ≡ hash
        → (length (crates.sha256 entropy) ≡ 32) × All IsByte (crates.sha256 entropy)
        → (sum : ℕ) × (checksum crates entropy m ≡ ok sum) × (sum < 2 ^ m.checksum_length)
    go [] e (len, bytes) = absurd (omega (arith, ap length e))
    go (v ∷ hash) e facts =
        let (len, bytes) =
          let t : (length (v ∷ hash) ≡ 32) × All IsByte (v ∷ hash) = rw e at facts in t in
        (checksum_bits m v, rw e, rw (checksum_bits_lem v std bytes.0) (small v std bytes.0))

fits :
    {m : MnemonicSize}
    → IsStandard m
    → (entropy : List ℕ) (sum : ℕ) → All IsByte entropy
    → length entropy ≡ 4 * m.checksum_length
    → sum < 2 ^ m.checksum_length
    → be_value entropy * 2 ^ m.checksum_length + sum < 2048 ^ words_count m
unfolding words_count
fits words12 entropy sum bytes len h =
    let lt : be_value entropy < 256 ^ 16 = rw len at (be_value-lt entropy bytes) in omega arith
fits words15 entropy sum bytes len h =
    let lt : be_value entropy < 256 ^ 20 = rw len at (be_value-lt entropy bytes) in omega arith
fits words18 entropy sum bytes len h =
    let lt : be_value entropy < 256 ^ 24 = rw len at (be_value-lt entropy bytes) in omega arith
fits words21 entropy sum bytes len h =
    let lt : be_value entropy < 256 ^ 28 = rw len at (be_value-lt entropy bytes) in omega arith
fits words24 entropy sum bytes len h =
    let lt : be_value entropy < 256 ^ 32 = rw len at (be_value-lt entropy bytes) in omega arith

-- What `from_entropy` does with an entropy of a standard size: it looks up the words of the number
-- that has the entropy above the checksum.
phrase_of :
    (crates : Crates) (wordlist : List (List ℕ)) (lang : Language) {m : MnemonicSize}
    (entropy : List ℕ)
    → IsStandard m
    → All IsByte entropy
    → length entropy ≡ 4 * m.checksum_length
    → (is : List ℕ) × (sum : ℕ) × (from_entropy crates wordlist lang entropy
        ≡ (push_words wordlist is >>= λ ws. ok (record { language = lang; words = ws })))
      × (word_value is ≡ be_value entropy * 2 ^ m.checksum_length + sum)
      × (sum < 2 ^ m.checksum_length)
      × (length is ≡ words_count m)
      × All IsIndex is
unfolding from_entropy
phrase_of crates wordlist lang {m} entropy std bytes len =
    let (sum, check, small) = checksum_total crates entropy std in
    let packed = with_checksum_lem crates entropy sum std bytes len small in
    let wide : full_bytes_length m ≡ 4 * m.checksum_length + 1 = (IsStandard-lengths std).2 in
    let (is, cut, n, val, all) =
      get_indexes_lem crates m (with_checksum crates entropy sum m) _
        (packed.0 ∙ sym wide, packed.1, packed.2) (fits std entropy sum bytes len small) in
    (is, sum, rw ((size_of_entropy_lem entropy m).1 (std, len), check, cut), val, small, n, all)

-- With a list of 2048 words, bytes that are as many as the entropy of a standard size have a phrase
-- of the number of words that goes with it.
pub from_entropy_total :
    (crates : Crates) (wordlist : List (List ℕ)) (lang : Language) (entropy : List ℕ)
    {m : MnemonicSize}
    → length wordlist ≡ 2048
    → IsStandard m
    → All IsByte entropy
    → length entropy ≡ 4 * m.checksum_length
    → (p : Mnemonic) × (from_entropy crates wordlist lang entropy ≡ ok p)
      × (length p.words ≡ 3 * m.checksum_length)
from_entropy_total crates wordlist lang entropy {m} many std bytes len =
    let (is, sum, run, val, small, n, all) = phrase_of crates wordlist lang entropy std bytes len in
    let (ws, found, k) = push_words_total wordlist is many all in
    (record { language = lang; words = ws }, run ∙ rw found, k ∙ n ∙ (IsStandard-lengths std).0)

-- An entropy that has the length of no standard size is refused, with its length in the message.
pub from_entropy_refuses :
    (crates : Crates) (wordlist : List (List ℕ)) (lang : Language) (entropy : List ℕ)
    → ((m : MnemonicSize) → IsStandard m → length entropy ≢ 4 * m.checksum_length)
    → from_entropy crates wordlist lang entropy ≡ err (invalid_entropy_size (length entropy))
unfolding from_entropy size_of_entropy
from_entropy_refuses crates wordlist lang entropy h =
    ground (arith, h _ words12, h _ words15, h _ words18, h _ words21, h _ words24)

from_entropy_size :
    (crates : Crates) (wordlist : List (List ℕ)) (lang : Language) (entropy : List ℕ) (p : Mnemonic)
    → from_entropy crates wordlist lang entropy ≡ ok p
    → (m : MnemonicSize) × IsStandard m × (length entropy ≡ 4 * m.checksum_length)
unfolding from_entropy
from_entropy_size crates wordlist lang entropy p h =
    let (m, e, _) = bind-eq_ok (size_of_entropy entropy) _ h in
    let (std, len) = (size_of_entropy_lem entropy m).0 e in (m, std, len)

words_of :
    (wordlist : List (List ℕ)) (lang : Language) (is : List ℕ) (p : Mnemonic)
    → ◌≡◌ {A = Result MnemonicError Mnemonic}
        (push_words wordlist is >>= λ ws. ok (record { language = lang; words = ws }))
        (ok p)
    → push_words wordlist is ≡ ok p.words
words_of wordlist lang is p h =
    let (ws, run, e) = bind-eq_ok (push_words wordlist is) _ h in run ∙ ap ok (same e)
  where
    same :
        {ws : List (List ℕ)}
        → ◌≡◌ {A = Result MnemonicError Mnemonic}
            (ok (record { language = lang; words = ws }))
            (ok p)
        → ws ≡ p.words
    same e = cc

push_words-length :
    (wordlist : List (List ℕ)) (is : List ℕ) (ws : List (List ℕ))
    → push_words wordlist is ≡ ok ws
    → length ws ≡ length is
push_words-length wordlist [] ws h =
    let same : [] ≡ ws = unfold push_words in cc in ap length (sym same)
push_words-length wordlist (i ∷ is) ws h =
    let (v, vs, e, found, run) = push_words_inv wordlist i is ws h in
    ap length e ∙ ap suc (push_words-length wordlist is vs run)

one_language : (a b : Language) → a ≡ b
one_language english english = refl

-- A phrase that was made has the language that was asked for, and words of the list, as many as a
-- standard size has.
pub from_entropy_words :
    (crates : Crates) (wordlist : List (List ℕ)) (lang : Language) (entropy : List ℕ) (p : Mnemonic)
    → All IsByte entropy
    → from_entropy crates wordlist lang entropy ≡ ok p
    → (m : MnemonicSize) × (is : List ℕ) × IsStandard m
      × (words_count m ≡ length p.words)
      × (p.language ≡ lang)
      × (push_words wordlist is ≡ ok p.words)
from_entropy_words crates wordlist lang entropy p bytes h =
    let (m, std, len) = from_entropy_size crates wordlist lang entropy p h in
    let (is, s, run, val, small, n, all) = phrase_of crates wordlist lang entropy std bytes len in
    let words = words_of wordlist lang is p (sym run ∙ h) in
    (
      m,
      is,
      std,
      sym (push_words-length wordlist is p.words words ∙ n),
      one_language p.language lang,
      words,
    )

-- Two strings of bytes that have the same phrase as entropies are the same, if no word stands twice
-- in the list.
pub from_entropy_injective :
    (crates : Crates) (wordlist : List (List ℕ)) (lang : Language) (a b : List ℕ) (p : Mnemonic)
    → IsDistinct wordlist
    → All IsByte a
    → All IsByte b
    → from_entropy crates wordlist lang a ≡ ok p
    → from_entropy crates wordlist lang b ≡ ok p
    → a ≡ b
from_entropy_injective crates wordlist lang a b p distinct bytes_a bytes_b ha hb =
    let (m, std_a, len_a) = from_entropy_size crates wordlist lang a p ha in
    let (k, std_b, len_b) = from_entropy_size crates wordlist lang b p hb in
    let (is, s, run_a, val_a, small_a, n_a, _) =
      phrase_of crates wordlist lang a std_a bytes_a len_a in
    let (js, t, run_b, val_b, small_b, n_b, _) =
      phrase_of crates wordlist lang b std_b bytes_b len_b in
    let same : is ≡ js =
      push_words_injective wordlist is js p.words distinct
        (words_of wordlist lang is p (sym run_a ∙ ha))
        (words_of wordlist lang js p (sym run_b ∙ hb)) in
    let bits : m.checksum_length ≡ k.checksum_length = omega (
      arith,
      n_a,
      n_b,
      ap length same,
      (IsStandard-lengths std_a).0,
      (IsStandard-lengths std_b).0,
    ) in
    let small : t < 2 ^ m.checksum_length = rw bits small_b in
    let sums : be_value a * 2 ^ m.checksum_length + s ≡ be_value b * 2 ^ m.checksum_length + t =
      sym val_a ∙ ap word_value same ∙ val_b ∙ ap (λ (c : ℕ). be_value b * 2 ^ c + t) (sym bits) in
    be_value_injective a b bytes_a bytes_b (omega arith)
      (digit_unique (2 ^ m.checksum_length) (be_value a) (be_value b) s t small_a small sums).0
