-- ===== src/Mnemonic/Sentence/RoundTrip.antt =====
-- A phrase of `from_entropy` is what `try_from` reads of its sentence.
use emerald_rs.Prelude.{
  ℕ, zero, suc, ◌≡◌, refl, sym, ap, ◌∙◌, ◌==◌, List, [], ◌∷◌, length, All, arith, some, get_elem?,
  ok, ok_or, bind-eq_ok, false,
}
use emerald_rs.Prelude.Bytes.{IsByte}
use emerald_rs.Mnemonic.{
  panic, Mnemonic, MnemonicSize, Language, Crates, from_entropy, push_words, words_count,
}
use emerald_rs.Mnemonic.Size.{IsStandard, IsStandard-lengths, checksum_positive, from_length_lem}
use emerald_rs.Mnemonic.Phrase.{from_entropy_words, ok_or-eq_ok}
use emerald_rs.Mnemonic.Sentence.{gen_wordlist, split_whitespace, sentence, try_from}
use emerald_rs.Mnemonic.Sentence.Words.{
  IsWord, split_whitespace-IsWord, split_whitespace-joined, sentence_loop_lem,
}

-- No standard size is that of an empty phrase.
nonempty : {k : MnemonicSize} {n : ℕ} → IsStandard k → words_count k ≡ n → n == 0 ≡ false
nonempty std e =
    let three = (IsStandard-lengths std).0 in
    let some_bits = checksum_positive std in ground (arith, e, three, some_bits)

-- A phrase of words, as many as a standard size has, is read back from its sentence.
pub try_from-sentence :
    (m : Mnemonic) {size : MnemonicSize}
    → All IsWord m.words
    → IsStandard size
    → words_count size ≡ length m.words
    → try_from m.language (sentence m) ≡ ok m
unfolding try_from sentence
try_from-sentence m {size} words std count =
    let text = sentence_loop_lem m.words (length m.words) 0 [] (omega arith) in
    let split = ap split_whitespace text ∙ split_whitespace-joined m.words words in
    let accepted = (from_length_lem (length m.words) size).1 (std, count) in
    let some_words = nonempty std count in rw (split, some_words, accepted) refl

get_elem?-IsWord :
    (wordlist : List (List ℕ)) (i : ℕ) (w : List ℕ)
    → All IsWord wordlist
    → get_elem? wordlist i ≡ some w
    → IsWord w
get_elem?-IsWord [] i w h e = cc
get_elem?-IsWord (v ∷ vs) zero w h e = let same : v ≡ w = cc in rw (← same) h.0
get_elem?-IsWord (v ∷ vs) (suc i) w h e = get_elem?-IsWord vs i w h.1 e

push_words-IsWord :
    (wordlist : List (List ℕ)) (is : List ℕ) (ws : List (List ℕ))
    → All IsWord wordlist
    → push_words wordlist is ≡ ok ws
    → All IsWord ws
unfolding push_words
push_words-IsWord wordlist [] ws h e = let same : [] ≡ ws = cc in rw (← same) tt
push_words-IsWord wordlist (i ∷ is) ws h e =
    let (w, found, e1) = bind-eq_ok (ok_or panic (get_elem? wordlist i)) _ e in
    let (vs, run, e2) = bind-eq_ok (push_words wordlist is) _ e1 in
    let same : w ∷ vs ≡ ws = cc in
    rw (← same) (
      get_elem?-IsWord wordlist i w h (ok_or-eq_ok panic (get_elem? wordlist i) w found),
      push_words-IsWord wordlist is vs h run,
    )

-- With a list of words that is made from a text, the phrase of an entropy is read back from its
-- sentence, with its language and its words.
pub try_from-sentence-from_entropy :
    (crates : Crates) (text : List ℕ) (lang : Language) (entropy : List ℕ) (p : Mnemonic)
    → All IsByte entropy
    → from_entropy crates (gen_wordlist text) lang entropy ≡ ok p
    → try_from lang (sentence p) ≡ ok p
unfolding gen_wordlist
try_from-sentence-from_entropy crates text lang entropy p bytes made =
    let (size, is, std, count, named, run) =
      from_entropy_words crates (gen_wordlist text) lang entropy p bytes made in
    let words =
      push_words-IsWord (gen_wordlist text) is p.words (split_whitespace-IsWord text) run in
    ap (λ l. try_from l (sentence p)) (sym named) ∙ try_from-sentence p words std count
