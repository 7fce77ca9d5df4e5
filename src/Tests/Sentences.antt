-- ===== src/Tests/Sentences.antt =====
-- A phrase, its sentence and the words of a text at concrete inputs.
use emerald_rs.Prelude.{ℕ, ◌≡◌, refl, ap, ◌∙◌, List, [], ◌∷◌, ok}
use emerald_rs.Mnemonic.{english, from_entropy}
use emerald_rs.Mnemonic.Sentence.{gen_wordlist, split_whitespace, split_first, sentence, try_from}
use emerald_rs.Mnemonic.Sentence.RoundTrip.{try_from-sentence-from_entropy}
use emerald_rs.Tests.Instances.{crates, replicate-IsByte}
use emerald_rs.Tests.Phrases.{entropy, one_word, phrase, phrase_found}

-- "a", and "a b" with more spaces than are needed
abbrev letter_a : List ℕ
letter_a = b'a' ∷ []

list_of_a : gen_wordlist letter_a ≡ one_word
unfolding gen_wordlist split_whitespace split_first
list_of_a = refl

spaced :
    split_whitespace (b' ' ∷ b'a' ∷ b' ' ∷ b' ' ∷ b'b' ∷ 9 ∷ []) ≡ (b'a' ∷ []) ∷ (b'b' ∷ []) ∷ []
unfolding split_whitespace split_first
spaced = refl

try_from-sentence-from_entropy_example : try_from english (sentence phrase) ≡ ok phrase
try_from-sentence-from_entropy_example =
    try_from-sentence-from_entropy crates letter_a english entropy phrase (replicate-IsByte 16)
      (ap (λ w. from_entropy crates w english entropy) list_of_a ∙ phrase_found)
