-- ===== src/Mnemonic/Sentence/Words.antt =====
-- `split_whitespace` takes a text apart that was put together with single spaces.
use mathlib.Core.List.{append-nil, append_assoc}
use emerald_rs.Prelude.{
  ℕ, ◌+◌, ◌-◌, ◌≡◌, ◌≢◌, refl, sym, ap, ◌∙◌, true, false, ◌==◌, ==_iff, List, [], ◌∷◌, ◌++◌, length,
  All, arith, Bool-cases, inl, inr,
}
use emerald_rs.Mnemonic.Sentence.{
  is_whitespace, push_word, split_first, split_whitespace, sentence_loop,
}

abbrev pub IsLetter : ℕ → Type 0
IsLetter c = is_whitespace c ≡ false

-- Not empty, and without spaces.
abbrev pub IsWord : List ℕ → Type 0
IsWord w = (w ≢ []) × All IsLetter w

push_word-IsWord :
    (w : List ℕ) (ws : List (List ℕ)) → All IsLetter w → All IsWord ws → All IsWord (push_word w ws)
push_word-IsWord [] ws h k = k
push_word-IsWord (c ∷ w) ws h k = ((λ e. cc (e), h), k)

split_first-IsWord : (cs : List ℕ) → All IsLetter (split_first cs).0 × All IsWord (split_first cs).1
unfolding split_first
split_first-IsWord [] = (tt, tt)
split_first-IsWord (c ∷ cs) =
    let (h, k) = split_first-IsWord cs in
    elim (Bool-cases (is_whitespace c)) [
      | inl space ↦ rw space (tt, push_word-IsWord _ _ h k)
      | inr letter ↦ rw letter ((letter, h), k)
    ]

-- Whatever the text, what it is split into are words.
pub split_whitespace-IsWord : (cs : List ℕ) → All IsWord (split_whitespace cs)
unfolding split_whitespace
split_whitespace-IsWord cs = let (h, k) = split_first-IsWord cs in push_word-IsWord _ _ h k

-- Letters in front of a text join its first word.
split_first-append :
    (w cs : List ℕ)
    → All IsLetter w
    → split_first (w ++ cs) ≡ (w ++ (split_first cs).0, (split_first cs).1)
unfolding split_first
split_first-append [] cs h = refl
split_first-append (c ∷ w) cs h = rw (h.0, split_first-append w cs h.1) refl

-- The words with one space between them.
abbrev pub joined : List (List ℕ) → List ℕ
joined [] = []
joined (w ∷ []) = w
joined (w ∷ v ∷ ws) = w ++ b' ' ∷ joined (v ∷ ws)

push_word-word : (w : List ℕ) (ws : List (List ℕ)) → w ≢ [] → push_word w ws ≡ w ∷ ws
push_word-word [] ws h = absurd (h refl)
push_word-word (c ∷ w) ws h = refl

split_last : (w : List ℕ) → All IsLetter w → split_first w ≡ (w, [])
unfolding split_first
split_last w h =
    ap split_first (sym (append-nil w))
    ∙ split_first-append w [] h
    ∙ ap (λ v. (v, [])) (append-nil w)

split_before_space :
    (w cs : List ℕ) → All IsLetter w → split_first (w ++ b' ' ∷ cs) ≡ (w, split_whitespace cs)
unfolding split_first split_whitespace
split_before_space w cs h =
    split_first-append w (b' ' ∷ cs) h ∙ ap (λ v. (v, split_whitespace cs)) (append-nil w)

-- A text of words with a space between them is split into the words.
pub split_whitespace-joined :
    (ws : List (List ℕ)) → All IsWord ws → split_whitespace (joined ws) ≡ ws
unfolding split_whitespace
split_whitespace-joined [] h = unfold split_first in refl
split_whitespace-joined (w ∷ []) h = rw (split_last w h.0.1) (push_word-word w [] h.0.0)
split_whitespace-joined (w ∷ v ∷ ws) h =
    rw (split_before_space w (joined (v ∷ ws)) h.0.1, split_whitespace-joined (v ∷ ws) h.1)
      (push_word-word w (v ∷ ws) h.0.0)

-- The loop of `sentence` puts a space behind every word but the last.
pub sentence_loop_lem :
    (ws : List (List ℕ)) (n i : ℕ) (s : List ℕ)
    → n ≡ i + length ws
    → sentence_loop n i ws s ≡ s ++ joined ws
unfolding sentence_loop
sentence_loop_lem [] n i s h = sym (append-nil s)
sentence_loop_lem (w ∷ []) n i s h =
    let last : i == n - 1 ≡ true = (==_iff i (n - 1)).1 (omega arith) in rw last refl
sentence_loop_lem (w ∷ v ∷ ws) n i s h =
    let more : i == n - 1 ≡ false = ground arith in
    rw more (
      sentence_loop_lem (v ∷ ws) n (i + 1) ((s ++ w) ++ b' ' ∷ []) (omega arith)
      ∙ append_assoc (s ++ w) (b' ' ∷ []) (joined (v ∷ ws))
      ∙ append_assoc s w (b' ' ∷ joined (v ∷ ws)))
