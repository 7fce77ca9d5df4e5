-- ===== src/Tests/Codecs.antt =====
-- A wire format for the messages of the vault, in place of the `protobuf` crate.
use emerald_rs.Prelude.{
  ℕ, zero, suc, ◌≡◌, refl, ap, subst, ◌∙◌, ◌==◌, if◌then◌else◌, Option, none, some, List, [], ◌∷◌,
  ◌++◌, length, Result, ok, err,
}
use mathlib.Core.List.{append_assoc, append-nil}
use emerald_rs.Structs.{ConversionError, invalid_protobuf}
use emerald_rs.Convert.Crates.{Wire}

-- What is written in front of any rest is read back and leaves the rest.
pub record Codec (A : Type 0) : Type 0 where
  pub encode : A → Option (List ℕ)
  pub decode : List ℕ → Option (A × List ℕ)
  pub law : (a : A) (bs rest : List ℕ) → encode a ≡ some bs → decode (bs ++ rest) ≡ some (a, rest)

abbrev pub decode_number : List ℕ → Option (ℕ × List ℕ)
decode_number [] = none
decode_number (b ∷ bs) = some (b, bs)

pub number_law :
    (n : ℕ) (bs rest : List ℕ)
    → some (n ∷ []) ≡ some bs
    → decode_number (bs ++ rest) ≡ some (n, rest)
number_law n bs rest h = let same : n ∷ [] ≡ bs = cc in rw (← same) refl

abbrev pub number : Codec ℕ
number = record { encode = λ n. some (n ∷ []); decode = decode_number; law = number_law }

abbrev pub through : {A : Type 0} → Codec A → Option A → Option (List ℕ)
through c none = none
through c (some a) = c.encode a

abbrev pub appended : Option (List ℕ) → Option (List ℕ) → Option (List ℕ)
appended (some x) (some y) = some (x ++ y)
appended _ _ = none

module _ {A B : Type 0} where
  abbrev pub after_decode : (A → B) → Option (A × List ℕ) → Option (B × List ℕ)
  after_decode f none = none
  after_decode f (some (a, rest)) = some (f a, rest)

  pub through_law :
      (c : Codec A) (f : A → B) (o : Option A) (b : B)
      → ((a : A) → o ≡ some a → f a ≡ b)
      → (bs rest : List ℕ) → through c o ≡ some bs
      → after_decode f (c.decode (bs ++ rest)) ≡ some (b, rest)
  through_law c f none b same bs rest h = cc
  through_law c f (some a) b same bs rest h = rw (c.law a bs rest h, same a refl) refl

  -- A type of which some values are those of another one.
  abbrev pub via :
      (c : Codec A) (f : A → B) (g : B → Option A)
      → ((b : B) (a : A) → g b ≡ some a → f a ≡ b)
      → Codec B
  via c f g same = record {
    encode = λ b. through c (g b);
    decode = λ bs. after_decode f (c.decode bs);
    law = λ b bs rest. through_law c f (g b) b (same b) bs rest;
  }

  pub iso_law :
      (f : A → B) (g : B → A)
      → ((b : B) → f (g b) ≡ b)
      → (b : B) (a : A) → some (g b) ≡ some a
      → f a ≡ b
  iso_law f g same b a h = let e : g b ≡ a = cc in rw (← e) (same b)

  abbrev pub iso : Codec A → (f : A → B) (g : B → A) → ((b : B) → f (g b) ≡ b) → Codec B
  iso c f g same = via c f (λ b. some (g b)) (iso_law f g same)

  abbrev pub with_first : A → Option (B × List ℕ) → Option ((A × B) × List ℕ)
  with_first a none = none
  with_first a (some (b, rest)) = some ((a, b), rest)

  abbrev pub decode_second : Codec B → Option (A × List ℕ) → Option ((A × B) × List ℕ)
  decode_second d none = none
  decode_second d (some (a, rest)) = with_first a (d.decode rest)

  pub pair_law :
      (c : Codec A) (d : Codec B) (a : A) (b : B) (x y : Option (List ℕ))
      → c.encode a ≡ x
      → d.encode b ≡ y
      → (bs rest : List ℕ) → appended x y ≡ some bs
      → decode_second d (c.decode (bs ++ rest)) ≡ some ((a, b), rest)
  pair_law c d a b none y hx hy bs rest h = cc
  pair_law c d a b (some x) none hx hy bs rest h = cc
  pair_law c d a b (some x) (some y) hx hy bs rest h =
      let same : x ++ y ≡ bs = cc in
      rw (← same, append_assoc x y rest, c.law a x (y ++ rest) hx, d.law b y rest hy) refl

  abbrev pub pair : Codec A → Codec B → Codec (A × B)
  pair c d = record {
    encode = λ p. appended (c.encode p.0) (d.encode p.1);
    decode = λ bs. decode_second d (c.decode bs);
    law = λ p. pair_law c d p.0 p.1 (c.encode p.0) (d.encode p.1) refl refl;
  }

module _ {A : Type 0} where
  abbrev pub encode_option : Codec A → Option A → Option (List ℕ)
  encode_option c none = some (0 ∷ [])
  encode_option c (some a) = appended (some (1 ∷ [])) (c.encode a)

  abbrev pub some_first : Option (A × List ℕ) → Option (Option A × List ℕ)
  some_first none = none
  some_first (some (a, rest)) = some (some a, rest)

  abbrev pub decode_option : Codec A → List ℕ → Option (Option A × List ℕ)
  decode_option c [] = none
  decode_option c (tag ∷ bs) = if tag == 0 then some (none, bs) else some_first (c.decode bs)

  pub option_law :
      (c : Codec A) (o : Option A) (bs rest : List ℕ)
      → encode_option c o ≡ some bs
      → decode_option c (bs ++ rest) ≡ some (o, rest)
  option_law c none bs rest h = let same : 0 ∷ [] ≡ bs = cc in rw (← same) refl
  option_law c (some a) bs rest h = go (c.encode a) refl h
    where
      go :
          (x : Option (List ℕ))
          → c.encode a ≡ x
          → appended (some (1 ∷ [])) x ≡ some bs
          → decode_option c (bs ++ rest) ≡ some (some a, rest)
      go none is h = cc
      go (some x) is h = let same : 1 ∷ x ≡ bs = cc in rw (← same, c.law a x rest is) refl

  abbrev pub option : Codec A → Codec (Option A)
  option c = record { encode = encode_option c; decode = decode_option c; law = option_law c }

  abbrev pub encode_all : Codec A → List A → Option (List ℕ)
  encode_all c [] = some []
  encode_all c (a ∷ as') = appended (c.encode a) (encode_all c as')

  abbrev pub cons_first : A → Option (List A × List ℕ) → Option (List A × List ℕ)
  cons_first a none = none
  cons_first a (some (as', rest)) = some (a ∷ as', rest)

  unfoldable pub decode_all : Codec A → ℕ → List ℕ → Option (List A × List ℕ)
  decode_all c zero bs = some ([], bs)
  decode_all c (suc n) bs = elim (c.decode bs) [
    | none ↦ none
    | some r ↦ cons_first r.0 (decode_all c n r.1)
  ]

  pub all_law :
      (c : Codec A) (xs : List A) (bs rest : List ℕ)
      → encode_all c xs ≡ some bs
      → decode_all c (length xs) (bs ++ rest) ≡ some (xs, rest)
  unfolding decode_all
  all_law c [] bs rest h = let same : [] ≡ bs = cc in rw (← same) refl
  all_law c (a ∷ xs) bs rest h = go (all_law c xs) (c.encode a) (encode_all c xs) refl refl h
    where
      go :
          ((y rest : List ℕ)
            → encode_all c xs ≡ some y
            → decode_all c (length xs) (y ++ rest) ≡ some (xs, rest))
          → (x y : Option (List ℕ)) → c.encode a ≡ x
          → encode_all c xs ≡ y
          → appended x y ≡ some bs
          → decode_all c (length (a ∷ xs)) (bs ++ rest) ≡ some (a ∷ xs, rest)
      go ih none y hx hy h = cc
      go ih (some x) none hx hy h = cc
      go ih (some x) (some y) hx hy h =
          let same : x ++ y ≡ bs = cc in
          rw (← same, append_assoc x y rest, c.law a x (y ++ rest) hx, ih y rest hy) refl

  unfoldable pub decode_list : Codec A → List ℕ → Option (List A × List ℕ)
  unfolding decode_all
  decode_list c [] = none
  decode_list c (n ∷ bs) = decode_all c n bs

  pub list_law :
      (c : Codec A) (xs : List A) (bs rest : List ℕ)
      → appended (some (length xs ∷ [])) (encode_all c xs) ≡ some bs
      → decode_list c (bs ++ rest) ≡ some (xs, rest)
  unfolding decode_list decode_all
  list_law c xs bs rest h = go (encode_all c xs) refl h
    where
      go :
          (y : Option (List ℕ))
          → encode_all c xs ≡ y
          → appended (some (length xs ∷ [])) y ≡ some bs
          → decode_list c (bs ++ rest) ≡ some (xs, rest)
      go none hy h = cc
      go (some y) hy h = let same : length xs ∷ y ≡ bs = cc in rw (← same) (all_law c xs y rest hy)

  abbrev pub list : Codec A → Codec (List A)
  list c = record {
    encode = λ xs. appended (some (length xs ∷ [])) (encode_all c xs);
    decode = decode_list c;
    law = list_law c;
  }

  abbrev pub write : Codec A → A → Result ConversionError (List ℕ)
  write c a = elim (c.encode a) [ none ↦ err invalid_protobuf | some bs ↦ ok bs ]

  abbrev pub parse : Codec A → List ℕ → Result ConversionError A
  parse c bs = elim (c.decode bs) [ none ↦ err invalid_protobuf | some r ↦ ok r.0 ]

  pub write_law : (c : Codec A) (a : A) (bs : List ℕ) → write c a ≡ ok bs → parse c bs ≡ ok a
  write_law c a bs h = go (c.encode a) refl h
    where
      go : (x : Option (List ℕ)) → c.encode a ≡ x → write c a ≡ ok bs → parse c bs ≡ ok a
      go none is h = absurd (cc (rw (write, is) at h))
      go (some x) is h =
          let same : x ≡ bs = cc (rw (write, is) at h) in
          let read : c.decode bs ≡ some (a, []) =
            subst (λ t. c.decode t ≡ some (a, [])) (append-nil bs)
              (c.law a bs [] (is ∙ ap some same)) in
          rw (parse, read) refl

  abbrev pub wire : Codec A → Wire A
  wire c = record {
    write_to_bytes = write c;
    parse_from_bytes = parse c;
    parse_from_bytes-write_to_bytes = write_law c;
  }
