-- ===== src/Init/Expand/Names.antt =====
-- Names, operators and braces as `expand_braced` of dinix-init/src/expand.rs cuts them out.
use dinix.Shared.{
  ℕ, ◌<◌, ◌≡◌, refl, Bool, true, false, ◌&&◌, ◌||◌, some, [], ◌∷◌, ◌++◌, ◌==◌, leb, if◌then◌else◌,
  arith, ==_iff, Bool-cases, inl, inr,
}
use dinix.Utf8.{Str}
use dinix.Init.Expand.{
  Alphabet, Operator, absent, colon_dash, dash, colon_plus, plus, take_braced, span, all,
  before_operator, operator_of, is_name_start, is_name_char, is_name,
}

abbrev pub ascii_letter : ℕ → Bool
ascii_letter c = (leb b'A' c && leb c b'Z') || (leb b'a' c && leb c b'z')

abbrev pub ascii_digit : ℕ → Bool
ascii_digit c = leb b'0' c && leb c b'9'

-- The ASCII range of `char::is_alphabetic` and `char::is_numeric`, as Rust documents them.
pub record IsAscii (alphabet : Alphabet) : Type 0 where
  pub letters : (c : ℕ) → c < 128 → alphabet.is_alphabetic c ≡ ascii_letter c
  pub digits : (c : ℕ) → c < 128 → alphabet.is_numeric c ≡ ascii_digit c

-- Where a span ends.
abbrev pub Stops : (ℕ → Bool) → Str → Type 0
Stops test [] = Unit
Stops test (c ∷ cs) = test c ≡ false

pub and-true : (a b : Bool) → (a && b) ≡ true → (a ≡ true) × (b ≡ true)
and-true true true h = (refl, refl)
and-true true false h = cc
and-true false b h = cc

or-widen : (a b c : Bool) → (a || c) ≡ true → ((a || b) || c) ≡ true
or-widen true b c h = refl
or-widen false true c h = refl
or-widen false false c h = h

pub all-cons :
    (test : ℕ → Bool) (c : ℕ) (s : Str)
    → all test (c ∷ s) ≡ true
    → (test c ≡ true) × (all test s ≡ true)
unfolding all
all-cons test c s h = and-true (test c) (all test s) h

pub all-append :
    (test : ℕ → Bool) (s t : Str) → all test s ≡ true → all test t ≡ true → all test (s ++ t) ≡ true
unfolding all
all-append test [] t hs ht = ht
all-append test (c ∷ s) t hs ht =
    let (hc, hs) = all-cons test c s hs in rw hc (all-append test s t hs ht)

pub all-imp :
    (p q : ℕ → Bool) (s : Str)
    → ((c : ℕ) → p c ≡ true → q c ≡ true)
    → all p s ≡ true
    → all q s ≡ true
unfolding all
all-imp p q [] imp h = refl
all-imp p q (c ∷ s) imp h = let (hc, hs) = all-cons p c s h in rw (imp c hc) (all-imp p q s imp hs)

span-Stops : (test : ℕ → Bool) (t : Str) → Stops test t → span test t ≡ ([], t)
unfolding span
span-Stops test [] h = refl
span-Stops test (c ∷ t) h = rw h

pub span-all :
    (test : ℕ → Bool) (s t : Str) → all test s ≡ true → Stops test t → span test (s ++ t) ≡ (s, t)
unfolding span
span-all test [] t h stop = span-Stops test t stop
span-all test (c ∷ s) t h stop =
    let (hc, hs) = all-cons test c s h in rw hc (rw (span-all test s t hs stop))

abbrev pub not_close : ℕ → Bool
not_close c = if c == b'}' then false else true

unless-false : (b : Bool) → (if b then false else true) ≡ true → b ≡ false
unless-false true h = cc
unless-false false h = refl

pub take_braced-all :
    (s rest : Str) → all not_close s ≡ true → take_braced (s ++ (b'}' ∷ rest)) ≡ some (s, rest)
unfolding take_braced
take_braced-all [] rest h = refl
take_braced-all (c ∷ s) rest h =
    let (hc, hs) = all-cons not_close c s h in
    let e : (c == b'}') ≡ false = unless-false (c == b'}') hc in
    rw e (rw (take_braced-all s rest hs))

-- The operator and the word as they are written.
unfoldable pub operator_text : Operator → Str → Str
operator_text absent word = []
operator_text colon_dash word = b':' ∷ b'-' ∷ word
operator_text dash word = b'-' ∷ word
operator_text colon_plus word = b':' ∷ b'+' ∷ word
operator_text plus word = b'+' ∷ word

abbrev pub word_of : Operator → Str → Str
word_of absent word = []
word_of _ word = word

pub operator_of-text :
    (o : Operator) (word : Str) → operator_of (operator_text o word) ≡ some (o, word_of o word)
unfolding operator_of operator_text
operator_of-text absent word = refl
operator_of-text colon_dash word = refl
operator_of-text dash word = refl
operator_of-text colon_plus word = refl
operator_of-text plus word = refl

pub operator_text-Stops : (o : Operator) (word : Str) → Stops before_operator (operator_text o word)
unfolding operator_text
operator_text-Stops absent word = tt
operator_text-Stops colon_dash word = refl
operator_text-Stops dash word = refl
operator_text-Stops colon_plus word = refl
operator_text-Stops plus word = refl

pub operator_text-not_close :
    (o : Operator) (word : Str)
    → all not_close word ≡ true
    → all not_close (operator_text o word) ≡ true
unfolding operator_text all
operator_text-not_close absent word h = refl
operator_text-not_close colon_dash word h = h
operator_text-not_close dash word h = h
operator_text-not_close colon_plus word h = h
operator_text-not_close plus word h = h

module _ (alphabet : Alphabet) (ascii : IsAscii alphabet) where
  -- A symbol of ASCII is no character of a name.
  symbol :
      (k : ℕ)
      → k < 128
      → ascii_letter k ≡ false
      → ascii_digit k ≡ false
      → (k == b'_') ≡ false
      → is_name_char alphabet k ≡ false
  unfolding is_name_char
  symbol k h letter digit under =
      rw (ascii.letters k h, letter) (rw (ascii.digits k h, digit) under)

  differs :
      (k c : ℕ)
      → is_name_char alphabet k ≡ false
      → is_name_char alphabet c ≡ true
      → (c == k) ≡ false
  differs k c hk hc = elim (Bool-cases (c == k)) [
    | inl same ↦ let e : c ≡ k = (==_iff c k).0 same in cc
    | inr other ↦ other
  ]

  pub start-is_name_char :
      (c : ℕ) → is_name_start alphabet c ≡ true → is_name_char alphabet c ≡ true
  unfolding is_name_start is_name_char
  start-is_name_char c h = or-widen (alphabet.is_alphabetic c) _ _ h

  pub name_char-dollar : (c : ℕ) → is_name_char alphabet c ≡ true → (c == b'$') ≡ false
  name_char-dollar c h = differs b'$' c (symbol b'$' (omega arith) refl refl refl) h

  pub name_char-open : (c : ℕ) → is_name_char alphabet c ≡ true → (c == b'{') ≡ false
  name_char-open c h = differs b'{' c (symbol b'{' (omega arith) refl refl refl) h

  pub name_char-not_close : (c : ℕ) → is_name_char alphabet c ≡ true → not_close c ≡ true
  name_char-not_close c h = rw (differs b'}' c (symbol b'}' (omega arith) refl refl refl) h)

  pub name_char-before_operator :
      (c : ℕ) → is_name_char alphabet c ≡ true → before_operator c ≡ true
  name_char-before_operator c h = rw (
    differs b':' c (symbol b':' (omega arith) refl refl refl) h,
    differs b'-' c (symbol b'-' (omega arith) refl refl refl) h,
    differs b'+' c (symbol b'+' (omega arith) refl refl refl) h,
  )

  pub is_name-cons :
      (c : ℕ) (s : Str)
      → is_name alphabet (c ∷ s) ≡ true
      → (is_name_start alphabet c ≡ true) × (all (is_name_char alphabet) (c ∷ s) ≡ true)
  unfolding is_name
  is_name-cons c s h = and-true _ _ h

  pub is_name-all :
      (name : Str) → is_name alphabet name ≡ true → all (is_name_char alphabet) name ≡ true
  is_name-all [] h = unfold is_name in cc
  is_name-all (c ∷ s) h = (is_name-cons c s h).1
