-- ===== src/Backend/Words.antt =====
-- How the shell reads quoted texts, names of packages and components.
use android_appliance.Base.{
  ℕ, ◌≡◌, ◌⊎◌, refl, sym, ap, ◌∙◌, Option, none, some, Bool, true, false, ◌||◌, List, [], ◌∷◌, ◌++◌,
  ◌==◌, if◌then◌else◌, arith, append_assoc, append_nil, Bool-cases, inl, inr, all,
}
use android_appliance.Base.Text.{Text, contains}
use android_appliance.Backend.Shell.{
  escape, quote, is_literal, plain, quoted, begun, end_word, read_words, words, is_package,
  matches_package, PackageState, at_first, in_first, at_part, in_part, is_component,
  is_component_char, matches_component, ComponentState, before_first, before_slash, after_slash,
  after_first,
}

-- A quoted text continues the word that has begun, up to the end of the quotes.
read_words-escape :
    (w v rest : Text)
    → read_words quoted (some w) (escape v ++ b'\'' ∷ rest) ≡ read_words plain (some (w ++ v)) rest
read_words-escape w [] rest = rw (append_nil w) refl
read_words-escape w (c ∷ v) rest = elim (Bool-cases (c == b'\'')) [
  | inl e ↦
      let here : c ≡ b'\'' = ground arith in
      rw (here, read_words-escape (w ++ b'\'' ∷ []) v rest, append_assoc w (b'\'' ∷ []) v) refl
  | inr e ↦ rw (e, e) (rw (read_words-escape (w ++ c ∷ []) v rest, append_assoc w (c ∷ []) v) refl)
]

-- A quoted text stands in a command for itself, wherever a word is read outside quotes and whatever
-- follows it.
pub read_words-quote :
    (w : Option Text) (v rest : Text)
    → read_words plain w (quote v ++ rest) ≡ read_words plain (some (begun w ++ v)) rest
unfolding quote
read_words-quote w v rest =
    rw (append_assoc (escape v) (b'\'' ∷ []) rest) (read_words-escape (begun w) v rest)

-- Characters that the shell takes for themselves are read as they are.
read_words-literal :
    (w s rest : Text)
    → all is_literal s ≡ true
    → read_words plain (some w) (s ++ rest) ≡ read_words plain (some (w ++ s)) rest
read_words-literal w [] rest h = rw (append_nil w) refl
read_words-literal w (c ∷ s) rest h =
    ground (arith, read_words-literal (w ++ c ∷ []) s rest, append_assoc w (c ∷ []) s)

matches_package-literal :
    (st : PackageState) (s : Text) → matches_package st s ≡ true → all is_literal s ≡ true
unfolding matches_package
matches_package-literal st [] h = refl
matches_package-literal at_first (c ∷ s) h = ground (arith, matches_package-literal in_first s)
matches_package-literal in_first (c ∷ s) h =
    ground (arith, matches_package-literal in_first s, matches_package-literal at_part s)
matches_package-literal at_part (c ∷ s) h = ground (arith, matches_package-literal in_part s)
matches_package-literal in_part (c ∷ s) h =
    ground (arith, matches_package-literal in_part s, matches_package-literal at_part s)

-- A word of literal characters at the start of what is left, and what follows it.
read_words-start :
    (c : ℕ) (s rest : Text)
    → all is_literal (c ∷ s) ≡ true
    → read_words plain none ((c ∷ s) ++ rest) ≡ read_words plain (some (c ∷ s)) rest
read_words-start c s rest h = ground (arith, read_words-literal (c ∷ []) s rest)

words-literal :
    (c : ℕ) (s : Text) → all is_literal (c ∷ s) ≡ true → words (c ∷ s) ≡ some ((c ∷ s) ∷ [])
words-literal c s h =
    ap (λ l. read_words plain none (c ∷ l)) (sym (append_nil s)) ∙ read_words-start c s [] h

-- A literal word and a space before the rest of a command.
pub words-space :
    (c : ℕ) (s rest : Text)
    → all is_literal (c ∷ s) ≡ true
    → words ((c ∷ s) ++ b' ' ∷ rest) ≡ end_word (some (c ∷ s)) (words rest)
words-space c s rest h = read_words-start c s (b' ' ∷ rest) h

pub words-package : (p : Text) → is_package p ≡ true → words p ≡ some (p ∷ [])
unfolding is_package
words-package [] h = cc
words-package (c ∷ p) h = words-literal c p (matches_package-literal at_first (c ∷ p) h)

pub words-quote : (v : Text) → words (quote v) ≡ some (v ∷ [])
words-quote v =
    ap (λ l. read_words plain none l) (sym (append_nil (quote v))) ∙ read_words-quote none v []

abbrev is_component_or_slash : ℕ → Bool
is_component_or_slash c = is_component_char c || c == b'/'

dollar_or_literal :
    (c : ℕ)
    → is_component_or_slash c ≡ true
    → ((c == b'$') ≡ true) ⊎ (((c == b'$') ≡ false) × (is_literal c ≡ true))
dollar_or_literal c h = ground arith

read_words_dollar :
    (w : Option Text) (c : ℕ) (s : Text) → (c == b'$') ≡ true → read_words plain w (c ∷ s) ≡ none
read_words_dollar w c s h = ground arith

read_words_next :
    (w : Option Text) (c : ℕ) (s : Text)
    → is_literal c ≡ true
    → read_words plain w (c ∷ s) ≡ read_words plain (some (begun w ++ c ∷ [])) s
read_words_next w c s h = ground arith

-- What is left of a component, read after `w`.
abbrev read_component : Text → Text → Option (List Text)
read_component w s = if contains b'$' s then none else some ((w ++ s) ∷ [])

read_component-next :
    (w : Option Text) (c : ℕ) (s : Text)
    → is_component_or_slash c ≡ true
    → read_words plain (some (begun w ++ c ∷ [])) s ≡ read_component (begun w ++ c ∷ []) s
    → read_words plain w (c ∷ s) ≡ read_component (begun w) (c ∷ s)
read_component-next w c s h ih = elim (dollar_or_literal c h) [
  | inl e ↦ rw (read_words_dollar w c s e, e) refl
  | inr (e, l) ↦ rw (read_words_next w c s l, ih, e, append_assoc (begun w) (c ∷ []) s) refl
]

matches_component-dollar :
    (st : ComponentState) (w : Option Text) (c : ℕ) (s : Text)
    → matches_component st (c ∷ s) ≡ true
    → read_words plain w (c ∷ s) ≡ read_component (begun w) (c ∷ s)
unfolding matches_component
matches_component-dollar after_first w c [] h =
    read_component-next w c [] (ground arith) (rw (append_nil (begun w ++ c ∷ [])) refl)
matches_component-dollar after_slash w c [] h =
    read_component-next w c [] (ground arith) (rw (append_nil (begun w ++ c ∷ [])) refl)
matches_component-dollar before_first w c [] h = ground arith
matches_component-dollar before_slash w c [] h = ground arith
matches_component-dollar after_first w c (d ∷ s) h =
    read_component-next w c (d ∷ s) (ground arith)
      (matches_component-dollar after_first (some (begun w ++ c ∷ [])) d s (ground arith))
matches_component-dollar after_slash w c (d ∷ s) h =
    read_component-next w c (d ∷ s) (ground arith)
      (matches_component-dollar after_first (some (begun w ++ c ∷ [])) d s (ground arith))
matches_component-dollar before_first w c (d ∷ s) h =
    read_component-next w c (d ∷ s) (ground arith)
      (matches_component-dollar before_slash (some (begun w ++ c ∷ [])) d s (ground arith))
matches_component-dollar before_slash w c (d ∷ s) h = elim (Bool-cases (is_component_char c)) [
  | inl e ↦
      read_component-next w c (d ∷ s) (rw e refl)
        (matches_component-dollar before_slash (some (begun w ++ c ∷ [])) d s (rw e at h))
  | inr e ↦
      read_component-next w c (d ∷ s) (ground arith)
        (matches_component-dollar after_slash (some (begun w ++ c ∷ [])) d s (ground arith))
]

-- A component is read as it is, unless it has a dollar sign: then the shell expands it.
pub words-component :
    (c : Text) → is_component c ≡ true → words c ≡ (if contains b'$' c then none else some (c ∷ []))
unfolding is_component
words-component [] h = cc
words-component (c ∷ s) h = matches_component-dollar before_first none c s h
