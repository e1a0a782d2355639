-- ===== src/Scripts/Coverage/Bounds.antt =====
-- Which lines `executable_lines` gives.
use nadi.Common.{
  ℕ, suc, ◌+◌, ◌≤◌, ◌<◌, ◌≡◌, String, Bool, true, false, not, ◌||◌, Option, none, some, List, [],
  ◌∷◌, ◌++◌, All, length,
}
use nadi.Strings.{strip, is_space, occurs, count_text}
use nadi.Scripts.Coverage.{is_passed_over, opening_quote}

-- A line inside a docstring with these quotes that does not end it: it is blank, a comment, or has no such
-- quotes.
abbrev pub goes_on : String → String → Bool
goes_on quote line =
    is_passed_over (strip is_space line) || not (occurs quote (strip is_space line))

-- How a file is read, where its first line has the number `n`: the numbers of its lines of code.
--   It may end. A blank line or a comment is left out, and so is a docstring on one line, which begins with
--   quotes and has them again. A docstring of several lines begins with quotes that its first line has
--   once, and is left out with the lines up to the one that ends it, or to the end of the file.
--   Every other line counts.
pub data AreCode : ℕ → List String → List ℕ → Type 0 where
  no_lines : (n : ℕ) → AreCode n [] []
  left_out :
      (n : ℕ) (line : String) (lines : List String) (ks : List ℕ)
      → is_passed_over (strip is_space line) ≡ true
      → AreCode (suc n) lines ks
      → AreCode n (line ∷ lines) ks
  one_line :
      (n : ℕ) (quote line : String) (lines : List String) (ks : List ℕ)
      → is_passed_over (strip is_space line) ≡ false
      → opening_quote (strip is_space line) ≡ some quote
      → 2 ≤ count_text quote (strip is_space line)
      → AreCode (suc n) lines ks
      → AreCode n (line ∷ lines) ks
  closed :
      (n : ℕ) (quote line last : String) (body lines : List String) (ks : List ℕ)
      → is_passed_over (strip is_space line) ≡ false
      → opening_quote (strip is_space line) ≡ some quote
      → count_text quote (strip is_space line) < 2
      → All (λ l. goes_on quote l ≡ true) body
      → goes_on quote last ≡ false
      → AreCode (suc (suc n) + length body) lines ks
      → AreCode n (line ∷ body ++ last ∷ lines) ks
  left_open :
      (n : ℕ) (quote line : String) (body : List String)
      → is_passed_over (strip is_space line) ≡ false
      → opening_quote (strip is_space line) ≡ some quote
      → count_text quote (strip is_space line) < 2
      → All (λ l. goes_on quote l ≡ true) body
      → AreCode n (line ∷ body) []
  counted :
      (n : ℕ) (line : String) (lines : List String) (ks : List ℕ)
      → is_passed_over (strip is_space line) ≡ false
      → opening_quote (strip is_space line) ≡ none
      → AreCode (suc n) lines ks
      → AreCode n (line ∷ lines) (n ∷ ks)

-- The rest of a file from inside a docstring: all of it, or up to a line that ends the docstring.
data Inside (quote : String) : ℕ → List String → List ℕ → Type 0 where
  to_the_end :
      (n : ℕ) (body : List String) → All (λ l. goes_on quote l ≡ true) body → Inside quote n body []
  up_to :
      (n : ℕ) (last : String) (body lines : List String) (ks : List ℕ)
      → All (λ l. goes_on quote l ≡ true) body
      → goes_on quote last ≡ false
      → AreCode (suc n + length body) lines ks
      → Inside quote n (body ++ last ∷ lines) ks

-- A file that is read from outside a docstring, or from inside one.
abbrev Reads : Option String → ℕ → List String → List ℕ → Type 0
Reads none = AreCode
Reads (some quote) = Inside quote
