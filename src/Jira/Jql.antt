-- ===== src/Jira/Jql.antt =====
-- libs/jira/src/jql.ts: texts inside double-quoted JQL values.
use mathlib.Core.List.{append_assoc}
use brigadir.Prelude.{
  ℕ, Option, none, some, List, [], ◌∷◌, ◌++◌, ◌≡◌, refl, arith, if◌then◌else◌, ◌==◌,
}

-- `value.replace(/c/g, r)`, on the characters of a text.
unfoldable pub replace_all : ℕ → List ℕ → List ℕ → List ℕ
replace_all c r [] = []
replace_all c r (x ∷ xs) = (if x == c then r else x ∷ []) ++ replace_all c r xs

abbrev pub backslash : ℕ
backslash = 92

abbrev pub quote : ℕ
quote = 34

unfoldable pub jql_escape : List ℕ → List ℕ
jql_escape value =
    replace_all quote (backslash ∷ quote ∷ [])
      (replace_all backslash (backslash ∷ backslash ∷ []) value)

-- What a quoted literal denotes, from behind its opening quote, with the text after its closing
-- one. A backslash takes a quote or a backslash literally; any other escape is refused.
abbrev pub cons_read : ℕ → Option (List ℕ × List ℕ) → Option (List ℕ × List ℕ)
cons_read x none = none
cons_read x (some (v, rest)) = some (x ∷ v, rest)

pub read_literal : List ℕ → Option (List ℕ × List ℕ)
read_literal [] = none
read_literal (x ∷ []) = if x == quote then some ([], []) else none
read_literal (x ∷ y ∷ rest) =
    if x == quote
    then some ([], y ∷ rest)
    else if x == backslash
    then (if y == quote
        then cons_read quote (read_literal rest)
        else if y == backslash
        then cons_read backslash (read_literal rest)
        else none)
    else cons_read x (read_literal (y ∷ rest))

abbrev escaped : ℕ → List ℕ
escaped x =
    if x == backslash
    then backslash ∷ backslash ∷ []
    else if x == quote
    then backslash ∷ quote ∷ []
    else x ∷ []

-- The two passes are one pass.
jql_escape-cons : (x : ℕ) (xs : List ℕ) → jql_escape (x ∷ xs) ≡ escaped x ++ jql_escape xs
unfolding jql_escape replace_all
jql_escape-cons x xs = ground arith

read_literal-escaped :
    (x : ℕ) (tail rest : List ℕ) (y : ℕ) (v : List ℕ)
    → read_literal (y ∷ tail) ≡ some (v, rest)
    → read_literal (escaped x ++ y ∷ tail) ≡ some (x ∷ v, rest)
unfolding read_literal
read_literal-escaped x tail rest y v h = ground arith

read_step :
    (x : ℕ) (l v rest : List ℕ)
    → read_literal l ≡ some (v, rest)
    → read_literal (escaped x ++ l) ≡ some (x ∷ v, rest)
unfolding read_literal
read_step x [] v rest h = absurd (ground arith)
read_step x (y ∷ tail) v rest h = read_literal-escaped x tail rest y v h

-- An escaped text between quotes is read back as it was, and the literal ends at its closing quote:
-- no character of the text, a quote or backslash included, breaks out of the literal.
pub read_literal-jql_escape :
    (value rest : List ℕ) → read_literal (jql_escape value ++ quote ∷ rest) ≡ some (value, rest)
unfolding jql_escape replace_all read_literal
read_literal-jql_escape [] [] = refl
read_literal-jql_escape [] (y ∷ rest) = refl
read_literal-jql_escape (x ∷ value) rest =
    rw (jql_escape-cons x value, append_assoc (escaped x) (jql_escape value) (quote ∷ rest))
      (read_step x (jql_escape value ++ quote ∷ rest) value rest
        (read_literal-jql_escape value rest))
