-- ===== src/Assembler/Text.antt =====
-- assembler.h, `clean` and `tokenize`, with what they and `assembleLine` use of <string> and <cctype>
-- in the "C" locale. A text is the list of its bytes.
use mocker.Prelude.{
  ℕ, zero, suc, ◌+◌, ◌==◌, ◌&&◌, ◌||◌, not, Bool, true, false, List, [], ◌∷◌, ◌++◌, if◌then◌else◌,
  leb,
}

abbrev pub is_digit : ℕ → Bool
is_digit c = leb b'0' c && leb c b'9'

abbrev pub is_upper : ℕ → Bool
is_upper c = leb b'A' c && leb c b'Z'

abbrev pub is_lower : ℕ → Bool
is_lower c = leb b'a' c && leb c b'z'

-- In the "C" locale; a byte above 127, for which `isalnum` is undefined where char is signed, is none.
unfoldable pub is_alnum : ℕ → Bool
is_alnum c = is_digit c || is_upper c || is_lower c

unfoldable pub to_lower : ℕ → ℕ
to_lower c = if is_upper c then c + 32 else c

-- Blank, tab, carriage return and newline, the set " \t\r\n" of `clean`.
abbrev pub is_blank : ℕ → Bool
is_blank c = (c == b' ') || (c == 9) || (c == 13) || (c == 10)

abbrev pub all : (ℕ → Bool) → List ℕ → Bool
all test [] = true
all test (c ∷ s) = test c && all test s

-- The part before the first byte that passes the test, and the part from it on.
abbrev pub before : (ℕ → Bool) → List ℕ → List ℕ
before test [] = []
before test (c ∷ s) = if test c then [] else c ∷ before test s

abbrev pub from : (ℕ → Bool) → List ℕ → List ℕ
from test [] = []
from test (c ∷ s) = if test c then c ∷ s else from test s

abbrev pub drop : ℕ → List ℕ → List ℕ
drop zero s = s
drop (suc n) [] = []
drop (suc n) (c ∷ s) = drop n s

abbrev pub is_empty : List ℕ → Bool
is_empty [] = true
is_empty (c ∷ s) = false

-- The text without its last byte, and whether the last byte is a colon.
abbrev pub but_last : List ℕ → List ℕ
but_last [] = []
but_last (c ∷ []) = []
but_last (c ∷ d ∷ s) = c ∷ but_last (d ∷ s)

abbrev pub ends_in_colon : List ℕ → Bool
ends_in_colon [] = false
ends_in_colon (c ∷ []) = c == b':'
ends_in_colon (c ∷ d ∷ s) = ends_in_colon (d ∷ s)

abbrev pub is_comment : ℕ → Bool
is_comment c = (c == b'#') || (c == b';')

abbrev pub prepend : ℕ → List ℕ → List ℕ
prepend c [] = if is_blank c then [] else c ∷ []
prepend c (d ∷ s) = c ∷ d ∷ s

-- The text up to its last byte that is not blank.
abbrev pub trim_end : List ℕ → List ℕ
trim_end [] = []
trim_end (c ∷ s) = prepend c (trim_end s)

unfoldable pub clean : List ℕ → List ℕ
clean raw = trim_end (from (λ c. not (is_blank c)) (before is_comment raw))

abbrev pub is_separator : ℕ → Bool
is_separator c = (c == b',') || (c == 9)

-- `if(!t.empty()) out.push_back(t)`, where `out` is built from its end.
abbrev pub push : List ℕ → List (List ℕ) → List (List ℕ)
push [] out = out
push (c ∷ t) out = (c ∷ t) ∷ out

-- The loop over the characters, with what it has read of the current token.
unfoldable pub tokens : List ℕ → List ℕ → List (List ℕ)
tokens cur [] = push (clean cur) []
tokens cur (c ∷ s) =
    let rest = tokens (if is_separator c then [] else cur ++ c ∷ []) s in
    if is_separator c then push (clean cur) rest else rest

unfoldable pub tokenize : List ℕ → List (List ℕ)
unfolding tokens
tokenize s = tokens [] s
