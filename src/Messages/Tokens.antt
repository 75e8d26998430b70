-- ===== src/Messages/Tokens.antt =====
-- src/os_ros.cpp: `parse_tokens` and `check_token` on the bytes of a text. A `std::set` is a list with no element
-- twice: its order is never asked for.
pub mod Padded
pub mod Join
use ouster_ros.Prelude.{
  ℕ, suc, ◌+◌, ◌-◌, Bool, true, false, not, ◌&&◌, ◌||◌, Option, none, some, List, [], ◌∷◌, take,
  drop, ◌==◌, if◌then◌else◌,
}

abbrev pub blank : ℕ
blank = 32

abbrev pub eq_text : List ℕ → List ℕ → Bool
eq_text [] [] = true
eq_text [] (d ∷ t) = false
eq_text (c ∷ s) [] = false
eq_text (c ∷ s) (d ∷ t) = (c == d) && eq_text s t

-- A byte before the first of the lines that follow it.
abbrev pub extend : ℕ → List (List ℕ) → List (List ℕ)
extend c [] = (c ∷ []) ∷ []
extend c (line ∷ lines) = (c ∷ line) ∷ lines

-- The lines that `getline` yields: none at the end of the stream, so that a last empty line is none.
unfoldable pub getlines : ℕ → List ℕ → List (List ℕ)
getlines delim [] = []
getlines delim (c ∷ input) =
    let rest = getlines delim input in if c == delim then [] ∷ rest else extend c rest

unfoldable pub find_first_not_of : List ℕ → Option ℕ
find_first_not_of [] = none
find_first_not_of (c ∷ token) =
    let rest = find_first_not_of token in
    if c == blank then elim rest [ none ↦ none | some i ↦ some (suc i) ] else some 0

unfoldable pub find_last_not_of : List ℕ → Option ℕ
find_last_not_of [] = none
find_last_not_of (c ∷ token) = elim (find_last_not_of token) [
  | some i ↦ some (suc i)
  | none ↦ if c == blank then none else some 0
]

abbrev pub substr : List ℕ → ℕ → ℕ → List ℕ
substr token start count = take count (drop start token)

-- `none` for a line of blanks alone.
unfoldable pub trim : List ℕ → Option (List ℕ)
trim token = elim (find_first_not_of token) [
  | none ↦ none
  | some start ↦ elim (find_last_not_of token) [
    | none ↦ none
    | some end ↦ some (substr token start (end - start + 1))
  ]
]

unfoldable pub check_token : List (List ℕ) → List ℕ → Bool
check_token [] token = false
check_token (t ∷ tokens) token = eq_text t token || check_token tokens token

unfoldable pub insert : List ℕ → List (List ℕ) → List (List ℕ)
unfolding check_token
insert token tokens = if check_token tokens token then tokens else token ∷ tokens

-- The body of the loop, for a line that is trimmed.
unfoldable pub insert_trimmed : Option (List ℕ) → List (List ℕ) → List (List ℕ)
unfolding insert
insert_trimmed none tokens = tokens
insert_trimmed (some []) tokens = tokens
insert_trimmed (some (c ∷ token)) tokens = insert (c ∷ token) tokens

unfoldable pub insert_lines : List (List ℕ) → List (List ℕ) → List (List ℕ)
unfolding insert_trimmed
insert_lines [] tokens = tokens
insert_lines (line ∷ lines) tokens = insert_lines lines (insert_trimmed (trim line) tokens)

unfoldable pub parse_tokens : List ℕ → ℕ → List (List ℕ)
parse_tokens input delim = insert_lines (getlines delim input) []
