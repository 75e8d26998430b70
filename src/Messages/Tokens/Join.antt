-- ===== src/Messages/Tokens/Join.antt =====
-- A text made of tokens and read again.
use ouster_ros.Prelude.{
  subst, Bool-cases, inl, inr, ℕ, zero, suc, ◌≡◌, refl, ap, ◌∙◌, Bool, true, false, ◌||◌, List, [],
  ◌∷◌, ◌++◌, replicate, map, ◌==◌, arith,
}
use ouster_ros.Messages.Tokens.{
  blank, eq_text, getlines, check_token, insert, insert_trimmed, insert_lines, parse_tokens,
}
use ouster_ros.Messages.Tokens.Padded.{
  getlines-append, getlines-last, lacks-append, lacks-blanks, clean-lacks, trim-padded, is_clean,
  lacks, Piece, token, padded, join, AllClean,
}

padded-lacks :
    (delim : ℕ) (p : Piece)
    → (delim == blank) ≡ false
    → is_clean delim (token p) ≡ true
    → lacks delim (padded p) ≡ true
padded-lacks delim p d h =
    lacks-append delim (replicate p.left blank) (token p ++ replicate p.right blank)
      (lacks-blanks delim p.left d)
      (lacks-append delim (token p) (replicate p.right blank) (clean-lacks delim (token p) h)
        (lacks-blanks delim p.right d))

getlines-one :
    (delim n c : ℕ) (s : List ℕ)
    → lacks delim (replicate n blank ++ (c ∷ s)) ≡ true
    → getlines delim (replicate n blank ++ (c ∷ s)) ≡ (replicate n blank ++ (c ∷ s)) ∷ []
getlines-one delim zero c s h = getlines-last delim c s h
getlines-one delim (suc n) c s h = getlines-last delim blank (replicate n blank ++ (c ∷ s)) h

getlines-empty : (delim : ℕ) → getlines delim [] ≡ []
unfolding getlines
getlines-empty delim = refl

getlines-join :
    (delim : ℕ) (ps : List Piece)
    → (delim == blank) ≡ false
    → AllClean delim ps
    → getlines delim (join delim ps) ≡ map padded ps
unfolding AllClean join
getlines-join delim [] d h = getlines-empty delim
getlines-join delim (p ∷ []) d (clean, h) =
    getlines-one delim p.left p.first (p.rest ++ replicate p.right blank)
      (padded-lacks delim p d clean)
getlines-join delim (p ∷ q ∷ ps) d (clean, h) =
    getlines-append delim (padded p) (join delim (q ∷ ps)) (padded-lacks delim p d clean)
    ∙ ap (λ ls. padded p ∷ ls) (getlines-join delim (q ∷ ps) d h)

-- The words of a list, each once.
abbrev insert_all : List Piece → List (List ℕ) → List (List ℕ)
insert_all [] tokens = tokens
insert_all (p ∷ ps) tokens = insert_all ps (insert (token p) tokens)

insert_lines-padded :
    (delim : ℕ) (ps : List Piece) (tokens : List (List ℕ))
    → AllClean delim ps
    → insert_lines (map padded ps) tokens ≡ insert_all ps tokens
unfolding AllClean insert_lines
insert_lines-padded delim [] tokens h = refl
insert_lines-padded delim (p ∷ ps) tokens (clean, h) =
    ap (λ t. insert_lines (map padded ps) (insert_trimmed t tokens)) (trim-padded delim p clean)
    ∙ insert_lines-padded delim ps (insert (token p) tokens) h

eq_text_refl : (s : List ℕ) → eq_text s s ≡ true
eq_text_refl [] = refl
eq_text_refl (c ∷ s) = ground (arith, eq_text_refl s)

eq_text-eq : (s t : List ℕ) → eq_text s t ≡ true → s ≡ t
eq_text-eq [] [] h = refl
eq_text-eq [] (d ∷ t) h = cc
eq_text-eq (c ∷ s) [] h = cc
eq_text-eq (c ∷ s) (d ∷ t) h = let rec = eq_text-eq s t (ground arith) in ground (arith, rec)

check-insert :
    (t word : List ℕ) (tokens : List (List ℕ))
    → check_token (insert t tokens) word ≡ (check_token tokens word || eq_text t word)
unfolding insert check_token
check-insert t word tokens = elim (Bool-cases (check_token tokens t)) [
  | inr e ↦ ground (arith, e)
  | inl e ↦ elim (Bool-cases (eq_text t word)) [
    | inr f ↦ ground (arith, e, f)
    | inl f ↦
        let found = subst (λ w. check_token tokens w ≡ true) (eq_text-eq t word f) e in
        ground (arith, e, f, found)
  ]
]

-- The word is one of the tokens.
unfoldable pub is_among : List ℕ → List Piece → Bool
is_among word [] = false
is_among word (p ∷ ps) = eq_text (token p) word || is_among word ps

check-insert_all :
    (ps : List Piece) (word : List ℕ) (tokens : List (List ℕ))
    → check_token (insert_all ps tokens) word ≡ (check_token tokens word || is_among word ps)
unfolding is_among
check-insert_all [] word tokens = ground arith
check-insert_all (p ∷ ps) word tokens =
    ground (
      arith,
      check-insert_all ps word (insert (token p) tokens),
      check-insert (token p) word tokens,
    )

check-nothing : (word : List ℕ) (b : Bool) → (check_token [] word || b) ≡ b
unfolding check_token
check-nothing word b = refl

-- Tokens without blanks, each padded with blanks as one likes, and joined by a delimiter that is neither a blank nor in
-- one of them, are read back: after `parse_tokens`, `check_token` answers for any word whether it is one of them.
pub check_token-parse_tokens :
    (delim : ℕ) (ps : List Piece) (word : List ℕ)
    → (delim == blank) ≡ false
    → AllClean delim ps
    → check_token (parse_tokens (join delim ps) delim) word ≡ is_among word ps
unfolding parse_tokens
check_token-parse_tokens delim ps word d h =
    ap (λ lines. check_token (insert_lines lines []) word) (getlines-join delim ps d h)
    ∙ ap (λ tokens. check_token tokens word) (insert_lines-padded delim ps [] h)
    ∙ check-insert_all ps word []
    ∙ check-nothing word (is_among word ps)
