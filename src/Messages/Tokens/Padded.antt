-- ===== src/Messages/Tokens/Padded.antt =====
-- Tokens between blanks: they are taken apart into lines, and trimmed.
use ouster_ros.Prelude.{
  ℕ, zero, suc, ◌+◌, ◌-◌, ◌≡◌, refl, ap, ◌∙◌, Bool, true, false, not, ◌&&◌, none, some, List, [],
  ◌∷◌, ◌++◌, take, drop, replicate, length, ◌==◌, arith,
}
use ouster_ros.Messages.Tokens.{blank, getlines, find_first_not_of, find_last_not_of, trim}

-- Text of a token: no blank and not the delimiter.
unfoldable pub is_clean : ℕ → List ℕ → Bool
is_clean delim [] = true
is_clean delim (c ∷ s) = not (c == blank) && (not (c == delim) && is_clean delim s)

unfoldable pub lacks : ℕ → List ℕ → Bool
lacks delim [] = true
lacks delim (c ∷ s) = not (c == delim) && lacks delim s

-- A token between blanks.
pub record Piece : Type 0 where
  pub left : ℕ
  pub first : ℕ
  pub rest : List ℕ
  pub right : ℕ

abbrev pub token : Piece → List ℕ
token p = p.first ∷ p.rest

abbrev pub padded : Piece → List ℕ
padded p = replicate p.left blank ++ (token p ++ replicate p.right blank)

unfoldable pub join : ℕ → List Piece → List ℕ
join delim [] = []
join delim (p ∷ []) = padded p
join delim (p ∷ q ∷ ps) = padded p ++ (delim ∷ join delim (q ∷ ps))

unfoldable pub AllClean : ℕ → List Piece → Type 0
AllClean delim [] = Unit
AllClean delim (p ∷ ps) = (is_clean delim (token p) ≡ true) × AllClean delim ps

pub getlines-append :
    (delim : ℕ) (s t : List ℕ)
    → lacks delim s ≡ true
    → getlines delim (s ++ (delim ∷ t)) ≡ s ∷ getlines delim t
unfolding getlines lacks
getlines-append delim [] t h = ground arith
getlines-append delim (c ∷ s) t h =
    let rec = getlines-append delim s t (ground arith) in ground (arith, rec)

pub getlines-last :
    (delim c : ℕ) (s : List ℕ) → lacks delim (c ∷ s) ≡ true → getlines delim (c ∷ s) ≡ (c ∷ s) ∷ []
unfolding getlines lacks
getlines-last delim c [] h = ground arith
getlines-last delim c (d ∷ s) h =
    let rec = getlines-last delim d s (ground arith) in ground (arith, rec)

pub lacks-append :
    (delim : ℕ) (s t : List ℕ)
    → lacks delim s ≡ true
    → lacks delim t ≡ true
    → lacks delim (s ++ t) ≡ true
unfolding lacks
lacks-append delim [] t h k = k
lacks-append delim (c ∷ s) t h k = let rec = lacks-append delim s t (ground arith) k in ground arith

pub lacks-blanks : (delim n : ℕ) → (delim == blank) ≡ false → lacks delim (replicate n blank) ≡ true
unfolding lacks
lacks-blanks delim zero h = refl
lacks-blanks delim (suc n) h = let rec = lacks-blanks delim n h in ground arith

pub clean-lacks : (delim : ℕ) (s : List ℕ) → is_clean delim s ≡ true → lacks delim s ≡ true
unfolding lacks is_clean
clean-lacks delim [] h = refl
clean-lacks delim (c ∷ s) h = let rec = clean-lacks delim s (ground arith) in ground arith

pub find_first-padded :
    (n delim c : ℕ) (s t : List ℕ)
    → is_clean delim (c ∷ s) ≡ true
    → find_first_not_of (replicate n blank ++ ((c ∷ s) ++ t)) ≡ some n
unfolding find_first_not_of is_clean
find_first-padded zero delim c s t h = ground arith
find_first-padded (suc n) delim c s t h =
    let rec = find_first-padded n delim c s t h in ground (arith, rec)

pub find_last-blanks : (n : ℕ) → find_last_not_of (replicate n blank) ≡ none
unfolding find_last_not_of
find_last-blanks zero = refl
find_last-blanks (suc n) = let rec = find_last-blanks n in ground (arith, rec)

pub find_last-token :
    (delim c m : ℕ) (s : List ℕ)
    → is_clean delim (c ∷ s) ≡ true
    → find_last_not_of ((c ∷ s) ++ replicate m blank) ≡ some (length s)
unfolding find_last_not_of is_clean
find_last-token delim c m [] h = ground (arith, find_last-blanks m)
find_last-token delim c m (d ∷ s) h =
    let rec = find_last-token delim d m s (ground arith) in ground (arith, rec)

pub find_last-padded :
    (n i : ℕ) (s : List ℕ)
    → find_last_not_of s ≡ some i
    → find_last_not_of (replicate n blank ++ s) ≡ some (n + i)
unfolding find_last_not_of
find_last-padded zero i s h = ground (arith, h)
find_last-padded (suc n) i s h = let rec = find_last-padded n i s h in ground (arith, rec)

pub drop-padded : (n : ℕ) (s : List ℕ) → drop n (replicate n blank ++ s) ≡ s
drop-padded zero s = refl
drop-padded (suc n) s = drop-padded n s

pub take-append_length : (s t : List ℕ) → take (length s) (s ++ t) ≡ s
take-append_length [] t = refl
take-append_length (c ∷ s) t = ap (λ r. c ∷ r) (take-append_length s t)

pub trim-some :
    (s : List ℕ) {i j : ℕ}
    → find_first_not_of s ≡ some i
    → find_last_not_of s ≡ some j
    → trim s ≡ some (take (j - i + 1) (drop i s))
unfolding trim
trim-some s first last = ground (arith, first, last)

pub trim-padded :
    (delim : ℕ) (p : Piece) → is_clean delim (token p) ≡ true → trim (padded p) ≡ some (token p)
trim-padded delim p h =
    let body = token p ++ replicate p.right blank in
    let last =
      find_last-padded p.left (length p.rest) body
        (find_last-token delim p.first p.right p.rest h) in
    let count : p.left + length p.rest - p.left + 1 ≡ length (token p) = omega arith in
    trim-some (padded p) (find_first-padded p.left delim p.first p.rest (replicate p.right blank) h)
      last
    ∙ ap (λ s. some (take (p.left + length p.rest - p.left + 1) s)) (drop-padded p.left body)
    ∙ ap (λ n. some (take n body)) count
    ∙ ap some (take-append_length (token p) (replicate p.right blank))
