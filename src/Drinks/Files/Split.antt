-- ===== src/Drinks/Files/Split.antt =====
-- The lines that src/drinks.c reads from a file: no character is lost, none is longer than the buffer.
use ultramat.Base.{
  ℕ, zero, suc, ◌≤◌, ◌<◌, ◌≡◌, refl, sym, ap, ◌∙◌, inl, inr, List, [], ◌∷◌, ◌++◌, ◌==◌, Bool-cases,
  arith, length, length-append,
}
use ultramat.Drinks.Lines.{newline}
use ultramat.Drinks.Lines.Recipes.{Without}
use ultramat.Drinks.Files.{chunk, file_lines, lines_of}

abbrev pub concat {ℓ} : {A : Type ℓ} → List (List A) → List A
concat [] = []
concat (l ∷ ls) = l ++ concat ls

-- No line has more characters than there is room.
abbrev pub Fit : ℕ → List (List ℕ) → Type 0
Fit room [] = Unit
Fit room (l ∷ ls) = (length l ≤ room) × Fit room ls

chunk-append : (n : ℕ) (cs : List ℕ) → (chunk n cs).0 ++ (chunk n cs).1 ≡ cs
unfolding chunk
chunk-append zero cs = refl
chunk-append (suc n) [] = refl
chunk-append (suc n) (c ∷ cs) = elim (Bool-cases (c == newline)) [
  | inl end ↦ rw end
  | inr more ↦ rw (more, chunk-append n cs)
]

length-chunk : (n : ℕ) (cs : List ℕ) → length (chunk n cs).0 ≤ n
unfolding chunk
length-chunk zero cs = omega arith
length-chunk (suc n) [] = omega arith
length-chunk (suc n) (c ∷ cs) = elim (Bool-cases (c == newline)) [
  | inl end ↦ rw end (omega arith)
  | inr more ↦ rw more (omega (arith, length-chunk n cs))
]

-- A call takes a character.
length-chunk_rest : (n c : ℕ) (cs : List ℕ) → length (chunk (suc n) (c ∷ cs)).1 ≤ length cs
unfolding chunk
length-chunk_rest n c cs = elim (Bool-cases (c == newline)) [
  | inl end ↦ rw end (omega arith)
  | inr more ↦
      rw more
        (omega (arith, length-append (chunk n cs).0 (chunk n cs).1, ap length (chunk-append n cs)))
]

file_lines-all :
    (r n : ℕ) (cs : List ℕ)
    → length cs ≤ n
    → (concat (file_lines (suc r) n cs) ≡ cs) × Fit (suc r) (file_lines (suc r) n cs)
unfolding file_lines
file_lines-all r zero [] h = (refl, tt)
file_lines-all r zero (c ∷ cs) h = absurd (omega arith)
file_lines-all r (suc n) [] h = (refl, tt)
file_lines-all r (suc n) (c ∷ cs) h =
    let shorter = length-chunk_rest r c cs in
    let (all, fit) = file_lines-all r n (chunk (suc r) (c ∷ cs)).1 (omega arith) in
    (
      ap (◌++◌ (chunk (suc r) (c ∷ cs)).0) all ∙ chunk-append (suc r) (c ∷ cs),
      (length-chunk (suc r) (c ∷ cs), fit),
    )

-- Whatever the file, the lines that are read are together the whole file, so that the loop comes to
-- its end, and each has at most 255 characters.
pub lines_of-concat : (cs : List ℕ) → (concat (lines_of cs) ≡ cs) × Fit 255 (lines_of cs)
unfolding lines_of
lines_of-concat cs = file_lines-all 254 (length cs) cs (omega arith)

-- A line as it stands in a file: it ends with its first end of line, and fits the buffer.
pub record IsLine (room : ℕ) (l : List ℕ) : Type 0 where
  pub body : List ℕ
  pub ended : l ≡ body ++ (newline ∷ [])
  pub within : Without newline body
  pub short : length body < room

abbrev pub AllLines : ℕ → List (List ℕ) → Type 0
AllLines room [] = Unit
AllLines room (l ∷ ls) = IsLine room l × AllLines room ls

chunk-line :
    (n : ℕ) (body rest : List ℕ)
    → Without newline body
    → length body < n
    → chunk n ((body ++ (newline ∷ [])) ++ rest) ≡ (body ++ (newline ∷ []), rest)
unfolding chunk
chunk-line zero body rest w h = absurd (omega arith)
chunk-line (suc n) [] rest w h = refl
chunk-line (suc n) (c ∷ body) rest w h = rw (w.0, chunk-line n body rest w.1 (omega arith))

step_line :
    (r n : ℕ) (body rest : List ℕ)
    → Without newline body
    → length body < suc r
    → file_lines (suc r) (suc n) ((body ++ (newline ∷ [])) ++ rest)
      ≡ (body ++ (newline ∷ [])) ∷ file_lines (suc r) n rest
unfolding file_lines
step_line r n [] rest w h =
    ap (λ p. p.0 ∷ file_lines (suc r) n p.1) (chunk-line (suc r) [] rest w h)
step_line r n (c ∷ body) rest w h =
    ap (λ p. p.0 ∷ file_lines (suc r) n p.1) (chunk-line (suc r) (c ∷ body) rest w h)

file_lines-lines :
    (r n : ℕ) (ls : List (List ℕ))
    → AllLines (suc r) ls
    → length (concat ls) ≤ n
    → file_lines (suc r) n (concat ls) ≡ ls
unfolding file_lines
file_lines-lines r zero [] a h = refl
file_lines-lines r (suc n) [] a h = refl
file_lines-lines r zero (l ∷ ls) a h = absurd (
    omega (
      arith,
      length-append l (concat ls),
      ap length a.0.ended,
      length-append a.0.body (newline ∷ []),
    ))
file_lines-lines r (suc n) (l ∷ ls) a h =
    let n' : length (concat ls) ≤ n = omega (
      arith,
      length-append l (concat ls),
      ap length a.0.ended,
      length-append a.0.body (newline ∷ []),
    ) in
    ap (λ t. file_lines (suc r) (suc n) (t ++ concat ls)) a.0.ended
    ∙ step_line r n a.0.body (concat ls) a.0.within a.0.short
    ∙ ap (λ t. t ∷ file_lines (suc r) n (concat ls)) (sym a.0.ended)
    ∙ ap (◌∷◌ l) (file_lines-lines r n ls a.1 n')

-- A file of lines is read as these.
pub lines_of-lines : (ls : List (List ℕ)) → AllLines 255 ls → lines_of (concat ls) ≡ ls
unfolding lines_of
lines_of-lines ls a = file_lines-lines 254 (length (concat ls)) ls a (omega arith)
