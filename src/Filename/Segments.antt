-- ===== src/Filename/Segments.antt =====
-- src/common/filename.cc: the segments of a path, and the path that `initialize` makes of them.
use hecios.Filename.{slash, remove_slashes, initialize}
use hecios.Prelude.{
  ℕ, true, false, List, [], ◌∷◌, ◌++◌, ◌≡◌, refl, sym, ◌∙◌, ap, if◌then◌else◌, ◌==◌, Bool-cases,
  inl, inr,
}

abbrev pub flush : List ℕ → List (List ℕ) → List (List ℕ)
flush [] segments = segments
flush (x ∷ xs) segments = (x ∷ xs) ∷ segments

-- The runs of characters between slashes, with the characters of the run that has begun.
abbrev pub segments_from : List ℕ → List ℕ → List (List ℕ)
segments_from run [] = flush run []
segments_from run (c ∷ cs) =
    let ended = flush run (segments_from [] cs) in
    let longer = segments_from (run ++ c ∷ []) cs in if c == slash then ended else longer

abbrev pub segments : List ℕ → List (List ℕ)
segments path = segments_from [] path

-- Each segment behind a slash.
abbrev pub render : List (List ℕ) → List ℕ
render [] = []
render (s ∷ ss) = slash ∷ s ++ render ss

abbrev pub canonical : List (List ℕ) → List ℕ
canonical [] = slash ∷ []
canonical (s ∷ ss) = render (s ∷ ss)

pub append-nil : (xs : List ℕ) → xs ++ [] ≡ xs
append-nil [] = refl
append-nil (x ∷ xs) = ap (◌∷◌ x) (append-nil xs)

pub append_assoc : (xs ys zs : List ℕ) → (xs ++ ys) ++ zs ≡ xs ++ (ys ++ zs)
append_assoc [] ys zs = refl
append_assoc (x ∷ xs) ys zs = ap (◌∷◌ x) (append_assoc xs ys zs)

mutual
  unfolding remove_slashes

  remove_slashes-found :
      (path cs : List ℕ) → remove_slashes true path cs ≡ path ++ render (segments cs)
  remove_slashes-found path [] = sym (append-nil path)
  remove_slashes-found path (c ∷ cs) = elim (Bool-cases (c == slash)) [
    | inl e ↦ rw e (remove_slashes-found path cs)
    | inr e ↦ rw e (remove_slashes-inside path c [] cs)
  ]

  remove_slashes-inside :
      (path : List ℕ) (a : ℕ) (run cs : List ℕ)
      → remove_slashes false (path ++ slash ∷ a ∷ run) cs
        ≡ path ++ render (segments_from (a ∷ run) cs)
  remove_slashes-inside path a run [] =
      ap (λ (t : List ℕ). path ++ slash ∷ a ∷ t) (sym (append-nil run))
  remove_slashes-inside path a run (c ∷ cs) = elim (Bool-cases (c == slash)) [
    | inl e ↦ rw e (
        remove_slashes-found (path ++ slash ∷ a ∷ run) cs
        ∙ append_assoc path (slash ∷ a ∷ run) (render (segments cs)))
    | inr e ↦ rw e (
        ap (λ (t : List ℕ). remove_slashes false t cs)
          (append_assoc path (slash ∷ a ∷ run) (c ∷ []))
        ∙ remove_slashes-inside path a (run ++ c ∷ []) cs)
  ]

-- `initialize` of an absolute path gives its segments, each behind one slash, and the root directory if
-- there are none.
pub initialize-canonical : (cs : List ℕ) → initialize (slash ∷ cs) ≡ canonical (segments cs)
unfolding initialize remove_slashes
initialize-canonical cs = rw (remove_slashes-found [] cs) (root (segments cs))
  where
    root :
        (ss : List (List ℕ)) → elim (render ss) [ [] ↦ slash ∷ [] | x ∷ xs ↦ x ∷ xs ] ≡ canonical ss
    root [] = refl
    root (s ∷ ss) = refl
