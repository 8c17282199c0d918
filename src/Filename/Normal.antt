-- ===== src/Filename/Normal.antt =====
-- src/common/filename.cc: paths that `initialize` has made are normal, and getNumPathSegments of them.
use hecios.Filename.{slash, initialize, count_segments, get_num_path_segments}
use hecios.Filename.Segments.{
  flush, segments_from, segments, render, canonical, append-nil, append_assoc, initialize-canonical,
}
use hecios.Prelude.{
  ℕ, ◌+◌, true, false, List, [], ◌∷◌, ◌++◌, ◌≡◌, refl, ◌∙◌, ap, arith, length, ◌==◌, Bool-cases,
  inl, inr,
}

abbrev NoSlash : List ℕ → Type 0
NoSlash [] = Unit {0}
NoSlash (x ∷ xs) = ((x == slash) ≡ false) × NoSlash xs

-- Segments are not empty and have no slash.
abbrev AreSegments : List (List ℕ) → Type 0
AreSegments [] = Unit {0}
AreSegments ([] ∷ ss) = ⊥
AreSegments ((a ∷ s) ∷ ss) = NoSlash (a ∷ s) × AreSegments ss

NoSlash-append : (xs ys : List ℕ) → NoSlash xs → NoSlash ys → NoSlash (xs ++ ys)
NoSlash-append [] ys h k = k
NoSlash-append (x ∷ xs) ys h k = (h.0, NoSlash-append xs ys h.1 k)

flush-AreSegments :
    (run : List ℕ) (ss : List (List ℕ)) → NoSlash run → AreSegments ss → AreSegments (flush run ss)
flush-AreSegments [] ss h k = k
flush-AreSegments (a ∷ run) ss h k = (h, k)

segments_from-AreSegments : (run cs : List ℕ) → NoSlash run → AreSegments (segments_from run cs)
segments_from-AreSegments run [] h = flush-AreSegments run [] h tt
segments_from-AreSegments run (c ∷ cs) h = elim (Bool-cases (c == slash)) [
  | inl e ↦ rw e (flush-AreSegments run (segments cs) h (segments_from-AreSegments [] cs tt))
  | inr e ↦
      rw e (segments_from-AreSegments (run ++ c ∷ []) cs (NoSlash-append run (c ∷ []) h (e, tt)))
]

segments_from-render :
    (run : List ℕ) (ss : List (List ℕ))
    → segments_from run (render ss) ≡ flush run (segments (render ss))
segments_from-render [] ss = refl
segments_from-render (a ∷ run) [] = refl
segments_from-render (a ∷ run) (s ∷ ss) = refl

segments_from-append :
    (run s : List ℕ) (ss : List (List ℕ))
    → NoSlash s
    → segments_from run (s ++ render ss) ≡ flush (run ++ s) (segments (render ss))
segments_from-append run [] ss h = rw (append-nil run) (segments_from-render run ss)
segments_from-append run (c ∷ s) ss h = rw h.0 (
    segments_from-append (run ++ c ∷ []) s ss h.1
    ∙ ap (λ (t : List ℕ). flush t (segments (render ss))) (append_assoc run (c ∷ []) s))

segments-render : (ss : List (List ℕ)) → AreSegments ss → segments (render ss) ≡ ss
segments-render [] h = refl
segments-render ([] ∷ ss) h = absurd h
segments-render ((a ∷ s) ∷ ss) h =
    segments_from-append [] (a ∷ s) ss h.0 ∙ ap (◌∷◌ (a ∷ s)) (segments-render ss h.1)

initialize-again : (ss : List (List ℕ)) → AreSegments ss → initialize (canonical ss) ≡ canonical ss
initialize-again [] h = initialize-canonical []
initialize-again (s ∷ ss) h =
    initialize-canonical (s ++ render ss) ∙ ap canonical (segments-render (s ∷ ss) h)

-- `initialize` of a path that it has made from an absolute path changes nothing.
pub initialize_idem : (cs : List ℕ) → initialize (initialize (slash ∷ cs)) ≡ initialize (slash ∷ cs)
initialize_idem cs =
    rw (initialize-canonical cs)
      (initialize-again (segments cs) (segments_from-AreSegments [] cs tt))

count_segments-skip :
    (num : ℕ) (s rest : List ℕ)
    → NoSlash s
    → count_segments false num (s ++ rest) ≡ count_segments false num rest
unfolding count_segments
count_segments-skip num [] rest h = refl
count_segments-skip num (c ∷ s) rest h = rw h.0 (count_segments-skip num s rest h.1)

count_segments-segment :
    (num a : ℕ) (s rest : List ℕ)
    → NoSlash (a ∷ s)
    → count_segments true num (a ∷ s ++ rest) ≡ count_segments false (num + 1) rest
unfolding count_segments
count_segments-segment num a s rest h = rw h.0 (count_segments-skip (num + 1) s rest h.1)

count_segments-render :
    (num : ℕ) (ss : List (List ℕ))
    → AreSegments ss
    → count_segments false num (render ss) ≡ num + length ss
unfolding count_segments
count_segments-render num [] h = omega arith
count_segments-render num ([] ∷ ss) h = absurd h
count_segments-render num ((a ∷ s) ∷ ss) h =
    count_segments-segment num a s (render ss) h.0
    ∙ omega (arith, count_segments-render (num + 1) ss h.1)

get_num_path_segments-segments :
    (ss : List (List ℕ)) → AreSegments ss → get_num_path_segments (canonical ss) ≡ length ss + 1
unfolding get_num_path_segments
get_num_path_segments-segments [] h = refl
get_num_path_segments-segments ([] ∷ ss) h = absurd h
get_num_path_segments-segments ((a ∷ s) ∷ ss) h =
    let longer : (length (slash ∷ a ∷ s ++ render ss) == 1) ≡ false = ground arith in
    rw longer
      (count_segments-segment 1 a s (render ss) h.0 ∙ omega (arith, count_segments-render 2 ss h.1))

-- getNumPathSegments of a path made from an absolute path counts the root directory and the runs of
-- characters between slashes.
pub get_num_path_segments-initialize :
    (cs : List ℕ) → get_num_path_segments (initialize (slash ∷ cs)) ≡ length (segments cs) + 1
get_num_path_segments-initialize cs =
    rw (initialize-canonical cs)
      (get_num_path_segments-segments (segments cs) (segments_from-AreSegments [] cs tt))
