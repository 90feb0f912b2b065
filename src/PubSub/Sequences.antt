-- ===== src/PubSub/Sequences.antt =====
-- Sequences of values, for what the sources of PubSub/src/subscriber.cpp get and what is read from them.
use osborne_x.Base.{
  ℕ, zero, suc, ◌+◌, ◌≤◌, ◌≡◌, refl, ap, subst, List, [], ◌∷◌, ◌++◌, some, arith, length,
  length-append, get_elem?,
}
use mathlib.Core.List.{append-nil, append_assoc}

module _ {ℓ} {A : Type ℓ} where
  -- The first list is what is left of the second one without some of its values.
  pub data IsPart : List A → List A → Type ℓ where
    nothing : IsPart [] []
    skips : {xs ys : List A} (y : A) → IsPart xs ys → IsPart xs (y ∷ ys)
    keeps : {xs ys : List A} (y : A) → IsPart xs ys → IsPart (y ∷ xs) (y ∷ ys)

  IsPart-nil : (ys : List A) → IsPart [] ys
  IsPart-nil [] = nothing
  IsPart-nil (y ∷ ys) = skips y (IsPart-nil ys)

  pub IsPart-more : {xs ys : List A} (zs : List A) → IsPart xs ys → IsPart xs (ys ++ zs)
  IsPart-more zs nothing = IsPart-nil zs
  IsPart-more zs (skips y p) = skips y (IsPart-more zs p)
  IsPart-more zs (keeps y p) = keeps y (IsPart-more zs p)

  pub IsPart-append : {xs ys : List A} (v : A) → IsPart xs ys → IsPart (xs ++ v ∷ []) (ys ++ v ∷ [])
  IsPart-append v nothing = keeps v nothing
  IsPart-append v (skips y p) = skips y (IsPart-append v p)
  IsPart-append v (keeps y p) = keeps y (IsPart-append v p)

  split_list :
      (xs : List A) (i : ℕ) (v : A)
      → get_elem? xs i ≡ some v
      → (mid after : List A) × (xs ≡ mid ++ v ∷ after) × (length mid ≡ i)
  split_list [] i v e = absurd (ground arith)
  split_list (x ∷ xs) zero v e = ([], xs, ap (λ y. y ∷ xs) (ground arith), refl)
  split_list (x ∷ xs) (suc i) v e =
      let (mid, after, f, g) = split_list xs i v e in
      (x ∷ mid, after, ap (◌∷◌ x) f, omega (arith, g))

  -- A value behind a first part.
  pub split_behind :
      (seen rest : List A) (i : ℕ) (v : A)
      → length seen ≤ i
      → get_elem? (seen ++ rest) i ≡ some v
      → (mid after : List A) × (rest ≡ mid ++ v ∷ after) × (length seen + length mid ≡ i)
  split_behind [] rest i v h e =
      let (mid, after, f, g) = split_list rest i v e in (mid, after, f, omega (arith, g))
  split_behind (x ∷ seen) rest zero v h e = absurd (omega arith)
  split_behind (x ∷ seen) rest (suc i) v h e =
      let (mid, after, f, g) = split_behind seen rest i v (omega arith) e in
      (mid, after, f, omega (arith, g))

  -- One list for each source; a value comes to the end of the list with a number.
  abbrev pub append_at : ℕ → A → List (List A) → List (List A)
  append_at i v [] = []
  append_at zero v (xs ∷ xss) = (xs ++ v ∷ []) ∷ xss
  append_at (suc i) v (xs ∷ xss) = xs ∷ append_at i v xss

  abbrev pub total : List (List A) → ℕ
  total [] = 0
  total (xs ∷ xss) = length xs + total xss

  pub total-append_at :
      (i : ℕ) (v : A) (xss : List (List A)) → total xss ≤ total (append_at i v xss)
  total-append_at i v [] = omega arith
  total-append_at zero v (ys ∷ xss) = omega (arith, length-append ys (v ∷ []))
  total-append_at (suc i) v (ys ∷ xss) = omega (arith, total-append_at i v xss)

  -- The lists have grown by these values, one after the other, each at the end of one of the lists.
  pub data HaveGrown (xss : List (List A)) : List A → List (List A) → Type ℓ where
    as_before : HaveGrown xss [] xss
    by_value :
        {vs : List A} {yss : List (List A)} (i : ℕ) (v : A) (xs : List A)
        → get_elem? yss i ≡ some xs
        → HaveGrown xss vs yss
        → HaveGrown xss (vs ++ v ∷ []) (append_at i v yss)

  pub HaveGrown-trans :
      (xss : List (List A)) (vs : List A) (yss : List (List A)) (ws : List A) (zss : List (List A))
      → HaveGrown xss vs yss
      → HaveGrown yss ws zss
      → HaveGrown xss (vs ++ ws) zss
  HaveGrown-trans xss vs yss _ _ g as_before = rw (append-nil vs) g
  HaveGrown-trans xss vs yss _ _ g (by_value {vs = ws} {yss = zss} i v xs e h) =
      subst (λ l. HaveGrown xss l (append_at i v zss)) (append_assoc vs ws (v ∷ []))
        (by_value i v xs e (HaveGrown-trans xss vs yss ws zss g h))

  -- The same with one more list in front, which stays as it is.
  pub HaveGrown-behind :
      (xs : List A) (xss : List (List A)) (vs : List A) (yss : List (List A))
      → HaveGrown xss vs yss
      → HaveGrown (xs ∷ xss) vs (xs ∷ yss)
  HaveGrown-behind xs xss _ _ as_before = as_before
  HaveGrown-behind xs xss _ _ (by_value {vs = vs} {yss = yss} i v ys e h) =
      by_value (suc i) v ys e (HaveGrown-behind xs xss vs yss h)

  -- First the list in front gets a value, and then the others.
  pub HaveGrown-taken :
      (v : A) (xs : List A) (xss : List (List A)) (vs : List A) (yss : List (List A))
      → HaveGrown xss vs yss
      → HaveGrown (xs ∷ xss) (v ∷ vs) ((xs ++ v ∷ []) ∷ yss)
  HaveGrown-taken v xs xss vs yss h =
      HaveGrown-trans (xs ∷ xss) (v ∷ []) ((xs ++ v ∷ []) ∷ xss) vs ((xs ++ v ∷ []) ∷ yss)
        (by_value zero v xs refl as_before) (HaveGrown-behind (xs ++ v ∷ []) xss vs yss h)
