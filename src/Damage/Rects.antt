-- ===== src/Damage/Rects.antt =====
-- Lists of rectangles and `remove_rect` of src/damage_region.c.
use nix_bench.Prelude.{
  ℕ, zero, suc, ◌≡◌, ◌⊎◌, inl, inr, refl, sym, ap, ◌∙◌, false, some, List, [], ◌∷◌, ◌++◌, ℤ, length,
  get_elem?,
}
use mathlib.Core.Path.{subst}
use mathlib.Core.Option.{some-injective}
use nix_bench.Damage.{Rect, intersects, put_second, last_first, remove_rect}
use nix_bench.Damage.Geometry.{Contains, intersects_comm}

abbrev pub All {ℓ} : (Rect → Type ℓ) → List Rect → Type ℓ
All P [] = Unit
All P (r ∷ rs) = P r × All P rs

-- Two rectangles that do not meet.
abbrev pub Apart : Rect → Rect → Type 0
Apart r s = intersects s r ≡ false

abbrev pub PairwiseApart : List Rect → Type 0
PairwiseApart [] = Unit {0}
PairwiseApart (r ∷ rs) = All (Apart r) rs × PairwiseApart rs

-- Some rectangle of the list covers the pixel.
abbrev pub Covered : ℤ → ℤ → List Rect → Type 0
Covered px py [] = ⊥
Covered px py (r ∷ rs) = Contains r px py ⊎ Covered px py rs

pub Apart-sym : (r s : Rect) → Apart r s → Apart s r
Apart-sym r s h = intersects_comm r s ∙ h

pub All-append {ℓ} :
    (P : Rect → Type ℓ) (xs ys : List Rect) → All P xs → All P ys → All P (xs ++ ys)
All-append P [] ys hx hy = hy
All-append P (x ∷ xs) ys hx hy = (hx.0, All-append P xs ys hx.1 hy)

pub All-map {ℓ κ} :
    (P : Rect → Type ℓ) (Q : Rect → Type κ) (rs : List Rect)
    → ((r : Rect) → P r → Q r)
    → All P rs
    → All Q rs
All-map P Q [] f h = tt
All-map P Q (r ∷ rs) f h = (f r h.0, All-map P Q rs f h.1)

module _ {ℓ} (P : Rect → Type ℓ) where
  put_second-All : (x : Rect) (ls : List Rect) → P x → All P ls → All P (put_second x ls)
  unfolding put_second
  put_second-All x [] p h = (p, tt)
  put_second-All x (l ∷ ls) p h = (h.0, (p, h.1))

  last_first-All : (x : Rect) (xs : List Rect) → P x → All P xs → All P (last_first x xs)
  unfolding last_first
  last_first-All x [] p h = (p, tt)
  last_first-All x (y ∷ ys) p h = put_second-All x (last_first y ys) p (last_first-All y ys h.0 h.1)

  pub remove_rect-All : (rs : List Rect) (i : ℕ) → All P rs → All P (remove_rect rs i)
  unfolding remove_rect
  remove_rect-All [] i h = tt
  remove_rect-All (r ∷ []) zero h = tt
  remove_rect-All (r ∷ s ∷ rs) zero h = last_first-All s rs h.1.0 h.1.1
  remove_rect-All (r ∷ []) (suc i) h = (h.0, tt)
  remove_rect-All (r ∷ s ∷ rs) (suc i) h = (h.0, remove_rect-All (s ∷ rs) i h.1)

  pub get_elem?-All : (rs : List Rect) (i : ℕ) (s : Rect) → get_elem? rs i ≡ some s → All P rs → P s
  get_elem?-All [] i s e h = cc
  get_elem?-All (r ∷ rs) zero s e h = subst P (some-injective r s e) h.0
  get_elem?-All (r ∷ rs) (suc i) s e h = get_elem?-All rs i s e h.1

put_second-Apart :
    (x : Rect) (ls : List Rect)
    → All (Apart x) ls
    → PairwiseApart ls
    → PairwiseApart (put_second x ls)
unfolding put_second
put_second-Apart x [] a h = (tt, tt)
put_second-Apart x (l ∷ ls) a h = ((Apart-sym x l a.0, h.0), (a.1, h.1))

last_first-Apart :
    (x : Rect) (xs : List Rect)
    → All (Apart x) xs
    → PairwiseApart xs
    → PairwiseApart (last_first x xs)
unfolding last_first
last_first-Apart x [] a h = (tt, tt)
last_first-Apart x (y ∷ ys) a h =
    put_second-Apart x (last_first y ys) (last_first-All (Apart x) y ys a.0 a.1)
      (last_first-Apart y ys h.0 h.1)

pub remove_rect-Apart :
    (rs : List Rect) (i : ℕ) → PairwiseApart rs → PairwiseApart (remove_rect rs i)
unfolding remove_rect
remove_rect-Apart [] i h = tt
remove_rect-Apart (r ∷ []) zero h = tt
remove_rect-Apart (r ∷ s ∷ rs) zero h = last_first-Apart s rs h.1.0 h.1.1
remove_rect-Apart (r ∷ []) (suc i) h = (tt, tt)
remove_rect-Apart (r ∷ s ∷ rs) (suc i) h =
    (remove_rect-All (Apart r) (s ∷ rs) i h.0, remove_rect-Apart (s ∷ rs) i h.1)

length-put_second : (x : Rect) (ls : List Rect) → length (put_second x ls) ≡ suc (length ls)
unfolding put_second
length-put_second x [] = refl
length-put_second x (l ∷ ls) = refl

length-last_first : (x : Rect) (xs : List Rect) → length (last_first x xs) ≡ suc (length xs)
unfolding last_first
length-last_first x [] = refl
length-last_first x (y ∷ ys) =
    length-put_second x (last_first y ys) ∙ ap suc (length-last_first y ys)

pub length-remove_rect :
    (rs : List Rect) (i : ℕ) (s : Rect)
    → get_elem? rs i ≡ some s
    → length rs ≡ suc (length (remove_rect rs i))
unfolding remove_rect
length-remove_rect [] i s e = cc
length-remove_rect (r ∷ []) zero s e = refl
length-remove_rect (r ∷ t ∷ rs) zero s e = ap suc (sym (length-last_first t rs))
length-remove_rect (r ∷ []) (suc i) s e = cc
length-remove_rect (r ∷ t ∷ rs) (suc i) s e = ap suc (length-remove_rect (t ∷ rs) i s e)

skip_second : {A B C : Type 0} → A ⊎ C → A ⊎ B ⊎ C
skip_second (inl a) = inl a
skip_second (inr c) = inr (inr c)

module _ (px py : ℤ) where
  put_second-Covered :
      (x : Rect) (ls : List Rect)
      → Contains x px py ⊎ Covered px py ls
      → Covered px py (put_second x ls)
  unfolding put_second
  put_second-Covered x [] c = c
  put_second-Covered x (l ∷ ls) (inl c) = inr (inl c)
  put_second-Covered x (l ∷ ls) (inr (inl c)) = inl c
  put_second-Covered x (l ∷ ls) (inr (inr c)) = inr (inr c)

  last_first-Covered :
      (x : Rect) (xs : List Rect) → Covered px py (x ∷ xs) → Covered px py (last_first x xs)
  unfolding last_first
  last_first-Covered x [] c = c
  last_first-Covered x (y ∷ ys) (inl c) = put_second-Covered x (last_first y ys) (inl c)
  last_first-Covered x (y ∷ ys) (inr c) =
      put_second-Covered x (last_first y ys) (inr (last_first-Covered y ys c))

  pub remove_rect-Covered :
      (rs : List Rect) (i : ℕ) (s : Rect)
      → get_elem? rs i ≡ some s
      → Covered px py rs
      → Contains s px py ⊎ Covered px py (remove_rect rs i)
  unfolding remove_rect
  remove_rect-Covered [] i s e c = elim c [ ]
  remove_rect-Covered (r ∷ []) zero s e (inl c) =
      inl (subst (λ q. Contains q px py) (some-injective r s e) c)
  remove_rect-Covered (r ∷ []) zero s e (inr c) = elim c [ ]
  remove_rect-Covered (r ∷ t ∷ rs) zero s e (inl c) =
      inl (subst (λ q. Contains q px py) (some-injective r s e) c)
  remove_rect-Covered (r ∷ t ∷ rs) zero s e (inr c) = inr (last_first-Covered t rs c)
  remove_rect-Covered (r ∷ []) (suc i) s e c = cc
  remove_rect-Covered (r ∷ t ∷ rs) (suc i) s e (inl c) = inr (inl c)
  remove_rect-Covered (r ∷ t ∷ rs) (suc i) s e (inr c) =
      skip_second (remove_rect-Covered (t ∷ rs) i s e c)
