-- ===== src/Damage/Operations.antt =====
-- `nb_damage_region_add` and `nb_damage_region_merge` of src/damage_region.c.
use nix_bench.Prelude.{
  ◌≡◌, ◌⊎◌, inl, inr, refl, ◌∙◌, true, false, none, some, List, [], ◌∷◌, ℤ, arith, Bool-cases,
  Option-cases,
}
use nix_bench.Damage.{Rect, Region, set_full, clip_rect, insert, add, add_all, merge, clear}
use nix_bench.Damage.Geometry.{Contains}
use nix_bench.Damage.Clip.{OnSurface, clip_rect-IsClipped, Contains-IsClipped, clip_rect-none}
use nix_bench.Damage.Rects.{Covered}
use nix_bench.Damage.Insert.{insert_lem}
use nix_bench.Damage.Validity.{IsValid}

-- The pixel is marked as damaged.
abbrev pub Damaged : ℤ → ℤ → Region → Type 0
Damaged px py region = (region.full ≡ true) ⊎ Covered px py region.rects

-- `out` is valid, and every pixel of the surface that `P` names is damaged in it.
pub record Keeps (w h : ℤ) (P : ℤ → ℤ → Type 0) (out : Region) : Type 0 where
  pub valid : IsValid w h out
  pub covers : (px py : ℤ) → OnSurface w h px py → P px py → Damaged px py out

none_added : {A : Type 0} → A ⊎ ⊥ → A
none_added (inl a) = a
none_added (inr b) = elim b [ ]

module _ (w h : ℤ) where
  add_full :
      (region : Region) (rect : Rect) → region.full ≡ true → add region rect w h ≡ some region
  unfolding add
  add_full region rect f = rw f

  add_outside :
      (region : Region) (rect : Rect)
      → clip_rect rect w h ≡ none
      → add region rect w h ≡ some region
  unfolding add
  add_outside region rect e = ground arith

  add_inside :
      (region : Region) (rect r : Rect) (rs : List Rect)
      → region.full ≡ false
      → clip_rect rect w h ≡ some r
      → insert 2 region.rects r ≡ some rs
      → add region rect w h ≡ some (record region { rects = rs })
  unfolding add
  add_inside region rect r rs f e q = ground arith

  -- What is damaged after a rectangle is added.
  abbrev pub AddTo : Region → Rect → ℤ → ℤ → Type 0
  AddTo region rect px py = Damaged px py region ⊎ Contains rect px py

  outside_Damaged :
      (region : Region) (rect : Rect)
      → clip_rect rect w h ≡ none
      → (px py : ℤ) → OnSurface w h px py
      → AddTo region rect px py
      → Damaged px py region
  outside_Damaged region rect e px py s (inl d) = d
  outside_Damaged region rect e px py s (inr c) = absurd (clip_rect-none w h rect px py e s c)

  inside_Damaged :
      (region : Region) (rect r : Rect) (rs : List Rect)
      → region.full ≡ false
      → clip_rect rect w h ≡ some r
      → ((px py : ℤ) → Covered px py (r ∷ region.rects) → Covered px py rs)
      → (px py : ℤ) → OnSurface w h px py
      → AddTo region rect px py
      → Damaged px py (record region { rects = rs })
  inside_Damaged region rect r rs f e k px py s (inl (inl d)) = inl d
  inside_Damaged region rect r rs f e k px py s (inl (inr c)) = inr (k px py (inr c))
  inside_Damaged region rect r rs f e k px py s (inr c) =
      let exact = Contains-IsClipped w h rect r px py (clip_rect-IsClipped w h rect r e) in
      inr (k px py (inl (exact.1 (c, s))))

  -- Adding any rectangle, also an empty one or one that lies partly or wholly outside the surface,
  -- to a valid region succeeds within the model's fuel. The result is valid again, and every pixel
  -- of the surface that was damaged or lies in the rectangle is damaged in it.
  pub add_lem :
      (region : Region) (rect : Rect)
      → IsValid w h region
      → (out : Region) × (add region rect w h ≡ some out) × Keeps w h (AddTo region rect) out
  add_lem region rect v = elim (Bool-cases region.full) [
    | inl f ↦ (region, add_full region rect f, record { valid = v; covers = λ px py s c. inl f })
    | inr f ↦ elim (Option-cases (clip_rect rect w h)) [
      | inl e ↦ (
        region,
        add_outside region rect e,
        record { valid = v; covers = outside_Damaged region rect e },
      )
      | inr (r, e) ↦
          let k = clip_rect-IsClipped w h rect r e in
          let (rs, q, ins) =
            insert_lem w h 1 region.rects r
              (record { inside = v.rects.inside; apart = v.rects.apart; incoming = k.inside })
              v.rects.bounded (omega (arith, v.rects.bounded)) in
          (
            record region { rects = rs },
            add_inside region rect r rs f e q,
            record {
              valid = record {
                width_pos = v.width_pos;
                height_pos = v.height_pos;
                full_empty = λ t. cc (f, t);
                rects = ins.valid;
              };
              covers = inside_Damaged region rect r rs f e ins.covers;
            },
          )
    ]
  ]

  -- What is damaged after a list of rectangles is added.
  abbrev pub AddAllTo : Region → List Rect → ℤ → ℤ → Type 0
  AddAllTo region rs px py = Damaged px py region ⊎ Covered px py rs

  add_first :
      (region mid : Region) (r : Rect) (rs : List Rect) (px py : ℤ)
      → OnSurface w h px py
      → ((px py : ℤ) → OnSurface w h px py → AddTo region r px py → Damaged px py mid)
      → AddAllTo region (r ∷ rs) px py
      → AddAllTo mid rs px py
  add_first region mid r rs px py s k (inl d) = inl (k px py s (inl d))
  add_first region mid r rs px py s k (inr (inl c)) = inl (k px py s (inr c))
  add_first region mid r rs px py s k (inr (inr c)) = inr c

  add_all_lem :
      (rs : List Rect) (region : Region)
      → IsValid w h region
      → (out : Region) × (add_all region rs w h ≡ some out) × Keeps w h (AddAllTo region rs) out
  unfolding add_all
  add_all_lem [] region v = (region, refl, record { valid = v; covers = λ px py s c. none_added c })
  add_all_lem (r ∷ rs) region v =
      let (mid, e, k) = add_lem region r v in
      let (out, q, l) = add_all_lem rs mid k.valid in
      (
        out,
        rw (e, add_all) q,
        record {
          valid = l.valid;
          covers = λ px py s c. l.covers px py s (add_first region mid r rs px py s k.covers c);
        },
      )

  -- What is damaged after one region is merged into another.
  abbrev pub MergeOf : Region → Region → ℤ → ℤ → Type 0
  MergeOf destination source px py = Damaged px py destination ⊎ Damaged px py source

  merge_listed :
      (destination source : Region)
      → source.full ≡ false
      → (px py : ℤ) → MergeOf destination source px py
      → AddAllTo destination source.rects px py
  merge_listed destination source f px py (inl d) = inl d
  merge_listed destination source f px py (inr (inl t)) = absurd (cc (f, t))
  merge_listed destination source f px py (inr (inr c)) = inr c

  merge_eq :
      (destination source : Region)
      → source.full ≡ false
      → destination.full ≡ false
      → merge destination source w h ≡ add_all destination source.rects w h
  unfolding merge
  merge_eq destination source f g = ground arith

  -- Merging any region into a valid one succeeds. The result is valid, and every pixel of the
  -- surface that was damaged in either region is damaged in it.
  pub merge_lem :
      (destination source : Region)
      → IsValid w h destination
      → (out : Region) × (merge destination source w h ≡ some out)
        × Keeps w h (MergeOf destination source) out
  unfolding merge set_full clear
  merge_lem destination source v = elim (Bool-cases source.full) [
    | inl f ↦ (
      set_full destination,
      rw f,
      record {
        valid = record {
          width_pos = v.width_pos;
          height_pos = v.height_pos;
          full_empty = λ t. refl;
          rects = record { inside = tt; apart = tt; bounded = omega arith };
        };
        covers = λ px py s c. inl refl;
      },
    )
    | inr f ↦ elim (Bool-cases destination.full) [
      | inl g ↦ (destination, rw (f, g), record { valid = v; covers = λ px py s c. inl g })
      | inr g ↦
          let (out, e, k) = add_all_lem source.rects destination v in
          (
            out,
            merge_eq destination source f g ∙ e,
            record {
              valid = k.valid;
              covers = λ px py s c. k.covers px py s (merge_listed destination source f px py c);
            },
          )
    ]
  ]
