-- ===== src/Desktop/Order/Added.antt =====
-- A window put into a free slot and in front: for `nb_desktop_open_window` of src/desktop.c.
use nix_bench.Prelude.{
  ℕ, ◌<◌, ◌≡◌, ◌≢◌, inl, inr, refl, sym, ap, ◌∙◌, true, false, List, [], ◌∷◌, ◌++◌, arith,
}
use mathlib.Core.Path.{subst}
use native.Mathlib.Decide.{ℕ_discrete}
use nix_bench.Desktop.{Slot, id_none, max_windows, set_slot}
use nix_bench.Desktop.Lookup.{InStack}
use nix_bench.Desktop.Invariant.{IsStacked, IsKnown}
use nix_bench.Desktop.Focus.{
  InStack-append, InStack-append_left, InStack-append_last, Distinct-append,
}
use nix_bench.Desktop.Order.Spec.{ids_of}

-- The free slot `i` gets the slot `s` and goes in front.
module _ (slots : ℕ → Slot) (i : ℕ) (st : List ℕ) (s : Slot) (v : IsStacked slots st)
    (f : (slots i).occupied ≡ false) where
  apart : (j : ℕ) → InStack j st → j ≢ i
  apart j h e = cc (v.occupied j h, ap (λ k. (slots k).occupied) e, f)

  pub old : (j : ℕ) → InStack j st → set_slot slots i s j ≡ slots j
  old j h = let ne = apart j h in ground arith

  pub new : set_slot slots i s i ≡ s
  new = ground arith

  pub ids-opened :
      (st' : List ℕ)
      → ((j : ℕ) → InStack j st' → set_slot slots i s j ≡ slots j)
      → ids_of (set_slot slots i s) (st' ++ i ∷ []) ≡ ids_of slots st' ++ s.id ∷ []
  ids-opened [] h = ap (λ (t : Slot). t.id ∷ []) new
  ids-opened (j ∷ st') h =
      ap (λ (t : Slot). t.id ∷ ids_of (set_slot slots i s) (st' ++ i ∷ [])) (h j (inl refl))
      ∙ ap (λ l. (slots j).id ∷ l) (ids-opened st' (λ k m. h k (inr m)))

  opened_slot :
      (P : ℕ → Slot → Type 0)
      → ((j : ℕ) → InStack j st → P j (slots j))
      → P i s
      → (j : ℕ) → InStack j (st ++ i ∷ [])
      → P j (set_slot slots i s j)
  opened_slot P h p j k = elim (InStack-append j st i k) [
    | inl m ↦ subst (P j) (sym (old j m)) (h j m)
    | inr e ↦ subst (λ l. P l (set_slot slots i s l)) (sym e) (subst (P i) (sym new) p)
  ]

  pub opened-IsStacked :
      i < max_windows
      → s.occupied ≡ true
      → s.id ≢ id_none
      → ((j : ℕ) → InStack j st → (slots j).id ≢ s.id)
      → IsStacked (set_slot slots i s) (st ++ i ∷ [])
  opened-IsStacked lt o ne other = record {
    distinct = Distinct-append st i v.distinct (λ h. apart i h refl);
    in_range = λ j k. opened_slot (λ l _. l < max_windows) v.in_range lt j k;
    occupied = λ j k. opened_slot (λ _ t. t.occupied ≡ true) v.occupied o j k;
    named = λ j k. opened_slot (λ _ t. t.id ≢ id_none) v.named ne j k;
    stacked = λ j l q. still j l q (ℕ_discrete j i);
    ids = λ j k h m.
        opened_slot (λ a t. t.id ≡ (set_slot slots i s k).id → a ≡ k)
          (λ a g.
            opened_slot (λ b u. (slots a).id ≡ u.id → a ≡ b) (λ b g'. v.ids a b g g')
              (λ e. absurd (other a g e)) k m)
          (opened_slot (λ b u. s.id ≡ u.id → i ≡ b) (λ b g e. absurd (other b g (sym e)))
            (λ e. refl) k m)
          j h;
  }
    where
      still :
          (j : ℕ)
          → j < max_windows
          → (set_slot slots i s j).occupied ≡ true
          → Dec (j ≡ i)
          → InStack j (st ++ i ∷ [])
      still j l q (yes e) = subst (λ k. InStack k (st ++ i ∷ [])) (sym e) (InStack-append_last st i)
      still j l q (no away) = InStack-append_left j st i (v.stacked j l (ground arith))

  pub opened-IsKnown :
      (id : ℕ) → IsKnown slots st id → IsKnown (set_slot slots i s) (st ++ i ∷ []) id
  opened-IsKnown id k ne =
      let (j, h, e) = k ne in
      (j, InStack-append_left j st i h, ap (λ (t : Slot). t.id) (old j h) ∙ e)
