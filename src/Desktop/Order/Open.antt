-- ===== src/Desktop/Order/Open.antt =====
-- `nb_desktop_init` and `nb_desktop_open_window` of src/desktop.c: the invariant and the stacking
-- order.
use nix_bench.Prelude.{
  ℕ, ◌<◌, ◌≡◌, ◌≢◌, inl, inr, refl, sym, ap, ◌∙◌, true, false, Option, none, some, List, [], ◌∷◌,
  ◌++◌, arith, Bool-cases,
}
use nix_bench.Prelude.{◌==◌, ==_iff, if◌then◌else◌}
use mathlib.Core.Path.{subst}
use nix_bench.Window
use nix_bench.Window.{Rect}
use nix_bench.Desktop.{
  Slot, Desktop, id_none, no_slot, max_windows, find_free_slot, find_slot_by_id, set_active_window,
  allocate_id, init,
}
use nix_bench.Desktop.Stack.{fill_slot, open_window}
use nix_bench.Desktop.Lookup.{InStack, hit, miss, find_slot_by_id-FindsId}
use nix_bench.Desktop.Invariant.{IsStacked, IsValid}
use nix_bench.Desktop.Focus.{set_active_window-IsValid, InStack-append_last}
use nix_bench.Desktop.Order.Spec.{ids, member, at, nowhere, located}
use nix_bench.Desktop.Order.Raise.{
  set_active-pointer, ids-set_active, set_active-active, focusable_at,
}
use nix_bench.Desktop.Order.Allocate.{
  IsAllocated, allocate_id-IsAllocated, FindsFree, free, full, find_free_slot-FindsFree,
}
use nix_bench.Desktop.Order.Added.{old, new, ids-opened, opened-IsStacked, opened-IsKnown}

-- A new desktop is valid, whatever the windows of its free slots hold.
pub init-IsValid : (windows : ℕ → Window.Window) → IsValid (init windows)
unfolding init
init-IsValid windows = record {
  stacked = record {
    distinct = tt;
    in_range = λ i h. absurd h;
    occupied = λ i h. absurd h;
    named = λ i h. absurd h;
    stacked = λ i lt o. absurd (cc o);
    ids = λ i j h. absurd h;
  };
  focus = record { marked = λ i h. absurd h; focused = λ ne. absurd (ne refl) };
  pointed = λ ne. absurd (ne refl);
}

-- What opening a window does: `id` is the new window's id, or none, and `opened` the desktop.
pub record Opens (d : Desktop) (id : ℕ) (opened : Desktop) : Type 0 where
  pub valid : IsValid opened
  pub new_id : member id (ids d) ≡ false
  pub order : ids opened ≡ (if id == id_none then ids d else ids d ++ id ∷ [])
  pub active : opened.active_window ≡ (if id == id_none then d.active_window else id)
  pub pointer : opened.pointer_window ≡ d.pointer_window

-- The desktop with the new window in slot `i`, before it is made active.
abbrev filled : Desktop → ℕ → ℕ → Option (List ℕ) → Rect → Desktop
filled d i id text frame = record d {
  slots = fill_slot d i id text frame;
  stack = d.stack ++ i ∷ [];
}

init-shown : (text : Option (List ℕ)) (frame : Rect) → (Window.init text frame).minimized ≡ false
unfolding Window.init Window.set_title
init-shown none frame = refl
init-shown (some t) frame = refl

module _ (d : Desktop) (i id : ℕ) (text : Option (List ℕ)) (frame : Rect) (v : IsValid d)
    (lt : i < max_windows) (f : (d.slots i).occupied ≡ false) (ne : id ≢ id_none)
    (m : member id (ids d) ≡ false)
    (other : (j : ℕ) → InStack j d.stack → (d.slots j).id ≢ id) where
  filled-IsStacked : IsStacked (filled d i id text frame).slots (filled d i id text frame).stack
  filled-IsStacked =
      opened-IsStacked d.slots i d.stack
        (record { window = Window.init text frame; id = id; occupied = true }) v.stacked f lt refl
        ne other

  filled-found : find_slot_by_id (filled d i id text frame) id ≡ i
  filled-found = elim (find_slot_by_id-FindsId (filled d i id text frame) id) [
    | hit l o e _ ↦
        filled-IsStacked.ids _ i (filled-IsStacked.stacked _ l o) (InStack-append_last d.stack i)
          (e ∙ ground arith)
    | miss _ h ↦ absurd (h ne i lt (ground arith) (ground arith))
  ]

  filled-Opens : Opens d id (set_active_window (filled d i id text frame) id)
  filled-Opens =
      let next = filled d i id text frame in
      record {
        valid =
            set_active_window-IsValid next id filled-IsStacked
              (opened-IsKnown d.slots i d.stack _ v.stacked f d.pointer_window v.pointed);
        new_id = m;
        order =
            ids-set_active next id
            ∙ ids-opened d.slots i d.stack _ v.stacked f d.stack
                (old d.slots i d.stack _ v.stacked f)
            ∙ ground arith;
        active =
            set_active-active next id
            ∙ focusable_at next id i next.stack filled-found lt (
                ap (λ (t : Slot). t.window.minimized) (new d.slots i d.stack _ v.stacked f)
                ∙ init-shown text frame)
            ∙ ground arith;
        pointer = set_active-pointer next id;
      }

not_opened :
    (d : Desktop) (k : ℕ)
    → IsValid d
    → member id_none (ids d) ≡ false
    → Opens d id_none (record d { next_id = k })
not_opened d k v m = record {
  valid = record { stacked = v.stacked; focus = v.focus; pointed = v.pointed };
  new_id = m;
  order = refl;
  active = refl;
  pointer = refl;
}

unlisted :
    (d : Desktop) (id : ℕ) → IsValid d → find_slot_by_id d id ≡ no_slot → member id (ids d) ≡ false
unlisted d id v e = elim (located d id v.stacked) [
  | nowhere _ m ↦ m
  | at i e' lt h q m r ↦ absurd (omega arith)
]

other_ids :
    (d : Desktop) (id : ℕ)
    → IsValid d
    → id ≢ id_none
    → find_slot_by_id d id ≡ no_slot
    → (j : ℕ) → InStack j d.stack
    → (d.slots j).id ≢ id
other_ids d id v ne e j h = elim (find_slot_by_id-FindsId d id) [
  | hit lt _ _ _ ↦ absurd (omega arith)
  | miss _ other ↦ other ne j (v.stacked.in_range j h) (v.stacked.occupied j h)
]

none_missing : (d : Desktop) → find_slot_by_id d id_none ≡ no_slot
unfolding find_slot_by_id
none_missing d = refl

open_full :
    (d : Desktop) (text : Option (List ℕ)) (frame : Rect)
    → find_free_slot d ≡ no_slot
    → open_window d text frame ≡ (id_none, d)
unfolding open_window
open_full d text frame e = rw e

open_at :
    (d d' : Desktop) (text : Option (List ℕ)) (frame : Rect) (i id : ℕ)
    → find_free_slot d ≡ i
    → i < max_windows
    → allocate_id d ≡ (id, d')
    → open_window d text frame ≡ (
        if id == id_none
        then (id_none, d')
        else (id, set_active_window (filled d' i id text frame) id))
unfolding open_window
open_at d d' text frame i id e lt a = rw (e, a) (ground arith)

Opens-next :
    (d : Desktop) (k id : ℕ) (opened : Desktop)
    → Opens (record d { next_id = k }) id opened
    → Opens d id opened
Opens-next d k id opened o = record {
  valid = o.valid;
  new_id = o.new_id;
  order = o.order;
  active = o.active;
  pointer = o.pointer;
}

-- `open_window` with the free slot and the allocation named.
opens :
    (d : Desktop) (text : Option (List ℕ)) (frame : Rect) (i : ℕ) (r : ℕ × Desktop)
    → IsValid d
    → find_free_slot d ≡ i
    → allocate_id d ≡ r
    → FindsFree d i
    → IsAllocated d r
    → Opens d (open_window d text frame).0 (open_window d text frame).1
opens d text frame i (id, d') v ei er (full e _) a =
    rw (open_full d text frame (ei ∙ e))
      (not_opened d d.next_id v (unlisted d id_none v (none_missing d)))
opens d text frame i (id, d') v ei er (free lt f) a = elim (Bool-cases (id == id_none)) [
  | inl z ↦ rw (open_at d d' text frame i id ei lt er) (
      rw z (
        subst (Opens d id_none) (sym a.same)
          (not_opened d d'.next_id v (unlisted d id_none v (none_missing d)))))
  | inr nz ↦
      let ne : id ≢ id_none = λ e. cc (nz, (==_iff id id_none).1 e) in
      let k = d'.next_id in
      let v' : IsValid (record d { next_id = k }) = record {
        stacked = v.stacked;
        focus = v.focus;
        pointed = v.pointed;
      } in
      rw (open_at d d' text frame i id ei lt er) (
        rw nz (
          subst (λ e. Opens d id (set_active_window (filled e i id text frame) id)) (sym a.same)
            (Opens-next d k id _ (
              filled-Opens (record d { next_id = k }) i id text frame v' lt f ne
                (unlisted d id v (a.fresh ne)) (other_ids d id v ne (a.fresh ne))))))
]

-- Opening a window on a valid desktop gives the invalid id 0, and keeps order and active window,
-- or an id that no window has: the new window is then in front of the others, whose order stays,
-- and active. The pointer stays with its window, and the desktop is valid again.
pub open_window-Opens :
    (d : Desktop) (text : Option (List ℕ)) (frame : Rect)
    → IsValid d
    → Opens d (open_window d text frame).0 (open_window d text frame).1
open_window-Opens d text frame v =
    opens d text frame _ _ v refl refl (find_free_slot-FindsFree d) (allocate_id-IsAllocated d)
