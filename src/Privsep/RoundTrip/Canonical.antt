-- ===== src/Privsep/RoundTrip/Canonical.antt =====
-- The canonical form of a message is as valid as the message.
use nix_bench.Prelude.{
  ℕ, zero, suc, ◌+◌, ◌*◌, ◌%◌, ◌^◌, ◌≤◌, ◌<◌, ◌≡◌, ◌≢◌, refl, ap, ◌∙◌, true, false, arith,
}
use nix_bench.Privsep.{max_damage_rects, Endpoint, DamageRect, FrameBegin, Body, type_of}
use nix_bench.Privsep.Valid.{
  wire_damage_count, wire_damage_at, rect_at, damage_rect_fails, damage_loop, differ,
  frame_begin_is_valid, body_is_valid, message_is_valid,
}
use nix_bench.Privsep.Decode.{first_rect}
use nix_bench.Privsep.RoundTrip.Sized.{wire_rects, canonical_frame}

-- What a decoder makes of a message.
unfoldable pub canonical : Body → Body
canonical (Body.frame_begin f) = Body.frame_begin (canonical_frame f)
canonical body = body

pub type_of-canonical : (body : Body) → type_of (canonical body) ≡ type_of body
unfolding canonical
type_of-canonical (Body.frame_begin f) = refl
type_of-canonical _ = refl

rect_at-wire_rects :
    (f : FrameBegin) (left index i : ℕ)
    → i < left
    → rect_at (wire_rects f left index) i ≡ wire_damage_at f (index + i)
unfolding rect_at wire_rects
rect_at-wire_rects f zero index i h = absurd (omega arith)
rect_at-wire_rects f (suc left) index zero h = ap (wire_damage_at f) (omega arith)
rect_at-wire_rects f (suc left) index (suc i) h =
    rect_at-wire_rects f left (suc index) i (omega arith) ∙ ap (wire_damage_at f) (omega arith)

-- The loop over the rectangles sees only those before its end.
damage_loop_same :
    (f g : FrameBegin) (left index damage_bytes : ℕ)
    → f.frame_bytes ≡ g.frame_bytes
    → ((i : ℕ) → i < index + left → wire_damage_at f i ≡ wire_damage_at g i)
    → damage_loop f left index damage_bytes ≡ damage_loop g left index damage_bytes
unfolding damage_loop
damage_loop_same f g zero index damage_bytes e same = rw e
damage_loop_same f g (suc left) index damage_bytes e same =
    let here = same index (omega arith) in
    let rest = λ (b : ℕ). damage_loop_same f g left (suc index) b e (λ i h. same i (omega arith)) in
    let r = wire_damage_at g index in
    rw (here, rest ((damage_bytes + r.width * r.height * 4 % 2 ^ 64) % 2 ^ 64))

pub count-le :
    (f : FrameBegin) → frame_begin_is_valid f ≡ true → wire_damage_count f ≤ max_damage_rects
unfolding frame_begin_is_valid wire_damage_count
count-le f v = ground arith

-- The cases of the count.
canonical-count_at :
    (f : FrameBegin) (n : ℕ) → wire_damage_count f ≡ n → wire_damage_count (canonical_frame f) ≡ n
unfolding canonical_frame first_rect wire_rects
canonical-count_at f zero e = rw e (unfold wire_damage_count in refl)
canonical-count_at f (suc n) e = rw e (unfold wire_damage_count in ground arith)

canonical-count : (f : FrameBegin) → wire_damage_count (canonical_frame f) ≡ wire_damage_count f
canonical-count f = canonical-count_at f (wire_damage_count f) refl

from_array :
    (f : FrameBegin) (i : ℕ) → f.damage_count ≢ 0 → wire_damage_at f i ≡ rect_at f.damage_rects i
unfolding wire_damage_at
from_array f i h = ground arith

canonical-damage_at :
    (f : FrameBegin) (i : ℕ)
    → i < wire_damage_count f
    → wire_damage_at (canonical_frame f) i ≡ wire_damage_at f i
unfolding canonical_frame
canonical-damage_at f i h =
    let n = wire_damage_count f in
    from_array (canonical_frame f) i (omega arith)
    ∙ rect_at-wire_rects f n 0 i h
    ∙ ap (wire_damage_at f) (omega arith)

first-fails_loop :
    (f : FrameBegin) (n : ℕ)
    → damage_loop f (suc n) 0 0 ≡ true
    → damage_rect_fails (wire_damage_at f 0) ≡ false
unfolding damage_loop
first-fails_loop f n h = ground arith

first-fails :
    (f : FrameBegin) (n : ℕ)
    → wire_damage_count f ≡ suc n
    → frame_begin_is_valid f ≡ true
    → damage_rect_fails (wire_damage_at f 0) ≡ false
unfolding frame_begin_is_valid
first-fails f n e v = first-fails_loop f n (ground (arith, rw e at v))

not_empty : (r : DamageRect) → damage_rect_fails r ≡ false → (r.width ≢ 0) × (r.height ≢ 0)
unfolding damage_rect_fails
not_empty r h = ground arith

-- A frame that shares the numbers and the loop of a valid one.
valid_as :
    (f g : FrameBegin) (n : ℕ)
    → wire_damage_count f ≡ suc n
    → wire_damage_count g ≡ suc n
    → g.damage_count ≤ max_damage_rects
    → g.generation ≡ f.generation
    → g.serial ≡ f.serial
    → g.frame_bytes ≡ f.frame_bytes
    → (g.damage.width ≢ 0) × (g.damage.height ≢ 0)
    → damage_loop g (suc n) 0 0 ≡ damage_loop f (suc n) 0 0
    → frame_begin_is_valid f ≡ true
    → frame_begin_is_valid g ≡ true
unfolding frame_begin_is_valid differ
valid_as f g n ef eg hc h1 h2 h3 hd hl v = let v' = rw ef at v in rw (eg, hl) (ground arith)

loop-canonical :
    (f : FrameBegin)
    → let n = wire_damage_count f in damage_loop (canonical_frame f) n 0 0 ≡ damage_loop f n 0 0
unfolding canonical_frame
loop-canonical f =
    damage_loop_same (canonical_frame f) f (wire_damage_count f) 0 0 refl
      (λ i h. canonical-damage_at f i (omega arith))

-- Without rectangles the fields for one are zero; otherwise the first of them passed its test.
frame_begin-canonical_at :
    (f : FrameBegin) (n : ℕ)
    → wire_damage_count f ≡ n
    → frame_begin_is_valid f ≡ true
    → frame_begin_is_valid (canonical_frame f) ≡ true
unfolding frame_begin_is_valid
frame_begin-canonical_at f zero e v =
    let c = canonical-count f in
    rw (c, e) (unfold canonical_frame wire_rects first_rect differ in rw e (ground arith))
frame_begin-canonical_at f (suc n) e v =
    valid_as f (canonical_frame f) n e (canonical-count f ∙ e)
      (unfold canonical_frame in count-le f v) (unfold canonical_frame in refl)
      (unfold canonical_frame in refl) (unfold canonical_frame in refl)
      (unfold canonical_frame wire_rects first_rect in rw e (not_empty _ (first-fails f n e v)))
      (rw e at (loop-canonical f)) v

pub frame_begin-canonical :
    (f : FrameBegin)
    → frame_begin_is_valid f ≡ true
    → frame_begin_is_valid (canonical_frame f) ≡ true
frame_begin-canonical f v = frame_begin-canonical_at f (wire_damage_count f) refl v

pub message_is_valid-canonical :
    (sender : Endpoint) (body : Body)
    → message_is_valid sender body ≡ true
    → message_is_valid sender (canonical body) ≡ true
unfolding canonical message_is_valid body_is_valid
message_is_valid-canonical sender (Body.frame_begin f) v = ground (arith, frame_begin-canonical f)
message_is_valid-canonical sender _ v = v
