-- ===== src/Helper/Queue.antt =====
-- The ring of outbound bytes of src/privsep_helper.c against a queue of bytes.
use nix_bench.Prelude.{
  not_ltb→le, ◌⊎◌, ℕ, zero, suc, ◌+◌, ◌-◌, ◌%◌, ◌≤◌, ◌<◌, ◌≡◌, refl, sym, ap, ◌∙◌, Bool, true,
  false, not, ◌&&◌, ◌||◌, Option, none, some, List, [], ◌++◌, ltb, ◌==◌, if◌then◌else◌, if_cases,
  if_true, if_false, take, drop, length, arith, Bool-cases, inl, inr,
}
use nix_bench.Privsep.{Body, Endpoint}
use nix_bench.Privsep.Stream.{message_encode}
use nix_bench.Helper.{
  control_reserve, size_sub, max_outbound_messages, Helper, outbound_capacity, max_outbound_message,
  put_wire, enqueue_wire, enqueue_message,
}
use nix_bench.Helper.Outbound.{
  span_from, use_record, consume_records, consume_outbound, drop_front_bytes, peek_outbound,
}
use nix_bench.Helper.Ring.{
  ring, length-ring, ring-append, ring-drop, ring-take, ring_same, ring_bytes, ring-mod, span-ring,
  stored, stored_new, stored_old,
}

-- The bytes that wait to leave the helper, in their order.
unfoldable pub queued : Helper → List ℕ
queued h = ring h.outbound h.outbound_head h.outbound_size

abbrev pub QueueFits : Helper → Type 0
QueueFits h = (h.outbound_head < outbound_capacity) × (h.outbound_size ≤ outbound_capacity)

put_wire-queued :
    (h : Helper) (wire : List ℕ) (input : Bool)
    → h.outbound_size + length wire ≤ outbound_capacity
    → queued (put_wire h wire input) ≡ queued h ++ wire
unfolding queued put_wire
put_wire-queued h wire input fits =
    let tail = (h.outbound_head + h.outbound_size) % outbound_capacity in
    let first =
      if ltb (length wire) (outbound_capacity - tail)
      then length wire
      else outbound_capacity - tail in
    let split : first ≤ length wire = ground arith in
    let room : first ≤ outbound_capacity - tail = ground arith in
    let wraps : (first ≡ length wire) ⊎ (first ≡ outbound_capacity - tail) =
      elim (Bool-cases (ltb (length wire) (outbound_capacity - tail))) [
        | inl e ↦ inl (if_true _ _ e)
        | inr e ↦ inr (if_false _ _ e)
      ] in
    let b = stored h.outbound h.outbound_head h.outbound_size wire first in
    ring-append b h.outbound_head h.outbound_size (length wire)
    ∙ rw (
      ring_same b h.outbound h.outbound_head h.outbound_head h.outbound_size
          (stored_old h.outbound h.outbound_head h.outbound_size wire first fits split room wraps),
      ring_bytes b (h.outbound_head + h.outbound_size) wire
          (stored_new h.outbound h.outbound_head h.outbound_size wire first fits split room wraps),
    )

-- What a queued message does: its wire form stands behind the bytes that waited, and input leaves
-- room for control messages.
pub record IsEnqueued (h : Helper) (body : Body) (input : Bool) (h' : Helper) : Type 0 where
  pub wire : List ℕ
  pub encoded :
      message_encode Endpoint.helper h.next_outbound_sequence body max_outbound_message ≡ some wire
  pub appended : queued h' ≡ queued h ++ wire
  pub still_fits : QueueFits h'
  pub reserved : input ≡ true → h'.outbound_size + control_reserve ≤ outbound_capacity

abbrev pub Enqueues : Helper → Body → Bool → Helper × Bool → Type 0
Enqueues h body input r = (r.1 ≡ true → IsEnqueued h body input r.0) × (r.1 ≡ false → r.0 ≡ h)

put_wire-IsEnqueued :
    (h : Helper) (body : Body) (input : Bool) (wire : List ℕ)
    → QueueFits h
    → message_encode Endpoint.helper h.next_outbound_sequence body max_outbound_message ≡ some wire
    → h.outbound_size + length wire ≤ outbound_capacity
    → (input ≡ true → h.outbound_size + length wire + control_reserve ≤ outbound_capacity)
    → IsEnqueued h body input (put_wire h wire input)
put_wire-IsEnqueued h body input wire q e fits left = record {
  wire = wire;
  encoded = e;
  appended = put_wire-queued h wire input fits;
  still_fits = unfold put_wire in (q.0, fits);
  reserved = unfold put_wire in left;
}

enqueue_wire-Enqueues :
    (h : Helper) (body : Body) (input : Bool) (w : Option (List ℕ))
    → QueueFits h
    → message_encode Endpoint.helper h.next_outbound_sequence body max_outbound_message ≡ w
    → Enqueues h body input (enqueue_wire h input w)
unfolding enqueue_wire
enqueue_wire-Enqueues h body input none q e = (λ t. cc, λ t. refl)
enqueue_wire-Enqueues h body input (some wire) q e =
    let available = size_sub outbound_capacity h.outbound_size in
    let full =
      ltb available (length wire) || input && ltb (available - length wire) control_reserve in
    if_cases (Enqueues h body input) full (h, false) (put_wire h wire input, true)
      (λ f. (λ t. cc, λ t. refl))
      (λ f. (
        λ t. put_wire-IsEnqueued h body input wire q e (ground arith) (λ i. ground arith),
        λ t. cc,
      ))

-- While the bytes in use fit the buffer, a message that is queued appends its wire form to the bytes
-- that wait, wherever the ring's end falls, and leaves the reserve for control messages if it is
-- input; a message that is refused leaves the helper as it is.
pub enqueue_message-Enqueues :
    (h : Helper) (body : Body) (input : Bool)
    → QueueFits h
    → Enqueues h body input (enqueue_message h body input)
unfolding enqueue_message
enqueue_message-Enqueues h body input q =
    let wire = message_encode Endpoint.helper h.next_outbound_sequence body max_outbound_message in
    if_cases (Enqueues h body input)
      (h.outbound_sequence_exhausted || h.outbound_record_count == max_outbound_messages) (h, false)
      (enqueue_wire h input wire) (λ e. (λ t. cc, λ t. refl))
      (λ e. enqueue_wire-Enqueues h body input wire q refl)

-- The loop over the records leaves the bytes.
use_record_same :
    (h : Helper) (n : ℕ)
    → ((use_record h n).outbound ≡ h.outbound)
      × ((use_record h n).outbound_head ≡ h.outbound_head)
      × ((use_record h n).outbound_size ≡ h.outbound_size)
unfolding use_record
use_record_same h n = ground arith

abbrev SameBytes : Helper → Helper → Type 0
SameBytes h h' =
    (h'.outbound ≡ h.outbound)
    × (h'.outbound_head ≡ h.outbound_head)
    × (h'.outbound_size ≡ h.outbound_size)

consume_records_same : (left : ℕ) (h : Helper) (n : ℕ) → SameBytes h (consume_records left h n).0
unfolding consume_records
consume_records_same zero h n = (refl, refl, refl)
consume_records_same (suc left) h n =
    let r = h.outbound_records h.outbound_record_head in
    let amount = if ltb n r.remaining then n else r.remaining in
    let h' = use_record h amount in
    let used = use_record_same h amount in
    let rest = consume_records_same left h' (n - amount) in
    if_cases (λ (p : Helper × Bool). SameBytes h p.0) (n == 0) (h, true)
      (if r.remaining - amount == 0 then consume_records left h' (n - amount) else (h', true))
      (λ e. (refl, refl, refl))
      (λ e.
        if_cases (λ (p : Helper × Bool). SameBytes h p.0) (r.remaining - amount == 0)
          (consume_records left h' (n - amount)) (h', true)
          (λ e'. (rest.0 ∙ used.0, rest.1 ∙ used.1, rest.2 ∙ used.2)) (λ e'. used))

same_queue : (h h' : Helper) → SameBytes h h' → queued h' ≡ queued h
unfolding queued
same_queue h h' s = rw (s.0, s.1, s.2)

drop_front_bytes-queued :
    (h : Helper) (n : ℕ) → n ≤ h.outbound_size → queued (drop_front_bytes h n) ≡ drop n (queued h)
unfolding queued drop_front_bytes
drop_front_bytes-queued h n k =
    let left = h.outbound_size - n in
    let empty : Helper = record h {
      outbound_head = 0;
      outbound_size = 0;
      outbound_record_head = 0;
    } in
    let rest : Helper = record h {
      outbound_head = (h.outbound_head + n) % outbound_capacity;
      outbound_size = left;
    } in
    let cut = ring-drop h.outbound h.outbound_head h.outbound_size n k in
    if_cases
      (λ (r : Helper).
        ring r.outbound r.outbound_head r.outbound_size
        ≡ drop n (ring h.outbound h.outbound_head h.outbound_size))
      (left == 0) empty rest
      (λ e. nothing_left h.outbound (h.outbound_head + n) left (ground arith) ∙ sym cut)
      (λ e. ring-mod h.outbound (h.outbound_head + n) left ∙ sym cut)
  where
    nothing_left : (b : ℕ → ℕ) (p m : ℕ) → m ≡ 0 → ring b 0 0 ≡ ring b p m
    nothing_left b p m e = rw e (unfold ring in refl)

drop_front_bytes-QueueFits : (h : Helper) (n : ℕ) → QueueFits h → QueueFits (drop_front_bytes h n)
unfolding drop_front_bytes
drop_front_bytes-QueueFits h n q = ground arith

-- While the bytes in use fit the buffer, consuming bytes with success takes them off the front of the
-- bytes that wait, and those left fit the buffer.
pub consume_outbound-queued :
    (h : Helper) (size : ℕ)
    → QueueFits h
    → (consume_outbound h size).1 ≡ true
    → let h' = (consume_outbound h size).0 in
      (queued h' ≡ drop size (queued h)) × QueueFits h' × (size ≤ length (queued h))
unfolding consume_outbound
consume_outbound-queued h size q t =
    let used = consume_records h.outbound_record_count h size in
    let same = consume_records_same h.outbound_record_count h size in
    if_cases
      (λ (r : Helper × Bool).
        r.1 ≡ true
        → (queued r.0 ≡ drop size (queued h)) × QueueFits r.0 × (size ≤ length (queued h)))
      (ltb h.outbound_size size) (h, false)
      (if not used.1 then (used.0, false) else (drop_front_bytes used.0 size, true)) (λ e t'. cc)
      (λ e.
        let k = not_ltb→le _ _ e in
        if_cases
          (λ (r : Helper × Bool).
            r.1 ≡ true
            → (queued r.0 ≡ drop size (queued h)) × QueueFits r.0 × (size ≤ length (queued h)))
          (not used.1) (used.0, false) (drop_front_bytes used.0 size, true) (λ e' t'. cc)
          (λ e' t'. (
            drop_front_bytes-queued used.0 size (rw same.2 k)
                ∙ ap (drop size) (same_queue h used.0 same),
            drop_front_bytes-QueueFits used.0 size (rw (same.1, same.2) q),
            unfold queued in rw (length-ring h.outbound h.outbound_head h.outbound_size) k,
          )))
      t

none_waits : (h : Helper) → h.outbound_size ≡ 0 → length (queued h) ≡ 0
unfolding queued
none_waits h e = length-ring h.outbound h.outbound_head h.outbound_size ∙ e

abbrev Shows : Helper → List ℕ → Type 0
Shows h span = (span ≡ take (length span) (queued h)) × (0 < length (queued h) → 0 < length span)

span-Shows :
    (h : Helper) (k : ℕ)
    → k ≤ h.outbound_size
    → h.outbound_head + k ≤ outbound_capacity
    → 0 < k
    → Shows h (span_from h.outbound h.outbound_head k)
unfolding queued
span-Shows h k fits room some_byte =
    let b = h.outbound in
    let e = span-ring b h.outbound_head k room in
    let n = length-ring b h.outbound_head k in
    let whole = sym (ring-take b h.outbound_head h.outbound_size k fits) in
    rw e (rw n whole, λ l. omega (arith, n))

-- The span that is shown starts the bytes that wait, and is empty only if none do.
pub peek_outbound-queued :
    (h : Helper)
    → QueueFits h
    → (peek_outbound h ≡ take (length (peek_outbound h)) (queued h))
      × (0 < length (queued h) → 0 < length (peek_outbound h))
unfolding peek_outbound
peek_outbound-queued h q =
    let room = outbound_capacity - h.outbound_head in
    let k = if ltb h.outbound_size room then h.outbound_size else room in
    if_cases (Shows h) (h.outbound_size == 0) [] (span_from h.outbound h.outbound_head k)
      (λ e. (refl, λ l. absurd (omega (arith, none_waits h (ground arith)))))
      (λ e. span-Shows h k (ground arith) (ground arith) (ground arith))
