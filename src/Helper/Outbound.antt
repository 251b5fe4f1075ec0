-- ===== src/Helper/Outbound.antt =====
-- The queue of outbound bytes of src/privsep_helper.c: reading from its front, and the removal of
-- input that has not left the helper.
use nix_bench.Prelude.{
  ℕ, zero, suc, ◌+◌, ◌-◌, ◌*◌, ◌/◌, ◌%◌, ◌^◌, Bool, true, false, not, ◌&&◌, ◌||◌, Option, none,
  some, List, [], ◌∷◌, ◌++◌, ltb, ◌==◌, if◌then◌else◌, take, drop, length,
}
use nix_bench.Helper.{
  outbound_capacity, max_outbound_messages, OutboundRecord, Helper, copy_in, set_record,
}

-- `n` bytes of a buffer from a position on.
unfoldable pub span_from : (ℕ → ℕ) → ℕ → ℕ → List ℕ
span_from buffer position zero = []
span_from buffer position (suc n) = buffer position ∷ span_from buffer (suc position) n

-- The span that is shown; it is empty for an empty queue.
unfoldable pub peek_outbound : Helper → List ℕ
peek_outbound h =
    let contiguous = outbound_capacity - h.outbound_head in
    if h.outbound_size == 0
    then []
    else span_from h.outbound h.outbound_head
        (if ltb h.outbound_size contiguous then h.outbound_size else contiguous)

-- The first record with `amount` bytes less, taken off the queue when it has none left.
unfoldable pub use_record : Helper → ℕ → Helper
use_record h amount =
    let r = h.outbound_records h.outbound_record_head in
    let h' : Helper = record h {
      outbound_records =
          set_record h.outbound_records h.outbound_record_head
            (record r { started = true; remaining = r.remaining - amount });
    } in
    if r.remaining - amount == 0
    then record h' {
      outbound_record_head = (h.outbound_record_head + 1) % max_outbound_messages;
      outbound_record_count = h.outbound_record_count - 1;
    }
    else h'

-- The loop of `nb_privsep_helper_consume_outbound`; `left` is the record count. A record that keeps
-- bytes took all that remained, so the loop ends there.
unfoldable pub consume_records : ℕ → Helper → ℕ → Helper × Bool
consume_records zero h remaining = (h, remaining == 0)
consume_records (suc left) h remaining =
    let r = h.outbound_records h.outbound_record_head in
    let amount = if ltb remaining r.remaining then remaining else r.remaining in
    let h' = use_record h amount in
    let rest = consume_records left h' (remaining - amount) in
    if remaining == 0 then (h, true) else if r.remaining - amount == 0 then rest else (h', true)

-- The queue's own fields after the loop.
unfoldable pub drop_front_bytes : Helper → ℕ → Helper
drop_front_bytes h size =
    if h.outbound_size - size == 0
    then record h { outbound_head = 0; outbound_size = 0; outbound_record_head = 0 }
    else record h {
      outbound_head = (h.outbound_head + size) % outbound_capacity;
      outbound_size = h.outbound_size - size;
    }

unfoldable pub consume_outbound : Helper → ℕ → Helper × Bool
consume_outbound h size =
    let (h', enough) = consume_records h.outbound_record_count h size in
    if ltb h.outbound_size size
    then (h, false)
    else if not enough
    then (h', false)
    else (drop_front_bytes h' size, true)

unfoldable pub outbound_size_of : Helper → ℕ
outbound_size_of h = h.outbound_size

unfoldable pub copy_outbound_span : Helper → ℕ → ℕ → List ℕ
copy_outbound_span h position size =
    let room = outbound_capacity - position in
    let first = if ltb size room then size else room in
    span_from h.outbound position first ++ span_from h.outbound 0 (size - first)

-- The eight bytes of a sequence number from an index on, `left` of them still to come.
unfoldable pub sequence_bytes : ℕ → ℕ → ℕ → List ℕ
sequence_bytes sequence zero index = []
sequence_bytes sequence (suc left) index =
    sequence / 2 ^ ((8 - index - 1) * 8) % 2 ^ 8 ∷ sequence_bytes sequence left (suc index)

unfoldable pub store_outbound_sequence : List ℕ → ℕ → List ℕ
store_outbound_sequence wire sequence =
    take 16 wire ++ (sequence_bytes sequence 8 0 ++ drop 24 wire)

-- The local variables of `purge_unsent_input`; `compact` and `retained` are the parts written.
pub record Purge : Type 0 where
  pub compact : List ℕ
  pub retained : List OutboundRecord
  pub read_position : ℕ
  pub next_sequence : ℕ
  pub sequence_available : Bool

unfoldable pub retain_record : Purge → OutboundRecord → List ℕ → Purge
retain_record p r wire = record p { compact = p.compact ++ wire; retained = p.retained ++ (r ∷ []) }

unfoldable pub use_sequence : Purge → Purge
use_sequence p =
    if p.next_sequence == 2 ^ 64 - 1
    then record p { sequence_available = false }
    else record p { next_sequence = p.next_sequence + 1 }

-- A record that stays; `none` is the answer false.
unfoldable pub purge_keep : Helper → OutboundRecord → Purge → Option Purge
purge_keep h source p =
    let wire = copy_outbound_span h p.read_position source.remaining in
    if source.started
    then some (retain_record p source wire)
    else if not p.sequence_available
    then none
    else some (
        use_sequence (
          retain_record p (record source { sequence = p.next_sequence })
            (store_outbound_sequence wire p.next_sequence)))

unfoldable pub purge_advance : OutboundRecord → Option Purge → Option Purge
purge_advance source none = none
purge_advance source (some p) =
    some (record p { read_position = (p.read_position + source.remaining) % outbound_capacity })

unfoldable pub purge_step : Helper → ℕ → Purge → Option Purge
purge_step h index p =
    let source = h.outbound_records ((h.outbound_record_head + index) % max_outbound_messages) in
    if source.remaining == 0 || source.started && not (index == 0)
    then none
    else purge_advance source
        (if not source.input || source.started then purge_keep h source p else some p)

-- The loop over the records, `left` of them still to come.
unfoldable pub purge_next : (Purge → Option Purge) → Option Purge → Option Purge
purge_next rest none = none
purge_next rest (some p) = rest p

unfoldable pub purge_loop : ℕ → Helper → ℕ → Purge → Option Purge
purge_loop zero h index p = some p
purge_loop (suc left) h index p = purge_next (purge_loop left h (suc index)) (purge_step h index p)

-- The records of a list, stored from the start of the array.
unfoldable pub copy_records : List OutboundRecord → (ℕ → OutboundRecord) → ℕ → OutboundRecord
copy_records [] old i = old i
copy_records (r ∷ rs) old zero = r
copy_records (r ∷ rs) old (suc i) = copy_records rs (λ j. old (suc j)) i

unfoldable pub purge_start : Helper → Purge
purge_start h =
    let first = h.outbound_records h.outbound_record_head in
    let p : Purge = record {
      compact = [];
      retained = [];
      read_position = h.outbound_head;
      next_sequence = first.sequence;
      sequence_available = true;
    } in
    if first.started then use_sequence p else p

unfoldable pub purge_store : Helper → Option Purge → Helper × Bool
purge_store h none = (h, false)
purge_store h (some p) = (
  record h {
    outbound = copy_in h.outbound 0 p.compact;
    outbound_records = copy_records p.retained h.outbound_records;
    outbound_head = 0;
    outbound_size = length p.compact;
    outbound_record_head = 0;
    outbound_record_count = length p.retained;
    next_outbound_sequence = p.next_sequence;
    outbound_sequence_exhausted = not p.sequence_available;
  },
  true,
)

unfoldable pub purge_unsent_input : Helper → Helper × Bool
purge_unsent_input h =
    if h.outbound_record_count == 0
    then (h, h.outbound_size == 0)
    else purge_store h (purge_loop h.outbound_record_count h 0 (purge_start h))
