-- ===== src/Helper/Dispatch.antt =====
-- The bytes of frames, the greeting, the dispatch and the feed of src/privsep_helper.c keep the helper
-- consistent.
use nix_bench.Prelude.{
  ℕ, zero, suc, ◌+◌, ◌-◌, ◌%◌, ◌^◌, ◌≤◌, ◌≡◌, refl, true, false, not, ◌||◌, Option, none, some,
  List, [], ◌∷◌, drop, length, ltb, ◌==◌, if◌then◌else◌, if_cases, codes, arith, not_ltb→le,
}
use nix_bench.Damage.{Rect}
use nix_bench.Privsep.{fatal_protocol, FrameData, Body, ParseStatus}
use nix_bench.Privsep.Stream.{parser_feed}
use nix_bench.Helper.{
  credentials, Helper, enqueue_or_fail, fail_helper, queue_ready, ready_body, credentials_equal,
}
use nix_bench.Helper.Frames.{
  piece_of, find_damage, bytes_of, refuse, data_end, copy_loop, copy_next, copy_piece, Copied,
  complete, no_damage, too_large, no_fuel, handle_frame_data,
}
use nix_bench.Helper.Messages.{
  greet, handle_hello, handle_body, handle_message, HelperFed, refused, feed_message, feed_loop,
  helper_feed,
}
use nix_bench.Helper.Consistent.{
  IsConsistent, SameState, same-IsConsistent, Good, refuse-Good, fail_helper-Good,
  enqueue_or_fail-IsConsistent,
}
use nix_bench.Helper.Handlers.{
  handle_frame_begin-Good, handle_frame_reference-Good, handle_pong-Good, handle_shutdown-Good,
}

copy_next-SameState :
    (rest : Helper → ℕ → ℕ → Helper × Copied) (h : Helper) (f : FrameData) (bytes : List ℕ)
    (s p : ℕ) (found : Option (Rect × ℕ))
    → ((h' : Helper) (s' p' : ℕ) → SameState h' (rest h' s' p').0)
    → SameState h (copy_next rest h f bytes s p found).0
unfolding copy_next copy_piece
copy_next-SameState rest h f bytes s p none kept = ground arith
copy_next-SameState rest h f bytes s p (some (damage, base)) kept =
    let q = piece_of h damage base p (f.size - s) in
    ground (arith, kept (copy_piece h bytes s q) (s + q.amount) (p + q.amount))

pub copy_loop-SameState :
    (fuel : ℕ) (f : FrameData) (bytes : List ℕ) (h : Helper) (s p : ℕ)
    → SameState h (copy_loop fuel f bytes h s p).0
unfolding copy_loop
copy_loop-SameState zero f bytes h s p = ground arith
copy_loop-SameState (suc fuel) f bytes h s p =
    let found = find_damage h h.frame_damage_count 0 0 p in
    ground (
      arith,
      copy_next-SameState (copy_loop fuel f bytes) h f bytes s p found
          (λ h' s' p'. copy_loop-SameState fuel f bytes h' s' p'),
    )

received-IsConsistent :
    (h : Helper) (n : ℕ)
    → IsConsistent h
    → n ≤ h.frame_expected
    → IsConsistent (record h { frame_received = n % 2 ^ 32 })
received-IsConsistent h n v k = record {
  open_frame = λ o. let f = v.open_frame o in (f.0, f.1, f.2, f.3, omega arith, f.5, f.6, f.7);
  shown = v.shown;
  one_ping = v.one_ping;
  greeting = v.greeting;
}

data_end-Good :
    (n : ℕ) (h : Helper) (c : Copied)
    → IsConsistent h
    → h.failed ≡ false
    → n ≤ h.frame_expected
    → Good (data_end n (h, c))
unfolding data_end
data_end-Good n h complete v a k = (received-IsConsistent h n v k, λ t. a)
data_end-Good n h no_damage v a k =
    refuse-Good h (codes "FRAME_DATA has no matching damage rectangle") v
data_end-Good n h too_large v a k = refuse-Good h (codes "FRAME_DATA exceeds trusted output size") v
data_end-Good n h no_fuel v a k = (v, λ t. a)

handle_frame_data-Good :
    (h : Helper) (f : FrameData) → IsConsistent h → h.failed ≡ false → Good (handle_frame_data h f)
unfolding handle_frame_data
handle_frame_data-Good h f v a =
    let end = h.frame_received + f.size in
    let copied = copy_loop f.size f (bytes_of f.bytes) h 0 h.frame_received in
    let same = copy_loop-SameState f.size f (bytes_of f.bytes) h 0 h.frame_received in
    let v' = same-IsConsistent h copied.0 v same in
    let early = codes "out-of-order FRAME_DATA" in
    let long = codes "FRAME_DATA exceeds declared frame size" in
    let barred =
      not h.frame_open
      || not (f.generation == h.frame_generation)
      || not (f.serial == h.frame_serial)
      || not (f.offset == h.frame_received) in
    let skipped : Helper = record h { frame_received = end % 2 ^ 32 } in
    let stored = if not h.frame_stale then data_end end copied else (skipped, true) in
    if_cases Good barred (refuse h early)
      (if ltb h.frame_expected end then refuse h long else stored) (λ t. refuse-Good h early v)
      (λ t.
        if_cases Good (ltb h.frame_expected end) (refuse h long) stored (λ e. refuse-Good h long v)
          (λ e.
            let k = not_ltb→le _ _ e in
            if_cases Good (not h.frame_stale) (data_end end copied) (skipped, true)
              (λ s. data_end-Good end copied.0 copied.1 v' (ground arith) (ground arith))
              (λ s. (received-IsConsistent h end v k, λ x. a))))

pub ready-IsConsistent :
    (h : Helper)
    → IsConsistent h
    → h.hello_received ≡ true
    → IsConsistent (record h { ready_sent = true })
ready-IsConsistent h v r = record {
  open_frame = λ o. let f = v.open_frame o in (refl, f.1, f.2, f.3, f.4, f.5, f.6, f.7);
  shown = v.shown;
  one_ping = v.one_ping;
  greeting = λ x. r;
}

greet-Good :
    (h : Helper) → IsConsistent h → h.failed ≡ false → h.hello_received ≡ true → Good (greet h)
unfolding greet queue_ready
greet-Good h v a r =
    let q = enqueue_or_fail h (ready_body false h) false in
    let known = enqueue_or_fail-IsConsistent h (ready_body false h) false v in
    let answered : Helper = record (q.0) { ready_sent = true } in
    if_cases Good h.suspended (h, true) (if not q.1 then (q.0, false) else (answered, true))
      (λ t. (v, λ x. a))
      (λ t.
        if_cases Good (not q.1) (q.0, false) (answered, true) (λ e. (known.0, λ x. cc))
          (λ e. (
            ready-IsConsistent q.0 known.0 (ground (arith, known.1)),
            λ x. ground (arith, known.1),
          )))

handle_hello-Good :
    (h : Helper) (body : Body) → IsConsistent h → h.failed ≡ false → Good (handle_hello h body)
unfolding handle_hello
handle_hello-Good h (Body.core_hello c) v a =
    let text = codes "CORE_HELLO credentials do not match child" in
    let h' : Helper = record h { hello_received = true } in
    let greeted : IsConsistent h' = record {
      open_frame = v.open_frame;
      shown = v.shown;
      one_ping = v.one_ping;
      greeting = λ x. refl;
    } in
    if_cases Good (not (credentials_equal c h.expected_credentials))
      (fail_helper h credentials fatal_protocol 0 text) (greet h')
      (λ t. fail_helper-Good h credentials fatal_protocol 0 text v)
      (λ t. greet-Good h' greeted a refl)
handle_hello-Good h _ v a = refuse-Good h (codes "CORE_HELLO must be the first message") v

handle_body-Good :
    (h : Helper) (body : Body)
    → IsConsistent h
    → h.failed ≡ false
    → h.shutdown_requested ≡ false
    → Good (handle_body h body)
unfolding handle_body
handle_body-Good h (Body.core_hello c) v a d = refuse-Good h (codes "duplicate CORE_HELLO") v
handle_body-Good h (Body.frame_begin f) v a d = handle_frame_begin-Good h f v a d
handle_body-Good h (Body.frame_data f) v a d = handle_frame_data-Good h f v a
handle_body-Good h (Body.frame_commit r) v a d = handle_frame_reference-Good h false r v a
handle_body-Good h (Body.frame_abort r) v a d = handle_frame_reference-Good h true r v a
handle_body-Good h (Body.pong token) v a d = handle_pong-Good h token v a
handle_body-Good h (Body.shutdown_request token) v a d = handle_shutdown-Good h token v a
handle_body-Good h _ v a d = refuse-Good h (codes "invalid core message") v

pub handle_message-Good :
    (h : Helper) (body : Body) → IsConsistent h → h.failed ≡ false → Good (handle_message h body)
unfolding handle_message
handle_message-Good h body v a =
    let text = codes "message received after shutdown request" in
    if_cases Good (not h.hello_received) (handle_hello h body)
      (if h.shutdown_requested then refuse h text else handle_body h body)
      (λ t. handle_hello-Good h body v a)
      (λ t.
        if_cases Good h.shutdown_requested (refuse h text) (handle_body h body)
          (λ d. refuse-Good h text v) (λ d. handle_body-Good h body v a d))

feed_message-IsConsistent :
    (rest : Helper → List ℕ → ℕ → HelperFed) (h : Helper) (left : List ℕ) (total : ℕ)
    (status : ParseStatus)
    → IsConsistent h
    → h.failed ≡ false
    → ((h' : Helper)
        → IsConsistent h'
        → h'.failed ≡ false
        → IsConsistent (rest h' left total).helper)
    → IsConsistent (feed_message rest h left total status).helper
unfolding feed_message
feed_message-IsConsistent rest h left total ParseStatus.error v a next =
    (refuse-Good h (codes "malformed core protocol message") v).0
feed_message-IsConsistent rest h left total ParseStatus.need_more v a next = v
feed_message-IsConsistent rest h left total (ParseStatus.message m) v a next =
    let r = handle_message h m.body in
    let good = handle_message-Good h m.body v a in
    let stopped : HelperFed = record { helper = r.0; end = refused; consumed = total } in
    if_cases (λ (f : HelperFed). IsConsistent f.helper) (not r.1) stopped (rest r.0 left total)
      (λ t. good.0) (λ t. next r.0 good.0 (good.1 (ground arith)))

feed_loop-IsConsistent :
    (fuel : ℕ) (h : Helper) (bytes : List ℕ) (total : ℕ)
    → IsConsistent h
    → h.failed ≡ false
    → IsConsistent (feed_loop fuel h bytes total).helper
unfolding feed_loop
feed_loop-IsConsistent fuel h [] total v a = v
feed_loop-IsConsistent zero h (b ∷ bytes) total v a = v
feed_loop-IsConsistent (suc fuel) h (b ∷ bytes) total v a =
    let fed = parser_feed h.parser (b ∷ bytes) in
    let h' : Helper = record h { parser = fed.parser } in
    let left = drop fed.consumed (b ∷ bytes) in
    feed_message-IsConsistent (feed_loop fuel) h' left (total + fed.consumed) fed.status
      (same-IsConsistent h h' v (ground arith)) a
      (λ h'' v' a'. feed_loop-IsConsistent fuel h'' left (total + fed.consumed) v' a')

pub helper_feed-IsConsistent :
    (h : Helper) (bytes : List ℕ) → IsConsistent h → IsConsistent (helper_feed h bytes).helper
unfolding helper_feed
helper_feed-IsConsistent h bytes v =
    if_cases (λ (f : HelperFed). IsConsistent f.helper) h.failed
      (record { helper = h; end = refused; consumed = 0 }) (feed_loop (length bytes) h bytes 0)
      (λ t. v) (λ t. feed_loop-IsConsistent (length bytes) h bytes 0 v t)
