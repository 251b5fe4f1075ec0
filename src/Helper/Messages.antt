-- ===== src/Helper/Messages.antt =====
-- The messages of the core in src/privsep_helper.c: the greeting, the dispatch, and the loop that feeds
-- bytes to the parser.
use nix_bench.Prelude.{
  ℕ, zero, suc, ◌+◌, Bool, true, false, not, List, [], ◌∷◌, if◌then◌else◌, drop, length, codes,
}
use nix_bench.Privsep.{Body, ParseStatus, fatal_protocol}
use nix_bench.Privsep.Stream.{parser_feed}
use nix_bench.Helper.{Helper, credentials, fail_helper, queue_ready, credentials_equal}
use nix_bench.Helper.Frames.{
  refuse, handle_frame_begin, handle_frame_data, handle_frame_reference, handle_pong,
  handle_shutdown,
}

-- The greeting's end: READY is sent unless the session is suspended.
unfoldable pub greet : Helper → Helper × Bool
greet h =
    let (h', queued) = queue_ready h false in
    if h.suspended
    then (h, true)
    else if not queued
    then (h', false)
    else (record h' { ready_sent = true }, true)

-- The first message.
unfoldable pub handle_hello : Helper → Body → Helper × Bool
handle_hello h (Body.core_hello c) =
    if not (credentials_equal c h.expected_credentials)
    then fail_helper h credentials fatal_protocol 0
        (codes "CORE_HELLO credentials do not match child")
    else greet (record h { hello_received = true })
handle_hello h _ = refuse h (codes "CORE_HELLO must be the first message")

-- The switch on the type.
unfoldable pub handle_body : Helper → Body → Helper × Bool
handle_body h (Body.core_hello c) = refuse h (codes "duplicate CORE_HELLO")
handle_body h (Body.frame_begin f) = handle_frame_begin h f
handle_body h (Body.frame_data f) = handle_frame_data h f
handle_body h (Body.frame_commit r) = handle_frame_reference h false r
handle_body h (Body.frame_abort r) = handle_frame_reference h true r
handle_body h (Body.pong token) = handle_pong h token
handle_body h (Body.shutdown_request token) = handle_shutdown h token
handle_body h _ = refuse h (codes "invalid core message")

unfoldable pub handle_message : Helper → Body → Helper × Bool
handle_message h body =
    if not h.hello_received
    then handle_hello h body
    else if h.shutdown_requested
    then refuse h (codes "message received after shutdown request")
    else handle_body h body

-- How a feed ends: with the answer true or false. `no_fuel` is no end of the code's loop.
pub data FeedEnd : Type 0 where
  accepted refused no_fuel : FeedEnd

pub record HelperFed : Type 0 where
  pub helper : Helper
  pub end : FeedEnd
  pub consumed : ℕ

-- What follows one feed of the parser, whose parser `h` already has; `rest` is the next round of the
-- loop, on what the parser left.
unfoldable pub feed_message :
    (Helper → List ℕ → ℕ → HelperFed) → Helper → List ℕ → ℕ → ParseStatus → HelperFed
feed_message rest h left total ParseStatus.error = record {
  helper = (refuse h (codes "malformed core protocol message")).0;
  end = refused;
  consumed = total;
}
feed_message rest h left total ParseStatus.need_more = record {
  helper = h;
  end = accepted;
  consumed = total;
}
feed_message rest h left total (ParseStatus.message m) =
    let (h', handled) = handle_message h m.body in
    if not handled
    then record { helper = h'; end = refused; consumed = total }
    else rest h' left total

-- The loop of `nb_privsep_helper_feed`: `bytes` is what is left, `total` what is consumed.
unfoldable pub feed_loop : ℕ → Helper → List ℕ → ℕ → HelperFed
feed_loop fuel h [] total = record { helper = h; end = accepted; consumed = total }
feed_loop zero h (b ∷ bytes) total = record { helper = h; end = no_fuel; consumed = total }
feed_loop (suc fuel) h (b ∷ bytes) total =
    let fed = parser_feed h.parser (b ∷ bytes) in
    feed_message (feed_loop fuel) (record h { parser = fed.parser }) (drop fed.consumed (b ∷ bytes))
      (total + fed.consumed) fed.status

-- Each round takes a byte at least, so `length bytes` rounds are enough.
unfoldable pub helper_feed : Helper → List ℕ → HelperFed
helper_feed h bytes =
    if h.failed
    then record { helper = h; end = refused; consumed = 0 }
    else feed_loop (length bytes) h bytes 0
