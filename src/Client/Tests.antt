-- ===== src/Client/Tests.antt =====
-- Calls of the client, and the theorems at them.
use cards.Prelude.{
  ℕ, zero, suc, ◌+◌, ◌*◌, ◌-◌, ◌≤◌, ◌≡◌, refl, Option, none, some, List, [], ◌∷◌, ◌++◌, arith,
  length, All,
}
use cards.Prelude.Text.{Text, codes, split}
use cards.Errors.{
  Result, ok, err, error, wait_timeout, ApiBody, message, is_order_failed, is_wait_timeout,
  is_cards402,
}
use cards.Client.{
  CardDetails, OrderStatus, OrderResponse, OrderOptions, ready, processing, Request, Fetched,
  response, no_payload,
}
use cards.Client.OrderId.{validate_order_id, is_order_id, is_id_char, is_alnum}
use cards.Client.Retry.{
  Policy, fetch_with_retry, settles, should_retry, StopsAt, fetch_with_retry-StopsAt,
}
use cards.Client.Orders.{
  Client, create_order_trace, create_order_trace-same_key, IsOrder, get_order, order_request,
  finish,
}
use cards.Client.Settle.{settle}
use cards.Client.Poll.{poll, Ends, poll-Ends}
use cards.Client.Events.{cr, lf, normalize, replace_crlf, replace_cr, cut, data_line}
use cards.Client.Stream.{waiting, sse_buffer_cap, read_loop, drain, drain_all, handle_event}
use cards.Client.Stream.Chunks.{text_of, outcome, read_loop-eq-outcome}
use cards.Client.Stream.LineEnds.{text_of-divided}
use cards.Client.Wait.{
  opened, open_failed, World, Ticks, Cause, wait_for_card, poll_remaining, recover, is_abort,
  wait_for_card_stream, wait_for_card-Cause, wait_for_card-closed_stream,
}

valid_id : validate_order_id "order-1" ≡ ok tt
unfolding validate_order_id is_order_id is_id_char is_alnum
valid_id = refl

abbrev card : CardDetails
card = record { number = "4111111111111111"; cvv = "123"; expiry = "12/29"; brand = some "VISA" }

abbrev order : OrderStatus
order = record {
  order_id = "order-1";
  status = "delivered";
  phase = ready;
  amount_usdc = "10.00";
  payment_asset = "usdc";
  card = some card;
  error = none;
  note = none;
  refund = none;
  payment = none;
  created_at = "";
  updated_at = "";
}

abbrev no_body : ApiBody
no_body = record { error_field = none; message_field = none; limit = none; spent = none }

-- The first reply is a 503, and the second one holds the order.
abbrev busy_once : ℕ → Request → Fetched OrderStatus
busy_once zero request =
    response (record { status = 503; json = err (error "no JSON"); error_body = no_body })
busy_once (suc n) request =
    response (record { status = 200; json = ok order; error_body = no_body })

abbrev policy : Policy
policy = record { attempts = 2; base_delay_ms = 500; max_delay_ms = 5000 }

abbrev client : Client
client = record { base_url = "https://api"; api_key = "key"; retry = policy }

abbrev half : ℕ → ℕ → ℕ
half i d = d - 1

half-small : (i d : ℕ) → half i d ≤ d
half-small i d = omega arith

abbrev request : Request
request = record {
  method = "GET";
  url = "https://api/orders/order-1";
  headers = [];
  payload = no_payload;
}

slept_once : (fetch_with_retry busy_once half policy request).slept ≡ 499 ∷ []
unfolding fetch_with_retry settles should_retry
slept_once = refl

fetch_with_retry-StopsAt_example :
    (stop : ℕ) × StopsAt busy_once half policy request 2 0 stop
      (fetch_with_retry busy_once half policy request)
fetch_with_retry-StopsAt_example = fetch_with_retry-StopsAt busy_once half policy request half-small

abbrev order_options : OrderOptions
order_options = record { amount_usdc = "10.00"; webhook_url = none; metadata = none }

abbrev refuses : ℕ → Request → Fetched OrderResponse
refuses n r = response (record { status = 503; json = err (error "no JSON"); error_body = no_body })

create_order_trace-same_key_example :
    (length (create_order_trace client half refuses none "uuid" order_options).sent ≤ 2 + 1)
    × All
        (IsOrder client "uuid" order_options)
        (create_order_trace client half refuses none "uuid" order_options).sent
create_order_trace-same_key_example =
    create_order_trace-same_key client half half-small refuses none "uuid" order_options

-- An order that is ready in the second round.
abbrev ready_second : ℕ → Result OrderStatus
ready_second zero = ok (record order { phase = processing; card = none })
ready_second (suc n) = ok order

tick : (i : ℕ) → i * 3000 + 3000 ≤ (i + 1) * 3000
tick i = omega arith

poll-Ends_example :
    (r : Result CardDetails) × (poll ready_second (λ i. i * 3000) "order-1" 60000 60000 21 0
      ≡ some r)
    × Ends ready_second (λ i. i * 3000) "order-1" 60000 60000 0 r
poll-Ends_example =
    poll-Ends ready_second (λ i. i * 3000) "order-1" 60000 60000 3000 tick 20 0 (omega arith)

-- A backend whose every event is the order.
abbrev parse_order : Text → Option OrderStatus
parse_order [] = none
parse_order (c ∷ s) = some order

-- One event, split between two chunks.
abbrev chunks : List Text
chunks = codes "data:" ∷ codes " 1\n\n" ∷ []

streamed : read_loop parse_order "order-1" 60000 [] chunks none ≡ ok card
unfolding read_loop normalize replace_crlf replace_cr drain cut handle_event data_line settle split
streamed = refl

chunks_fit : length (text_of chunks) ≤ sse_buffer_cap
unfolding normalize replace_crlf replace_cr
chunks_fit = omega arith

read_loop-eq-outcome_example :
    read_loop parse_order "order-1" 60000 [] chunks none
    ≡ outcome parse_order "order-1" 60000 none (drain_all parse_order "order-1" (text_of chunks))
read_loop-eq-outcome_example =
    read_loop-eq-outcome parse_order "order-1" 60000 none chunks chunks_fit

-- A stream that is closed at once, in a world where the order is ready.
abbrev world : World
world = record {
  start = 0;
  stream = opened 200 (some (record { chunks = []; ending = none }));
  caught_at = 10;
  poll_start = 10;
  clock = λ i. 10 + i * 3000;
  fetch = λ i. busy_once;
}

world-Ticks : Ticks client half parse_order "order-1" 60000 3000 world
world-Ticks = record { caught = omega arith; polling = omega arith; rounds = λ i. omega arith }

wait_for_card-Cause_example :
    (r : Result CardDetails) × (wait_for_card client half parse_order "order-1" 60000 21 world
      ≡ some r)
    × Cause client half parse_order "order-1" 60000 world r
wait_for_card-Cause_example =
    wait_for_card-Cause client half parse_order "order-1" 60000 3000 20 world world-Ticks
      (omega arith)

nothing_drained : drain_all parse_order "order-1" (text_of []) ≡ waiting []
unfolding drain
nothing_drained = refl

wait_for_card-closed_stream_example :
    wait_for_card client half parse_order "order-1" 60000 21 world
    ≡ some (err (wait_timeout "order-1" 60000))
wait_for_card-closed_stream_example =
    wait_for_card-closed_stream client half parse_order "order-1" 60000 21 world 200 [] [] valid_id
      refl refl (omega arith) nothing_drained

-- With a stream that cannot be opened the same world gives the card.
polled :
    wait_for_card client half parse_order "order-1" 60000 21
      (record world { stream = open_failed (error "network") })
    ≡ some (ok card)
unfolding wait_for_card wait_for_card_stream recover poll get_order order_request finish
    validate_order_id is_order_id is_id_char is_alnum fetch_with_retry settles should_retry settle
    is_order_failed is_wait_timeout is_cards402 is_abort message poll_remaining
polled = refl

-- The end of the event's first line is divided between the chunks.
text_of-divided_example :
    (text_of ((codes "d" ++ cr ∷ lf ∷ codes "e") ∷ []) ≡ codes "d" ++ lf ∷ normalize (codes "e"))
    × (text_of ((codes "d" ++ cr ∷ []) ∷ (lf ∷ codes "e") ∷ [])
        ≡ codes "d" ++ lf ∷ lf ∷ normalize (codes "e"))
text_of-divided_example = text_of-divided (codes "d") (codes "e") (refl, tt)
