-- ===== src/Client/Orders.antt =====
-- The calls `createOrder`, `getOrder` and `handleError` of sdk/src/client.ts.
use Prim.Native.String.{◌++◌}
use cards.Prelude.{
  ℕ, ◌≤◌, ◌+◌, ◌≡◌, refl, sym, subst, List, [], ◌∷◌, Option, none, some, String, str_eq, length,
  All, get_or, arith, if◌then◌else◌,
}
use cards.Errors.{Result, err, ◌>>=◌, parse_api_error}
use cards.Client.{
  Request, Fetched, response, threw, is_ok, OrderOptions, OrderResponse, OrderStatus, no_payload,
  new_order,
}
use cards.Client.OrderId.{validate_order_id}
use cards.Client.Retry.{Policy, Trace, fetch_with_retry, fetch_with_retry-StopsAt}

pub record Client : Type 0 where
  pub base_url : String
  pub api_key : String
  pub retry : Policy

-- `if (!res.ok) return this.handleError(res); return res.json();`
unfoldable pub finish : {A : Type 0} → Fetched A → Result A
finish (threw e) = err e
finish (response res) =
    if is_ok res then res.json else err (parse_api_error res.status res.error_body)

-- The requests. An order id is left alone by `encodeURIComponent` (Client/OrderId), which is not
-- written here.
unfoldable pub order_request : Client → String → Request
order_request c order_id = record {
  method = "GET";
  url = c.base_url ++ ("/orders/" ++ order_id);
  headers = ("X-Api-Key", c.api_key) ∷ [];
  payload = no_payload;
}

unfoldable pub create_request : Client → String → OrderOptions → Request
create_request c idempotency_key opts = record {
  method = "POST";
  url = c.base_url ++ "/orders";
  headers =
      ("Content-Type", "application/json")
      ∷ ("X-Api-Key", c.api_key)
      ∷ ("Idempotency-Key", idempotency_key)
      ∷ [];
  payload = new_order opts;
}

-- The value of a header.
abbrev pub header : String → List (String × String) → Option String
header name [] = none
header name ((n, v) ∷ hs) = let rest = header name hs in if str_eq n name then some v else rest

-- A request that posts an order under a key.
pub record IsOrder (c : Client) (key : String) (opts : OrderOptions) (r : Request) : Type 0 where
  pub method : r.method ≡ "POST"
  pub url : r.url ≡ c.base_url ++ "/orders"
  pub payload : r.payload ≡ new_order opts
  pub api_key : header "X-Api-Key" r.headers ≡ some c.api_key
  pub same_key : header "Idempotency-Key" r.headers ≡ some key

-- The caller's key, or else the fresh one.
abbrev pub if_given : Option String → String → String
if_given none uuid = uuid
if_given (some key) uuid = key

module _ (c : Client) (random : ℕ → ℕ → ℕ) where
  create_request-IsOrder :
      (key : Option String) (uuid : String) (opts : OrderOptions)
      → IsOrder c (if_given key uuid) opts (create_request c (get_or key uuid) opts)
  unfolding create_request
  create_request-IsOrder none uuid opts = record {
    method = refl;
    url = refl;
    payload = refl;
    api_key = refl;
    same_key = refl;
  }
  create_request-IsOrder (some key) uuid opts = record {
    method = refl;
    url = refl;
    payload = refl;
    api_key = refl;
    same_key = refl;
  }

  unfoldable pub get_order : (ℕ → Request → Fetched OrderStatus) → String → Result OrderStatus
  unfolding order_request finish
  get_order fetch order_id = validate_order_id order_id >>= λ _.
      finish (fetch_with_retry fetch random c.retry (order_request c order_id)).result

  -- The run of the retry loop in `createOrder`; `uuid` is what `crypto.randomUUID()` gives.
  unfoldable pub create_order_trace :
      (ℕ → Request → Fetched OrderResponse)
      → (idempotency_key : Option String) (uuid : String) → OrderOptions
      → Trace OrderResponse
  create_order_trace fetch idempotency_key uuid opts =
      fetch_with_retry fetch random c.retry (create_request c (get_or idempotency_key uuid) opts)

  unfoldable pub create_order :
      (ℕ → Request → Fetched OrderResponse)
      → (idempotency_key : Option String) (uuid : String) → OrderOptions
      → Result OrderResponse
  unfolding create_order_trace finish
  create_order fetch idempotency_key uuid opts =
      finish (create_order_trace fetch idempotency_key uuid opts).result

  -- Whatever the network does, `createOrder` posts at most `attempts` + 1 times, where the jitter is
  -- within its range, and each time the same order to the address for orders, with the API key and under
  -- one idempotency key: the caller's, or else the fresh id.
  pub create_order_trace-same_key :
      ((i d : ℕ) → random i d ≤ d)
      → (fetch : ℕ → Request → Fetched OrderResponse) (key : Option String) (uuid : String)
      → (opts : OrderOptions)
      → let t = create_order_trace fetch key uuid opts in
        (length t.sent ≤ c.retry.attempts + 1)
        × All (λ r. IsOrder c (if_given key uuid) opts r) t.sent
  unfolding create_order_trace
  create_order_trace-same_key h fetch key uuid opts =
      let (stop, s) =
        fetch_with_retry-StopsAt fetch random c.retry (create_request c (get_or key uuid) opts) h in
      (omega (arith, s.calls, s.in_time), orders key _ s.same_request)
    where
      orders :
          (key : Option String) (rs : List Request)
          → All (λ r. r ≡ create_request c (get_or key uuid) opts) rs
          → All (λ r. IsOrder c (if_given key uuid) opts r) rs
      orders key [] q = tt
      orders key (r ∷ rs) q = (
        subst (IsOrder c (if_given key uuid) opts) (sym q.0) (create_request-IsOrder key uuid opts),
        orders key rs q.1,
      )
