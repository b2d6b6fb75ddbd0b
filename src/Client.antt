-- ===== src/Client.antt =====
-- sdk/src/client.ts: the data that the client exchanges with the backend. The operations are in the
-- modules below.
pub mod OrderId
pub mod Retry
pub mod Orders
pub mod Settle
pub mod Poll
pub mod Events
pub mod Stream
pub mod Wait
pub mod Tests
use cards.Prelude.{ℕ, Bool, ◌&&◌, Option, List, String, leb, ltb}
use cards.Errors.{Error, ApiBody, Result}

pub record PaymentInstructions : Type 0 where
  pub contract_id : String
  pub order_id : String
  pub usdc_amount : String
  pub usdc_asset : String
  pub xlm_amount : Option String

pub record CardDetails : Type 0 where
  pub number : String
  pub cvv : String
  pub expiry : String
  pub brand : Option String

-- `OrderPhase`; the last constructor is for a phase that the type does not list.
pub data OrderPhase : Type 0 where
  awaiting_approval awaiting_payment processing ready failed refunded rejected expired : OrderPhase
  other_phase : String → OrderPhase

-- The field `refund` is the transaction id of the refund.
pub record OrderStatus : Type 0 where
  pub order_id : String
  pub status : String
  pub phase : OrderPhase
  pub amount_usdc : String
  pub payment_asset : String
  pub card : Option CardDetails
  pub error : Option String
  pub note : Option String
  pub refund : Option String
  pub payment : Option PaymentInstructions
  pub created_at : String
  pub updated_at : String

pub record Budget : Type 0 where
  pub spent_usdc : String
  pub in_flight_usdc : String
  pub committed_usdc : String
  pub limit_usdc : Option String
  pub remaining_usdc : Option String

pub record OrderResponse : Type 0 where
  pub order_id : String
  pub status : String
  pub payment : PaymentInstructions
  pub poll_url : String
  pub budget : Budget

pub record OrderOptions : Type 0 where
  pub amount_usdc : String
  pub webhook_url : Option String
  pub metadata : Option String

-- What is handed to `JSON.stringify` for a request's body.
pub data Payload : Type 0 where
  no_payload : Payload
  new_order : OrderOptions → Payload

pub record Request : Type 0 where
  pub method : String
  pub url : String
  pub headers : List (String × String)
  pub payload : Payload

-- A response: what `res.json()` gives or throws, and the fields of its body as an error body, all
-- missing where the body is no JSON.
pub record Response (A : Type 0) : Type 0 where
  pub status : ℕ
  pub json : Result A
  pub error_body : ApiBody

-- `fetch` gives a response or throws.
pub data Fetched (A : Type 0) : Type 0 where
  response : Response A → Fetched A
  threw : Error → Fetched A

-- `res.ok`.
abbrev pub is_ok : {A : Type 0} → Response A → Bool
is_ok res = leb 200 res.status && ltb res.status 300
