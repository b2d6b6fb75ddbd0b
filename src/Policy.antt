-- ===== src/Policy.antt =====
-- The spend rules of an API key: `checkPolicy` of backend/src/policy.js. Floats are a parameter, with
-- the operations that the code calls on them; a stored JSON text is what `JSON.parse` makes of it.
-- The texts of the reasons are left out.
pub mod Window
pub mod Rules
pub mod Tests
use cards.Prelude.{
  ℕ, ◌+◌, ◌*◌, ◌/◌, ◌%◌, Bool, true, false, not, ◌&&◌, ◌||◌, List, [], ◌∷◌, Option, none, some,
  String, ◌==◌, ltb, leb, any, all, if◌then◌else◌,
}
use cards.Prelude.Text.{Text, is_digit, digits_value}
use cards.Fulfillment.{Status, expired, rejected}

-- `parseFloat`, SQL's `CAST(… AS REAL)`, `Number.isFinite`, `<`, `<=` and `+` on floats.
pub record Floats : Type 1 where
  pub Float : Type 0
  pub parse_float : String → Float
  pub cast_real : String → Float
  pub is_finite : Float → Bool
  pub zero_float : Float
  pub less : Float → Float → Bool
  pub at_most : Float → Float → Bool
  pub add : Float → Float → Float

-- A column that holds JSON: null or empty, a text that is refused, or a value.
pub data Column (A : Type 0) : Type 0 where
  absent unreadable : Column A
  stored : A → Column A

-- `start` and `end`, where they are strings.
pub record Hours : Type 0 where
  pub opening : Option Text
  pub closing : Option Text

-- A row of `api_keys`; an entry of the days is a natural number, or something else.
pub record Key : Type 0 where
  pub suspended : Bool
  pub single_tx_limit : Option String
  pub allowed_hours : Column Hours
  pub allowed_days : Column (List (Option ℕ))
  pub daily_limit : Option String
  pub require_approval_above : Option String

-- An order of the key.
pub record Spent : Type 0 where
  pub status : Status
  pub amount_usdc : String
  pub created_at : ℕ

pub data Rule : Type 0 where
  key_not_found invalid_amount agent_suspended policy_corrupt_single_tx single_tx_hard_cap
        policy_corrupt_hours after_hours policy_corrupt_days blocked_day policy_corrupt_daily
        daily_limit_exceeded policy_corrupt_approval approval_threshold all_checks_passed :
      Rule

pub data Decision : Type 0 where
  approved blocked pending_approval : Decision

pub record Ruling : Type 0 where
  pub decision : Decision
  pub rule : Rule

abbrev pub two_digits : ℕ → ℕ → ℕ → Option ℕ
two_digits top a b =
    if is_digit a && is_digit b
    then if leb (digits_value (a ∷ b ∷ [])) top then some (digits_value (a ∷ b ∷ [])) else none
    else none

abbrev pub minutes : Option ℕ → Option ℕ → Option ℕ
minutes none m = none
minutes (some h) none = none
minutes (some h) (some m) = some (h * 60 + m)

-- `parseHHMM`.
unfoldable pub parse_hhmm : Option Text → Option ℕ
parse_hhmm (some (a ∷ b ∷ c ∷ d ∷ e ∷ [])) =
    if c == b':' then minutes (two_digits 23 a b) (two_digits 59 d e) else none
parse_hhmm _ = none

-- The minute of the day and the day of the week, in UTC, of a time in milliseconds.
abbrev pub minute_of : ℕ → ℕ
minute_of now = now / 60_000 % 1_440

abbrev pub day_of : ℕ → ℕ
day_of now = (now / 86_400_000 + 4) % 7

unfoldable pub in_window : ℕ → ℕ → ℕ → Bool
in_window opening closing now =
    if leb opening closing
    then leb opening now && ltb now closing
    else leb opening now || ltb now closing

abbrev pub judge_window : Option ℕ → Option ℕ → ℕ → Option Rule
judge_window none b now = some policy_corrupt_hours
judge_window (some a) none now = some policy_corrupt_hours
judge_window (some a) (some b) now = if in_window a b now then none else some after_hours

abbrev pub check_hours : Column Hours → ℕ → Option Rule
check_hours absent now = none
check_hours unreadable now = some policy_corrupt_hours
check_hours (stored h) now =
    judge_window (parse_hhmm h.opening) (parse_hhmm h.closing) (minute_of now)

abbrev pub is_day : Option ℕ → Bool
is_day none = false
is_day (some d) = leb d 6

abbrev pub is_today : ℕ → Option ℕ → Bool
is_today today none = false
is_today today (some d) = d == today

abbrev pub check_days : Column (List (Option ℕ)) → ℕ → Option Rule
check_days absent now = none
check_days unreadable now = some policy_corrupt_days
check_days (stored days) now =
    if not (all is_day days)
    then some policy_corrupt_days
    else if any (is_today (day_of now)) days
    then none
    else some blocked_day

-- The first rule that speaks.
abbrev pub first_of : Option Rule → Option Rule → Option Rule
first_of none b = b
first_of (some r) b = some r

abbrev pub counts : Status → Bool
counts expired = false
counts rejected = false
counts _ = true

module _ (f : Floats) where
  open f use {Float, parse_float, cast_real, is_finite, zero_float, less, at_most, add}

  abbrev pub bad_limit : Float → Bool
  bad_limit limit = not (is_finite limit) || less limit zero_float

  abbrev pub check_single : Float → Option String → Option Rule
  check_single amount none = none
  check_single amount (some limit) =
      if bad_limit (parse_float limit)
      then some policy_corrupt_single_tx
      else if less (parse_float limit) amount
      then some single_tx_hard_cap
      else none

  -- The `SUM` over today's orders but the expired and the rejected.
  abbrev pub spent_today : ℕ → Float → List Spent → Float
  spent_today now total [] = total
  spent_today now total (o ∷ os) =
      spent_today now
        (if counts o.status && (o.created_at / 86_400_000 == now / 86_400_000)
          then add total (cast_real o.amount_usdc)
          else total)
        os

  abbrev pub check_daily : Float → Option String → ℕ → List Spent → Option Rule
  check_daily amount none now orders = none
  check_daily amount (some limit) now orders =
      if bad_limit (parse_float limit)
      then some policy_corrupt_daily
      else if less (parse_float limit) (add (spent_today now zero_float orders) amount)
      then some daily_limit_exceeded
      else none

  abbrev pub check_approval : Float → Option String → Option Rule
  check_approval amount none = none
  check_approval amount (some limit) =
      if bad_limit (parse_float limit)
      then some policy_corrupt_approval
      else if less (parse_float limit) amount
      then some approval_threshold
      else none

  abbrev pub bad_amount : Float → Bool
  bad_amount amount = not (is_finite amount) || at_most amount zero_float

  -- The first of the rules that stops the order, in their order.
  unfoldable pub first_rule : Key → ℕ → List Spent → Float → Option Rule
  unfolding parse_hhmm in_window
  first_rule key now orders amount =
      first_of (if bad_amount amount then some invalid_amount else none) (
        first_of (if key.suspended then some agent_suspended else none) (
          first_of (check_single amount key.single_tx_limit) (
            first_of (check_hours key.allowed_hours now) (
              first_of (check_days key.allowed_days now) (
                first_of (check_daily amount key.daily_limit now orders)
                  (check_approval amount key.require_approval_above))))))

abbrev pub verdict_of : Option Rule → Ruling
verdict_of none = record { decision = approved; rule = all_checks_passed }
verdict_of (some approval_threshold) = record {
  decision = pending_approval;
  rule = approval_threshold;
}
verdict_of (some r) = record { decision = blocked; rule = r }

-- `finalise`: the decision is logged when it is to be kept; one that waits for the owner is logged by
-- the caller.
abbrev pub is_pending : Decision → Bool
is_pending pending_approval = true
is_pending _ = false

abbrev pub finalise : Bool → Ruling → List Ruling → Ruling × List Ruling
finalise persist v log = (v, if persist && not (is_pending v.decision) then v ∷ log else log)

module _ (f : Floats) where
  -- `checkPolicy`, on the key's row when there is one, with the log of the decisions.
  unfoldable pub check_policy :
      Option Key → ℕ → List Spent → String → Bool → List Ruling → Ruling × List Ruling
  unfolding first_rule
  check_policy none now orders amount persist log =
      finalise persist (record { decision = blocked; rule = key_not_found }) log
  check_policy (some key) now orders amount persist log =
      finalise persist (verdict_of (first_rule f key now orders (f.parse_float amount))) log
