-- ===== src/Policy/Rules.antt =====
-- What `checkPolicy` (backend/src/policy.js) lets through, as conditions on the key and the order.
use cards.Prelude.{
  ℕ, ◌<◌, ◌≡◌, refl, sym, ◌↔◌, Bool, true, false, not, ◌||◌, List, ◌∷◌, Option, none, some, String,
  ltb, all, any, arith, Bool-cases, inl, inr, none_some, if◌then◌else◌,
}
use cards.Policy.{
  Floats, Column, absent, unreadable, stored, Hours, Key, Spent, Rule, invalid_amount,
  agent_suspended, approval_threshold, policy_corrupt_days, blocked_day, policy_corrupt_single_tx,
  single_tx_hard_cap, policy_corrupt_daily, daily_limit_exceeded, policy_corrupt_approval, approved,
  Ruling, parse_hhmm, judge_window, minute_of, day_of, check_hours, is_day, is_today, check_days,
  first_of, bad_limit, check_single, spent_today, check_daily, check_approval, bad_amount,
  first_rule, verdict_of, finalise, is_pending, check_policy,
}
use cards.Policy.Window.{minutes_after, in_window-minutes_after, parse_hhmm-bound}

-- The hours of the key hold the minute `t`.
pub data IsOpen (t : ℕ) : Column Hours → Type 0 where
  always : IsOpen t absent
  within :
      {h : Hours} (a b : ℕ)
      → parse_hhmm h.opening ≡ some a
      → parse_hhmm h.closing ≡ some b
      → ltb (minutes_after a t) (minutes_after a b) ≡ true
      → IsOpen t (stored h)

-- The days of the key are days, and the day `d` is one of them.
pub data IsAllowed (d : ℕ) : Column (List (Option ℕ)) → Type 0 where
  every_day : IsAllowed d absent
  listed :
      {days : List (Option ℕ)}
      → all is_day days ≡ true
      → any (is_today d) days ≡ true
      → IsAllowed d (stored days)

opens :
    (a b t : ℕ)
    → a < 1_440
    → b < 1_440
    → t < 1_440
    → (judge_window (some a) (some b) t ≡ none)
      ↔ (ltb (minutes_after a t) (minutes_after a b) ≡ true)
opens a b t la lb lt = rw⁻¹ (in_window-minutes_after a b t la lb lt) (ground arith)

judge_window-IsOpen :
    (h : Hours) (now : ℕ) (x y : Option ℕ)
    → parse_hhmm h.opening ≡ x
    → parse_hhmm h.closing ≡ y
    → judge_window x y (minute_of now) ≡ none
    → IsOpen (minute_of now) (stored h)
judge_window-IsOpen h now none y ex ey e = none_some (sym e)
judge_window-IsOpen h now (some a) none ex ey e = none_some (sym e)
judge_window-IsOpen h now (some a) (some b) ex ey e = within a b ex ey (
    (opens a b (minute_of now) (parse_hhmm-bound h.opening a ex) (parse_hhmm-bound h.closing b ey)
        (omega arith)).0
      e)

IsOpen-iff : (s : Column Hours) (now : ℕ) → (check_hours s now ≡ none) ↔ IsOpen (minute_of now) s
IsOpen-iff absent now = (λ e. always, λ x. refl)
IsOpen-iff unreadable now = (λ e. none_some (sym e), λ x. elim x [ ])
IsOpen-iff (stored h) now = (
  judge_window-IsOpen h now (parse_hhmm h.opening) (parse_hhmm h.closing) refl refl,
  λ x. elim x [
    | within a b ea eb l ↦
        rw (ea, eb)
          ((opens a b (minute_of now) (parse_hhmm-bound h.opening a ea)
              (parse_hhmm-bound h.closing b eb) (omega arith)).1
            l)
  ],
)

listed_both :
    (a b : Bool)
    → (if not a then some policy_corrupt_days else if b then none else some blocked_day) ≡ none
    → (a ≡ true) × (b ≡ true)
listed_both a b e = ground arith

IsAllowed-iff :
    (s : Column (List (Option ℕ))) (now : ℕ) → (check_days s now ≡ none) ↔ IsAllowed (day_of now) s
IsAllowed-iff absent now = (λ e. every_day, λ x. refl)
IsAllowed-iff unreadable now = (λ e. none_some (sym e), λ x. elim x [ ])
IsAllowed-iff (stored days) now = (
  λ e.
      let (a, b) = listed_both (all is_day days) (any (is_today (day_of now)) days) e in listed a b,
  λ x. elim x [ listed a b ↦ rw (a, b) refl ],
)

module _ (f : Floats) where
  -- The value stays within a limit, where there is one; a limit that is no number is not kept.
  pub data IsWithin (x : f.Float) : Option String → Type 0 where
    unlimited : IsWithin x none
    limited :
        {l : String}
        → bad_limit f (f.parse_float l) ≡ false
        → f.less (f.parse_float l) x ≡ false
        → IsWithin x (some l)

  limited_both :
      (a b : Bool) (r q : Rule)
      → (if a then some r else if b then some q else none) ≡ none
      → (a ≡ false) × (b ≡ false)
  limited_both a b r q e = ground arith

  IsWithin-limit :
      (x : f.Float) (l : String) (r q : Rule)
      → ((if bad_limit f (f.parse_float l)
            then some r
            else if f.less (f.parse_float l) x
            then some q
            else none)
          ≡ none)
        ↔ IsWithin x (some l)
  IsWithin-limit x l r q = (
    λ e.
        let (a, b) =
          limited_both (bad_limit f (f.parse_float l)) (f.less (f.parse_float l) x) r q e in
        limited a b,
    λ w. elim w [ limited a b ↦ rw (a, b) refl ],
  )

  IsWithin-single : (x : f.Float) (l : Option String) → (check_single f x l ≡ none) ↔ IsWithin x l
  IsWithin-single x none = (λ e. unlimited, λ w. refl)
  IsWithin-single x (some l) = IsWithin-limit x l policy_corrupt_single_tx single_tx_hard_cap

  -- With the order, the total of the day.
  abbrev total : f.Float → ℕ → List Spent → f.Float
  total x now orders = f.add (spent_today f now f.zero_float orders) x

  IsWithin-daily :
      (x : f.Float) (l : Option String) (now : ℕ) (orders : List Spent)
      → (check_daily f x l now orders ≡ none) ↔ IsWithin (total x now orders) l
  IsWithin-daily x none now orders = (λ e. unlimited, λ w. refl)
  IsWithin-daily x (some l) now orders =
      IsWithin-limit (total x now orders) l policy_corrupt_daily daily_limit_exceeded

  IsWithin-approval :
      (x : f.Float) (l : Option String) → (check_approval f x l ≡ none) ↔ IsWithin x l
  IsWithin-approval x none = (λ e. unlimited, λ w. refl)
  IsWithin-approval x (some l) = IsWithin-limit x l policy_corrupt_approval approval_threshold

  -- An order of `x` that no rule stops.
  pub record Passes (key : Key) (now : ℕ) (orders : List Spent) (x : f.Float) : Type 0 where
    pub finite : f.is_finite x ≡ true
    pub positive : f.at_most x f.zero_float ≡ false
    pub active : key.suspended ≡ false
    pub under_cap : IsWithin x key.single_tx_limit
    pub hours : IsOpen (minute_of now) key.allowed_hours
    pub days : IsAllowed (day_of now) key.allowed_days
    pub under_daily : IsWithin (total x now orders) key.daily_limit
    pub no_approval : IsWithin x key.require_approval_above

  both_none : (a b : Option Rule) → first_of a b ≡ none → (a ≡ none) × (b ≡ none)
  both_none none b e = (refl, e)
  both_none (some r) b e = none_some (sym e)

  if_none : (b : Bool) (r : Rule) → (if b then some r else none) ≡ none → b ≡ false
  if_none true r e = none_some (sym e)
  if_none false r e = refl

  or_false : (a b : Bool) → (not a || b) ≡ false → (a ≡ true) × (b ≡ false)
  or_false a b e = ground arith

  first_rule-Passes :
      (key : Key) (now : ℕ) (orders : List Spent) (x : f.Float)
      → first_rule f key now orders x ≡ none
      → Passes key now orders x
  unfolding first_rule
  first_rule-Passes key now orders x e =
      let (e1, r1) = both_none _ _ e in
      let (e2, r2) = both_none _ _ r1 in
      let (e3, r3) = both_none _ _ r2 in
      let (e4, r4) = both_none _ _ r3 in
      let (e5, r5) = both_none _ _ r4 in
      let (e6, e7) = both_none _ _ r5 in
      let (fin, pos) =
        or_false (f.is_finite x) (f.at_most x f.zero_float)
          (if_none (bad_amount f x) invalid_amount e1) in
      record {
        finite = fin;
        positive = pos;
        active = if_none key.suspended agent_suspended e2;
        under_cap = (IsWithin-single x key.single_tx_limit).0 e3;
        hours = (IsOpen-iff key.allowed_hours now).0 e4;
        days = (IsAllowed-iff key.allowed_days now).0 e5;
        under_daily = (IsWithin-daily x key.daily_limit now orders).0 e6;
        no_approval = (IsWithin-approval x key.require_approval_above).0 e7;
      }

  Passes-first_rule :
      (key : Key) (now : ℕ) (orders : List Spent) (x : f.Float)
      → Passes key now orders x
      → first_rule f key now orders x ≡ none
  unfolding first_rule
  Passes-first_rule key now orders x p =
      rw
        (
          p.finite,
          p.positive,
          p.active,
          (IsWithin-single x key.single_tx_limit).1 p.under_cap,
          (IsOpen-iff key.allowed_hours now).1 p.hours,
          (IsAllowed-iff key.allowed_days now).1 p.days,
          (IsWithin-daily x key.daily_limit now orders).1 p.under_daily,
          (IsWithin-approval x key.require_approval_above).1 p.no_approval,
        )
        refl

  verdict_of-approved : (r : Option Rule) → (verdict_of r).decision ≡ approved → r ≡ none
  verdict_of-approved r e = ground arith

  -- An order of a key is approved exactly when its amount is a finite number above zero, the key is
  -- not suspended, the amount is within the cap of a transaction and the threshold of approval, the
  -- minute of the day is less after the opening of the window than the closing is, the day is one of
  -- the days, and the orders of the day and this one together are within the daily limit. A rule that
  -- the key does not have is no condition, and a rule that cannot be read is never met.
  pub check_policy-approved_iff :
      (key : Key) (now : ℕ) (orders : List Spent) (amount : String) (persist : Bool)
      (log : List Ruling)
      → ((check_policy f (some key) now orders amount persist log).0.decision ≡ approved)
        ↔ Passes key now orders (f.parse_float amount)
  unfolding check_policy
  check_policy-approved_iff key now orders amount persist log =
      let x = f.parse_float amount in
      (
        λ e.
            first_rule-Passes key now orders x
              (verdict_of-approved (first_rule f key now orders x) e),
        λ p. rw (Passes-first_rule key now orders x p) refl,
      )

  logged :
      (v : Ruling) (log : List Ruling)
      → (finalise true v log).1 ≡ (if is_pending v.decision then log else v ∷ log)
  logged v log = elim (Bool-cases (is_pending v.decision)) [ inl b ↦ rw b refl | inr b ↦ rw b refl ]

  -- A preview gives the verdict that the order would get, and writes nothing; the order's check writes
  -- its verdict once, unless that waits for the owner.
  check_policy_preview :
      (key : Option Key) (now : ℕ) (orders : List Spent) (amount : String) (log : List Ruling)
      → let order = check_policy f key now orders amount true log in
        ((check_policy f key now orders amount false log) ≡ (order.0, log))
        × (order.1 ≡ (if is_pending order.0.decision then log else order.0 ∷ log))
  unfolding check_policy
  check_policy_preview none now orders amount log = (refl, refl)
  check_policy_preview (some key) now orders amount log =
      (refl, logged (verdict_of (first_rule f key now orders (f.parse_float amount))) log)
