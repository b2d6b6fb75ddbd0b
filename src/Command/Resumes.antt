-- ===== src/Command/Resumes.antt =====
-- What `purchaseCommand` (sdk/src/commands/purchase.ts) keeps from one run for the next.
use cards.Prelude.{
  ◌≡◌, ◌≤◌, refl, sym, ap, ◌∙◌, true, false, Option, none, some, String, str_eq, str_eq_refl,
}
use cards.Errors.{ok, err, resumable, Phase}
use cards.Soroban.{xlm}
use cards.Purchase.{PurchaseOpts, context}
use cards.Command.Args.{Args}
use cards.Command.LastOrder.{
  LastOrderState, Fields, Stored, Json, load_last_order, save_last_order, max_last_order_bytes,
  load_last_order-save_last_order,
}
use cards.Command.Run.{Env, Exit, pick_asset, resume_arg, attempt, purchase_command}
use cards.Command.Saves.{purchase_command-IsAttempt}

module _ (parse : String → Option Fields) (print : LastOrderState → Stored)
    (json : Json parse print) where
  -- Where a run attempts a purchase that fails with a resumable error and the file can be written, a
  -- next run that resumes that order and finds the file as the first left it attempts a purchase with
  -- the error's transaction hash and phase, and, unless the arguments name an asset, with XLM.
  pub purchase_command-resumes :
      (first next : Env) (args again : Args) (x y : Exit) (opts opts' : PurchaseOpts)
      (id reason : String) (phase : Phase) (tx_hash : Option String)
      → purchase_command parse print first args ≡ ok x
      → x.attempted ≡ some opts
      → ((wallet : String) → first.purchase wallet opts ≡ err (resumable id reason phase tx_hash))
      → first.writable ≡ true
      → str_eq id "" ≡ false
      → (print (record { order_id = id; tx_hash = tx_hash; phase = some phase })).size
        ≤ max_last_order_bytes
      → next.last_order ≡ x.last_order
      → again.resume ≡ some id
      → purchase_command parse print next again ≡ ok y
      → y.attempted ≡ some opts'
      → (opts'.resume ≡ some (context id none tx_hash (some phase)))
        × (again.asset ≡ none → opts'.payment_asset ≡ some xlm)
  unfolding attempt resume_arg pick_asset
  purchase_command-resumes first next args again x y opts opts' id reason phase tx_hash r a fails w
        named small kept same r' a' =
      let p = purchase_command-IsAttempt parse print first args x opts r a in
      let q = purchase_command-IsAttempt parse print next again y opts' r' a' in
      let saved = p.ends ∙ ap (attempt parse print first p.wallet) (sym p.same) in
      let loaded =
        ap (load_last_order parse) (kept ∙ ap (λ z. z.last_order) saved ∙ left p.wallet)
        ∙ load_last_order-save_last_order parse print json _ first.last_order named small in
      (
        ap (λ z. z.resume) q.same ∙ resumed loaded,
        λ no. ap (λ z. z.payment_asset) q.same ∙ rw (no, same, named, pick_asset) refl,
      )
    where
      state : LastOrderState
      state = record { order_id = id; tx_hash = tx_hash; phase = some phase }

      left :
          (wallet : String)
          → (attempt parse print first wallet opts).last_order
            ≡ save_last_order print true state first.last_order
      left wallet = rw (fails wallet, attempt, w) refl

      resumed :
          load_last_order parse next.last_order ≡ some state
          → resume_arg parse print next again ≡ some (context id none tx_hash (some phase))
      resumed l = rw (same, named, l, same, str_eq_refl id, resume_arg) refl
